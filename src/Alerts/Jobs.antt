-- ===== src/Alerts/Jobs.antt =====
-- `runTelegramQueue` of internal/server/telegram_queue.go: which nodes are checked when. A node stands
-- for its id; the workers and the loop take turns, and `running` are the jobs that workers have
-- taken and whose ends the loop has not received. The states that are deleted with an engine are those
-- of Engine. `enabled` is `cfg.TelegramEnabled`.
use text.Mathlib.Text.{◌==◌ as str_eq}
use vibemonitor.Prelude.{
  ℕ, ◌+◌, ◌%◌, Bool, false, not, ◌&&◌, ◌||◌, List, [], ◌∷◌, ◌++◌, String, if◌then◌else◌, ltb,
  length, take, drop, keep, any,
}

abbrev pub telegram_queue_capacity : ℕ
telegram_queue_capacity = 128

abbrev pub member : String → List String → Bool
member id ids = any (str_eq id) ids

-- The loop's variables and the channel `jobs`.
pub record Jobs : Type 0 where
  pub engines : List String
  pub pending : List String
  pub cursor : ℕ
  pub jobs : List String
  pub running : List String

-- A node as the loop reads it: `allowed` is `n.Profile == nil || !n.Profile.AlertsDisabled`.
pub record Watched : Type 0 where
  pub id : String
  pub allowed : Bool

unfoldable pub is_active : Bool → List Watched → String → Bool
is_active enabled [] id = false
is_active enabled (n ∷ nodes) id =
    (enabled && n.allowed && str_eq id n.id) || is_active enabled nodes id

-- `delete(pending, id)`
abbrev pub without : String → List String → List String
without id ids = keep (λ x. not (str_eq id x)) ids

abbrev pub with_engine : String → List String → List String
with_engine id engines = if member id engines then engines else id ∷ engines

-- The `select` that sends the job.
unfoldable pub enqueue : String → Jobs → Jobs
enqueue id j =
    if ltb (length j.jobs) telegram_queue_capacity
    then record j { jobs = j.jobs ++ (id ∷ []); pending = id ∷ j.pending }
    else j

-- One round of the loop over the offsets.
unfoldable pub admit_job : (String → Bool) → String → Jobs → Jobs
unfolding enqueue
admit_job active id j =
    if not (active id) || member id j.pending
    then j
    else enqueue id (record j { engines = with_engine id j.engines })

unfoldable pub admit_jobs : (String → Bool) → List Watched → Jobs → Jobs
unfolding admit_job
admit_jobs active [] j = j
admit_jobs active (n ∷ nodes) j = admit_jobs active nodes (admit_job active n.id j)

-- The nodes from the cursor on, with those before it behind.
abbrev pub rotate : ℕ → List Watched → List Watched
rotate start nodes = drop start nodes ++ take start nodes

-- The loop over the engines
unfoldable pub drop_engines : (String → Bool) → Jobs → Jobs
drop_engines active j = record j {
  engines = keep (λ id. active id || member id j.pending) j.engines;
}

-- The case `<-ticks` with the sorted nodes
unfoldable pub tick_jobs : Bool → List Watched → Jobs → Jobs
unfolding drop_engines admit_jobs is_active
tick_jobs enabled [] j = drop_engines (is_active enabled []) j
tick_jobs enabled (n ∷ nodes) j =
    let all = n ∷ nodes in
    let active = is_active enabled all in
    let cleared = drop_engines active j in
    if not enabled
    then cleared
    else let done = admit_jobs active (rotate (j.cursor % length all) all) cleared in
      record done { cursor = (j.cursor + telegram_queue_capacity) % length all }

-- A worker takes a job.
unfoldable pub start_job : List String → Jobs → Jobs
start_job [] j = j
start_job (id ∷ rest) j = record j { jobs = rest; running = id ∷ j.running }

-- The case `id := <-done`, for a job that a worker has.
unfoldable pub finish_job : String → Jobs → Jobs
finish_job id j =
    if member id j.running
    then record j { running = without id j.running; pending = without id j.pending }
    else j

pub data Turn : Type 0 where
  ticks : (enabled : Bool) (nodes : List Watched) → Turn
  starts : Turn
  finishes : String → Turn

unfoldable pub turn_jobs : Turn → Jobs → Jobs
unfolding tick_jobs start_job finish_job
turn_jobs (ticks enabled nodes) j = tick_jobs enabled nodes j
turn_jobs starts j = start_job j.jobs j
turn_jobs (finishes id) j = finish_job id j
