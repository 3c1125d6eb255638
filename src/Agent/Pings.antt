-- ===== src/Agent/Pings.antt =====
-- `measurePings` and `pingHost` of internal/agent/client.go. The network is given: whether a
-- connection to an address opens, and in how many milliseconds, and what the system's ping says.
-- Probes do not depend on each other, so the results are those of probes one after the other.
use vibemonitor.Prelude.{ℕ, Bool, List, [], ◌∷◌, String, Option, none, some, if◌then◌else◌, map}
use text.Mathlib.Text.{◌==◌ as str_eq}
use vibemonitor.Prelude.Int.{ℤ, pos, negsuc}
use vibemonitor.Store.Queue.{Target}
use vibemonitor.Ping.Results.{PingResult}

-- What `pingHost` takes: strings.TrimSpace, the test for a colon, net.JoinHostPort with port 80 and
-- with port 443, a connection, and the system's ping, which gives no time for a negative one.
pub record PingNetwork : Type 0 where
  pub trim : String → String
  pub has_port : String → Bool
  pub http : String → String
  pub https : String → String
  pub connect : String → Option ℕ
  pub ping : String → Option ℕ

-- A latency in milliseconds, -1 for none, and the method.
abbrev pub Measured : Type 0
Measured = ℤ × String

abbrev pub no_answer : String → Measured
no_answer method = (negsuc 0, method)

abbrev pub answer_in : String → ℕ → Measured
answer_in method ms = (pos ms, method)

-- One address of a list to try, and the next ones if it does not open.
unfoldable pub try_connect : Option ℕ → Measured → Measured
try_connect none next = next
try_connect (some ms) next = answer_in "tcp" ms

unfoldable pub try_ping : Option ℕ → Measured → Measured
try_ping none next = next
try_ping (some ms) next = answer_in "icmp" ms

unfoldable pub ping_trimmed : PingNetwork → String → Measured
unfolding try_connect try_ping
ping_trimmed net host =
    if str_eq host ""
    then no_answer "tcp"
    else if net.has_port host
    then try_connect (net.connect host) (no_answer "tcp")
    else try_ping (net.ping host) (
        try_connect (net.connect (net.http host))
          (try_connect (net.connect (net.https host)) (no_answer "tcp")))

-- `pingHost`, with a context that is not done
unfoldable pub ping_host : PingNetwork → String → Measured
unfolding ping_trimmed
ping_host net host = ping_trimmed net (net.trim host)

-- The goroutine of one target; `at` is time.Now().Unix().
unfoldable pub measure_ping : PingNetwork → ℤ → Target → PingResult
measure_ping net at t =
    let measured = ping_host net t.host in
    record {
      measured_at = at;
      method = measured.1;
      name = t.name;
      host = t.host;
      latency = measured.0;
    }

-- The results of a round: `none` is nil. `clock` gives the times at which the probes end.
unfoldable pub measure_all : PingNetwork → (Target → ℤ) → List Target → List PingResult
unfolding measure_ping
measure_all net clock targets = map (λ t. measure_ping net (clock t) t) targets

-- `measurePings`, and whether the context was done at its end.
unfoldable pub measure_pings :
    PingNetwork
    → (Target → ℤ)
    → Bool
    → List Target
    → Option (List PingResult)
    → Option (List PingResult)
unfolding measure_all
measure_pings net clock stopped [] results = none
measure_pings net clock stopped (t ∷ targets) results =
    if stopped then results else some (measure_all net clock (t ∷ targets))
