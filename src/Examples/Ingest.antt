-- ===== src/Examples/Ingest.antt =====
-- A whole report at a concrete input: two nodes, of which the first reports.
use text.Mathlib.Text.{◌==◌ as str_eq}
use vibemonitor.Prelude.{ℕ, ◌*◌, ◌≡◌, ◌≢◌, refl, sym, ap, true, false, [], ◌∷◌, String, none}
use vibemonitor.Prelude.Int.{pos}
use vibemonitor.Prelude.Assoc.{String_discrete, lookup}
use vibemonitor.Prelude.Clock.{of_unix}
use vibemonitor.Uptime.Online.{Intervals}
use vibemonitor.Store.Points.{Floats}
use vibemonitor.Store.Ingest.{LiveNode, Incoming, LiveStore, ingest_report_at}
use vibemonitor.Store.IngestLaws.{GrownBy, ingest_report_at_lem}

abbrev noon : ℕ
noon = 1700000000

-- Whole numbers in the place of floats.
abbrev floats : Floats ℕ
floats = record {
  none_used = 0;
  percent = λ used total. 50;
  sum = λ a b. 2;
  is_percent = λ x. true;
  is_nonnegative = λ x. true;
}

abbrev intervals : Intervals ℕ
intervals = record {
  absent = 0;
  is_positive = λ x. true;
  at_most_hour = λ x. true;
  tripled = λ x. 3 * x;
}

abbrev prorate : ℕ → ℕ → ℕ → ℕ
prorate total part whole = 0

abbrev idle : LiveNode ℕ
idle = record {
  traffic = record {
    last_report = none;
    last_seen = 0;
    reset_day = 1;
    initial_used = 0;
    current_cycle_used = 0;
    cycle_start = 0;
    traffic_manual_at = none;
    last_total_up = 0;
    last_total_down = 0;
    traffic_baseline_set = false;
    daily_traffic = [];
  };
  online = record { daily = []; until = 0; since = 0 };
  points = [];
  last_resource_at = 0;
  pings = record { history = []; observed = []; windows = [] };
  targets = none;
  basic_interval = none;
}

abbrev reported : Incoming ℕ
reported = record {
  traffic = record {
    updated_at = of_unix noon;
    uptime = pos 10;
    network = record {
      total_up = pos 5;
      total_down = pos 7;
      interfaces = [];
      boot_id = "boot";
      source = "eth0";
    };
  };
  load = record {
    cpu = 1;
    ram_used = pos 1;
    ram_total = pos 2;
    disk_used = pos 1;
    disk_total = pos 2;
    net_up = pos 3;
    net_down = pos 4;
    tcp = pos 1;
    udp = pos 1;
    load1 = 0;
    tcp_new = none;
  };
  results =
      record {
        measured_at = pos noon;
        method = "tcp";
        name = "dns";
        host = "1.1.1.1:53";
        latency = pos 12;
      }
      ∷ [];
  interval = 1;
}

abbrev both : LiveStore ℕ
both = record {
  nodes = ("n1", idle) ∷ ("n2", idle) ∷ [];
  token_index = ("t1", "n1") ∷ ("t2", "n2") ∷ [];
  shared_targets = record { name = "dns"; host = "1.1.1.1:53" } ∷ [];
  pending = [];
}

abbrev first : String
first = "n1"

first_not_second : first ≢ "n2"
first_not_second e =
    let differ : str_eq first "n2" ≡ false = refl in
    let same : str_eq first "n2" ≡ true = ap (λ s. str_eq first s) (sym e) in cc

ingest_report_at_lem_example :
    GrownBy "n1" both.pending
      (ingest_report_at floats intervals prorate "t1" reported (of_unix noon) both).0.pending
    × (lookup String_discrete "n2"
          (ingest_report_at floats intervals prorate "t1" reported (of_unix noon) both).0.nodes
        ≡ lookup String_discrete "n2" both.nodes)
unfolding lookup String_discrete
ingest_report_at_lem_example =
    ingest_report_at_lem floats intervals prorate reported (of_unix noon) both "n1" "t1" "n2" refl
      first_not_second
