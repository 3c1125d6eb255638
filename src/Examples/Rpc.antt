-- ===== src/Examples/Rpc.antt =====
-- The endpoints of the agents on short runs.
use text.Mathlib.Text.{◌==◌ as str_eq}
use vibemonitor.Prelude.{
  ℕ, ◌+◌, ◌≡◌, refl, ap, true, false, [], String, none, some, arith, length, value_or,
}
use vibemonitor.Prelude.Assoc.{lookup, insert}
use vibemonitor.Prelude.Clock.{second}
use vibemonitor.Limits.Pacing.{allow, allow_key}
use vibemonitor.Limits.Login.{admit, allow_found, make_room, allow as admit_client}
use vibemonitor.Store.Registration.{registration_open}
use vibemonitor.Rpc.Dispatch.{
  Headers, Call, Backend, Handler, agent_report, extract_token, handle_v2_rpc, handle_body,
  call_method, report, conclude,
}
use vibemonitor.Rpc.Dispatch.Body.{called}
use vibemonitor.Rpc.Dispatch.Reply.{too_often}
use vibemonitor.Rpc.DispatchLaws.{handle_v2_rpc_paced}
use vibemonitor.Rpc.Register.{Registration, Gate, register_node, handle_register, register_client}
use vibemonitor.Rpc.RegisterLaws.{handle_register_open}

abbrev headers : Headers
headers = record { trim_space = λ s. s; after_bearer = λ s. some s }

-- A store that counts the reports of one token.
abbrev counter : Backend ℕ ℕ ℕ
counter = record {
  knows_token = λ token s. str_eq token "t1";
  ingest_basic_info = λ token i s. (s, (none, "n1"));
  ingest_report = λ token p s. (s + 1, (none, "n1"));
  node_targets = λ uuid s. [];
  report_spacing = λ p. p;
}

abbrev fresh : Handler ℕ
fresh = record { store = 0; limit = []; identity_epoch = "e1" }

abbrev report_call : String → Call ℕ ℕ
report_call token = record {
  is_post = true;
  token_in_url = false;
  authorization = token;
  x_token = "";
  body = called agent_report none (some second);
}

abbrev reported : Handler ℕ
reported = (handle_v2_rpc counter headers second (report_call "t1") fresh).1

handle_v2_rpc_paced_example :
    handle_v2_rpc counter headers (second + 5) (report_call "t1") reported ≡ (too_often, reported)
unfolding extract_token handle_v2_rpc handle_body call_method report conclude allow allow_key lookup
handle_v2_rpc_paced_example =
    handle_v2_rpc_paced counter headers second (second + 5) "t1" second second (report_call "t1")
      (report_call "t1") fresh (record { bounded = omega arith; distinct = tt }) (omega arith)
      (record {
        post = refl;
        outside = refl;
        its_token = refl;
        given = refl;
        known = refl;
        info = none;
        its_body = refl;
      })
      (λ e. cc)
      (record {
        post = refl;
        outside = refl;
        its_token = refl;
        given = refl;
        known = refl;
        info = none;
        its_body = refl;
      })
      (omega arith)

abbrev gate : Gate ℕ
gate = record {
  window = record { auto_discovery_key = "k1"; register_until = 100 };
  clients = [];
  registry = record { nodes = []; token_index = []; pending = [] };
}

abbrev registration : Registration
registration = record {
  is_post = true;
  authorization = "k1";
  address = "192.0.2.1";
  name = "web-1";
  uuid = "u1";
  token = "t1";
  saved = true;
}

handle_register_open_example :
    (registration.is_post ≡ true)
    × (registration_open 50 gate.window
        ≡ some
            (value_or registration.authorization (headers.after_bearer registration.authorization)))
unfolding handle_register register_client register_node registration_open admit_client allow_found
    make_room admit lookup insert
handle_register_open_example =
    handle_register_open headers str_eq second 50 registration gate
      (λ e. let more : 1 ≡ 0 = ap (λ g. length g.clients) e in omega (arith, more))
