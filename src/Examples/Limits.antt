-- ===== src/Examples/Limits.antt =====
-- The limiters on small tables, and the forwarded address on a small network.
use vibemonitor.Prelude.{
  ◌+◌, ◌-◌, ◌*◌, ap, ◌≡◌, ◌≢◌, refl, [], ◌∷◌, arith, true, false, String, none, some, min,
}
use vibemonitor.Prelude.Assoc.{String_discrete, lookup, delete}
use vibemonitor.Prelude.Clock.{second}
use text.Mathlib.Text.{◌==◌ as str_eq}
use vibemonitor.Limits.Pacing.{Paced, pacing_key}
use vibemonitor.Limits.PacingLaws.{IsPaced}
use vibemonitor.Limits.Login
use vibemonitor.Limits.LoginLaws.{IsLimited}
use vibemonitor.Limits.LoginWindows.{
  attempt, accepted, attempts, accepted-eq-min, allow_expired_refused, allow_expired_charged,
}
use vibemonitor.Limits.ClientIp.{
  Net, request_client_ip, join_comma, split_comma, stops, trusted_proxy_address,
}
use vibemonitor.Limits.ClientIpLaws.{request_client_ip_forged}

abbrev one_call : Paced
one_call = ("report\0a", 5 * second) ∷ []

one_call-IsPaced : IsPaced one_call
unfolding lookup
one_call-IsPaced = record { bounded = omega arith; distinct = (refl, tt) }

b_not_a : pacing_key "report" "b" ≢ pacing_key "report" "a"
unfolding pacing_key
b_not_a e =
    let differ : str_eq "report\0b" "report\0a" ≡ false = refl in
    let same : str_eq "report\0b" "report\0a" ≡ true = ap (λ s. str_eq s "report\0a") e in cc

abbrev one_client : Login.Clients
one_client = ("10.0.0.1", record { count = 9; expires = 100 * second }) ∷ []

one_client-IsLimited : IsLimited one_client
unfolding lookup
one_client-IsLimited = record { bounded = omega arith; distinct = (refl, tt) }

accepted-eq-min_example :
    accepted "10.0.0.1"
      (attempt "10.0.0.1" 5 ∷ attempt "10.0.0.2" 6 ∷ attempt "10.0.0.1" 7 ∷ [])
      one_client
    ≡ min
        (attempts "10.0.0.1"
          (attempt "10.0.0.1" 5 ∷ attempt "10.0.0.2" 6 ∷ attempt "10.0.0.1" 7 ∷ []))
        (Login.max_attempts - 9)
unfolding lookup String_discrete
accepted-eq-min_example =
    accepted-eq-min "10.0.0.1"
      (attempt "10.0.0.1" 5 ∷ attempt "10.0.0.2" 6 ∷ attempt "10.0.0.1" 7 ∷ [])
      (record { count = 9; expires = 100 * second }) one_client (omega arith)
      (omega arith, (omega arith, (omega arith, tt)))
      (record { distinct = (refl, tt); held = refl; room = omega arith })

abbrev full_client : Login.Clients
full_client = ("10.0.0.1", record { count = 10; expires = 100 * second }) ∷ []

allow_expired_refused_example :
    Login.allow full_client "10.0.0.1" (200 * second)
    ≡ (delete String_discrete "10.0.0.1" full_client, false)
unfolding lookup String_discrete
allow_expired_refused_example =
    allow_expired_refused full_client "10.0.0.1" (record { count = 10; expires = 100 * second })
      (200 * second) (omega arith) refl (omega arith) (omega arith)

allow_expired_charged_example :
    lookup String_discrete "10.0.0.1" (Login.allow one_client "10.0.0.1" (200 * second)).0
    ≡ some (record { count = 9 + 1; expires = 200 * second + Login.login_period })
unfolding lookup String_discrete
allow_expired_charged_example =
    allow_expired_charged one_client "10.0.0.1" (record { count = 9; expires = 100 * second })
      (200 * second) (omega arith) refl (omega arith) (omega arith)

-- Addresses are their texts; the loopback is "::1", and nothing has a zone.
abbrev plain_net : Net
plain_net = record {
  Addr = String;
  Prefix = String;
  trim_space = λ s. s;
  split_host = λ s. some s;
  parse_addr = λ s. some s;
  parse_prefix = λ s. none;
  single = λ a. a;
  masked = λ p. p;
  contains = λ p a. str_eq p a;
  unmap = λ a. a;
  is_loopback = λ a. str_eq a "::1";
  zoned = λ a. false;
  to_string = λ a. a;
}

request_client_ip_forged_example :
    request_client_ip plain_net [] "::1" ("1.1.1.1" ∷ "2.2.2.2" ∷ [])
    ≡ request_client_ip plain_net [] "::1" ("2.2.2.2" ∷ [])
unfolding join_comma split_comma stops trusted_proxy_address
request_client_ip_forged_example =
    request_client_ip_forged plain_net [] "::1" "1.1.1.1" "2.2.2.2" [] refl (omega arith)
      (omega arith) (omega arith) refl
