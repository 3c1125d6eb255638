-- ===== src/Limits/ClientIpLaws.antt =====
-- `requestClientIP` of internal/server/security.go does not believe what stands before an untrusted hop.
use Prim.Native.Char.{Char, code}
use Prim.Native.String.{len, ◌++◌ as str_append}
use mathlib.Core.List.{reverse, reverse-append}
use text.Mathlib.Text.{◌==◌ as str_eq}
use text.Mathlib.TextEquality.{eq_iff}
use text.Mathlib.TextLemmas.{nil-append, cons-append}
use vibemonitor.Prelude.{
  ◌≡◌, ◌≢◌, refl, ap, ◌∙◌, Bool, true, false, List, [], ◌∷◌, ◌++◌, String, Option, none, some, ◌==◌,
  length, any, arith, ◌≤◌, ◌<◌, length-append, ◌+◌, Bool-cases, inl, inr, Option-cases, value_or,
}
use vibemonitor.Limits.ClientIp.{
  Net, split_char, split_comma, join_comma, walk, forwarded_client, peer_client, host_client,
  request_client_ip, stops,
}

module _ (net : Net) where
  open net use {Addr, Prefix, trim_space, parse_addr, unmap, split_host, to_string}

  walk-append :
      (proxies : List Prefix) (key : String) (client : Addr) (near far : List String)
      → any (stops net proxies) near ≡ true
      → walk net proxies key client (near ++ far) ≡ walk net proxies key client near
  unfolding walk stops
  walk-append proxies key client [] far h = cc
  walk-append proxies key client (hop ∷ near) far h =
      elim (Option-cases (parse_addr (trim_space hop))) [
        | inl bad ↦ rw (bad, walk) refl
        | inr (ip, good) ↦ ground (arith, walk-append proxies key (unmap ip) near far)
      ]

split_char-cons :
    (b : Bool) (c : Char) (pieces : List String)
    → (p : String) × (ps : List String) × (split_char b c pieces ≡ p ∷ ps)
unfolding split_char
split_char-cons true c pieces = ("", pieces, refl)
split_char-cons false c [] = (String.◌∷◌ c "", [], refl)
split_char-cons false c (p ∷ pieces) = (String.◌∷◌ c p, pieces, refl)

split_comma-cons : (s : String) → (p : String) × (ps : List String) × (split_comma s ≡ p ∷ ps)
unfolding split_comma
split_comma-cons String.[] = ("", [], refl)
split_comma-cons (String.◌∷◌ c s) = split_char-cons (code c == b',') c (split_comma s)

split_char-append :
    (b : Bool) (c : Char) (pieces rest : List String)
    → pieces ≢ []
    → split_char b c (pieces ++ rest) ≡ split_char b c pieces ++ rest
unfolding split_char
split_char-append true c pieces rest h = refl
split_char-append false c [] rest h = absurd (h refl)
split_char-append false c (p ∷ pieces) rest h = refl

split_comma-ne-nil : (s : String) → split_comma s ≢ []
split_comma-ne-nil s e = let (p, ps, found) = split_comma-cons s in cc

split-append :
    (s t : String) → split_comma (str_append s (String.◌∷◌ "," t)) ≡ split_comma s ++ split_comma t
unfolding split_comma
split-append String.[] t = rw nil-append refl
split-append (String.◌∷◌ c s) t =
    rw (cons-append, split-append s t)
      (split_char-append _ c (split_comma s) (split_comma t) (split_comma-ne-nil s))

length-split_pos : (s : String) → 0 < length (split_comma s)
length-split_pos s = let (p, ps, e) = split_comma-cons s in omega (arith, ap length e)

length-split_joined :
    (s t : String)
    → length (split_comma (str_append s (String.◌∷◌ "," t)))
      ≡ length (split_comma s) + length (split_comma t)
length-split_joined s t =
    ap length (split-append s t) ∙ length-append (split_comma s) (split_comma t)

-- A header with a comma in it is not empty.
joined_ne : (s t : String) → str_eq (str_append s (String.◌∷◌ "," t)) "" ≡ false
unfolding split_comma
joined_ne s t = elim (Bool-cases (str_eq (str_append s (String.◌∷◌ "," t)) "")) [
  | inr different ↦ different
  | inl same ↦
      let one : length (split_comma (str_append s (String.◌∷◌ "," t))) ≡ 1 =
        ap (λ x. length (split_comma x)) ((eq_iff _ "").0 same) in
      absurd (omega (arith, one, length-split_joined s t, length-split_pos s, length-split_pos t))
]

module _ (net : Net) where
  open net use {Addr, Prefix, parse_addr, unmap, split_host, to_string}

  walk_forged :
      (proxies : List Prefix) (key : String) (peer : Addr) (forged forwarded : String)
      → any (stops net proxies) (reverse (split_comma forwarded)) ≡ true
      → walk net proxies key peer
          (reverse (split_comma (str_append forged (String.◌∷◌ "," forwarded))))
        ≡ walk net proxies key peer (reverse (split_comma forwarded))
  walk_forged proxies key peer forged forwarded stop =
      rw
        (split-append forged forwarded, reverse-append (split_comma forged) (split_comma forwarded))
        (walk-append net proxies key peer _ (reverse (split_comma forged)) stop)

  forwarded_client_forged :
      (proxies : List Prefix) (peer : Addr) (forged forwarded : String)
      → str_eq forwarded "" ≡ false
      → len forwarded ≤ 4096
      → len (str_append forged (String.◌∷◌ "," forwarded)) ≤ 4096
      → length (split_comma forged) + length (split_comma forwarded) ≤ 32
      → any (stops net proxies) (reverse (split_comma forwarded)) ≡ true
      → forwarded_client net proxies peer (str_append forged (String.◌∷◌ "," forwarded))
        ≡ forwarded_client net proxies peer forwarded
  unfolding forwarded_client
  forwarded_client_forged proxies peer forged forwarded ne short long few stop = ground (
    arith,
    joined_ne forged forwarded,
    length-split_joined forged forwarded,
    walk_forged proxies (to_string peer) peer forged forwarded stop,
  )

  host_client_forged :
      (proxies : List Prefix) (host : String) (peer : Option Addr) (forged forwarded : String)
      → str_eq forwarded "" ≡ false
      → len forwarded ≤ 4096
      → len (str_append forged (String.◌∷◌ "," forwarded)) ≤ 4096
      → length (split_comma forged) + length (split_comma forwarded) ≤ 32
      → any (stops net proxies) (reverse (split_comma forwarded)) ≡ true
      → host_client net proxies host peer (str_append forged (String.◌∷◌ "," forwarded))
        ≡ host_client net proxies host peer forwarded
  unfolding host_client peer_client
  host_client_forged proxies host none forged forwarded ne short long few stop = refl
  host_client_forged proxies host (some a) forged forwarded ne short long few stop =
      ground
        (arith, forwarded_client_forged proxies (unmap a) forged forwarded ne short long few stop)

  -- A header line that a client puts before those of the proxies does not change its address, if
  -- the lines after it hold a hop at which the walk ends (no address, a zone, or no trusted proxy)
  -- and the whole chain stays within 4096 bytes and 32 hops.
  pub request_client_ip_forged :
      (proxies : List Prefix) (remote_addr forged value : String) (values : List String)
      → str_eq (join_comma (value ∷ values)) "" ≡ false
      → len (join_comma (value ∷ values)) ≤ 4096
      → len (join_comma (forged ∷ value ∷ values)) ≤ 4096
      → length (split_comma forged) + length (split_comma (join_comma (value ∷ values))) ≤ 32
      → any (stops net proxies) (reverse (split_comma (join_comma (value ∷ values)))) ≡ true
      → request_client_ip net proxies remote_addr (forged ∷ value ∷ values)
        ≡ request_client_ip net proxies remote_addr (value ∷ values)
  unfolding request_client_ip join_comma
  request_client_ip_forged proxies remote_addr forged value values ne short long few stop =
      let host = value_or remote_addr (split_host remote_addr) in
      host_client_forged proxies host (parse_addr host) forged (join_comma (value ∷ values)) ne
        short long few stop
