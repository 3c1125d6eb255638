-- ===== src/Limits/ClientIp.antt =====
-- `requestClientIP`, `trustedProxyAddress` and `parseTrustedProxies` of internal/server/security.go.
-- Addresses and prefixes are those of net/netip, whose parsers and tests are the fields of `Net`,
-- with no law assumed of them.
use Prim.Native.Char.{Char, code}
use Prim.Native.String.{len, ◌++◌ as str_append}
use mathlib.Core.List.{reverse}
use text.Mathlib.Text.{◌==◌ as str_eq}
use vibemonitor.Prelude.{
  Bool, true, false, not, ◌||◌, List, [], ◌∷◌, String, Option, none, some, if◌then◌else◌, ◌==◌, ltb,
  length, any, value_or,
}

pub record Net : Type 1 where
  pub Addr : Type 0
  pub Prefix : Type 0
  pub trim_space : String → String  -- strings.TrimSpace
  pub split_host : String → Option String  -- the host of net.SplitHostPort
  pub parse_addr : String → Option Addr
  pub parse_prefix : String → Option Prefix
  pub single : Addr → Prefix  -- netip.PrefixFrom(addr, addr.BitLen())
  pub masked : Prefix → Prefix
  pub contains : Prefix → Addr → Bool
  pub unmap : Addr → Addr
  pub is_loopback : Addr → Bool
  pub zoned : Addr → Bool  -- ip.Zone() != ""
  pub to_string : Addr → String

-- strings.Split(s, ",")
unfoldable pub split_char : Bool → Char → List String → List String
split_char true c pieces = "" ∷ pieces
split_char false c [] = String.◌∷◌ c "" ∷ []
split_char false c (p ∷ pieces) = String.◌∷◌ c p ∷ pieces

unfoldable pub split_comma : String → List String
unfolding split_char
split_comma String.[] = "" ∷ []
split_comma (String.◌∷◌ c s) = split_char (code c == b',') c (split_comma s)

-- strings.Join(values, ",")
unfoldable pub join_comma : List String → String
join_comma [] = ""
join_comma (v ∷ []) = v
join_comma (v ∷ w ∷ values) = str_append v (String.◌∷◌ "," (join_comma (w ∷ values)))

module _ (net : Net) where
  open net use {
    Addr, Prefix, trim_space, split_host, parse_addr, parse_prefix, single, masked, contains, unmap,
    is_loopback, zoned, to_string,
  }

  -- One entry of the list; `none` is the error for an entry that is neither.
  unfoldable pub parse_entry : String → Option Prefix
  parse_entry entry = elim (parse_prefix (trim_space entry)) [
    | some p ↦ some (masked p)
    | none ↦ elim (parse_addr (trim_space entry)) [
      | some a ↦ some (masked (single a))
      | none ↦ none
    ]
  ]

  unfoldable pub parse_entries : List String → Option (List Prefix)
  parse_entries [] = some []
  parse_entries (entry ∷ entries) =
      let rest = parse_entries entries in
      elim (parse_entry entry) [
        | none ↦ none
        | some p ↦ elim rest [ none ↦ none | some ps ↦ some (p ∷ ps) ]
      ]

  unfoldable pub parse_trusted_proxies : String → Option (List Prefix)
  unfolding parse_entry parse_entries
  parse_trusted_proxies value =
      if str_eq (trim_space value) "" then some [] else parse_entries (split_comma value)

  unfoldable pub trusted_proxy_address : List Prefix → Addr → Bool
  trusted_proxy_address proxies ip =
      is_loopback (unmap ip) || any (λ p. contains p (unmap ip)) proxies

  -- The loop over the hops, which are given last hop first.
  unfoldable pub walk : List Prefix → String → Addr → List String → String
  walk proxies key client [] = to_string client
  walk proxies key client (hop ∷ hops) = elim (parse_addr (trim_space hop)) [
    | none ↦ key
    | some ip ↦
        let onward = walk proxies key (unmap ip) hops in
        if zoned ip
        then key
        else if not (trusted_proxy_address proxies (unmap ip))
        then to_string (unmap ip)
        else onward
  ]

  -- A trusted peer, from the test of the joined header on.
  unfoldable pub forwarded_client : List Prefix → Addr → String → String
  forwarded_client proxies peer forwarded =
      if str_eq forwarded "" || ltb 4096 (len forwarded)
      then to_string peer
      else if ltb 32 (length (split_comma forwarded))
      then to_string peer
      else walk proxies (to_string peer) peer (reverse (split_comma forwarded))

  unfoldable pub peer_client : List Prefix → Addr → String → String
  peer_client proxies peer forwarded =
      if not (trusted_proxy_address proxies peer)
      then to_string peer
      else forwarded_client proxies peer forwarded

  -- A host that is no address is itself the key.
  unfoldable pub host_client : List Prefix → String → Option Addr → String → String
  host_client proxies host none forwarded = host
  host_client proxies host (some a) forwarded = peer_client proxies (unmap a) forwarded

  -- `values` are the X-Forwarded-For header lines.
  unfoldable pub request_client_ip : List Prefix → String → List String → String
  unfolding host_client
  request_client_ip proxies remote_addr values =
      let host = value_or remote_addr (split_host remote_addr) in
      host_client proxies host (parse_addr host) (join_comma values)

  -- The loop ends at this hop: it is no address, has a zone, or is not a trusted proxy.
  unfoldable pub stops : List Prefix → String → Bool
  stops proxies hop = elim (parse_addr (trim_space hop)) [
    | none ↦ true
    | some ip ↦ zoned ip || not (trusted_proxy_address proxies (unmap ip))
  ]
