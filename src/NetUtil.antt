-- ===== src/NetUtil.antt =====
-- internal/netutil/clientip.go: which address a request came from, and the address lists of API keys.
-- Package net, which parses and prints addresses, networks and ports, is an interface, `NetPackage`;
-- its `split_host_port` gives the host alone.
pub mod Forwarded
mod Tests
use Prim.Native.Char.{code}
use llmgateway.Prelude.{
  ℕ, ◌==◌, Bool, true, false, not, ◌&&◌, ◌||◌, List, [], ◌∷◌, Option, none, some, String, str_eq,
  str_append, any, leb, if◌then◌else◌,
}
use mathlib.Core.List.{reverse}

-- `unicode.IsSpace`
unfoldable pub is_space : ℕ → Bool
is_space c =
    (leb 9 c && leb c 13)
    || (c == 0x20
        || (c == 0x85
            || (c == 0xa0
                || (c == 0x1680
                    || ((leb 0x2000 c && leb c 0x200a)
                        || (c == 0x2028
                            || (c == 0x2029 || (c == 0x202f || (c == 0x205f || c == 0x3000)))))))))

-- `strings.TrimSpace(s)`: from the left, and from the right.
unfoldable pub trim_left : String → String
unfolding is_space
trim_left String.[] = ""
trim_left (String.◌∷◌ c s) =
    let rest = trim_left s in if is_space (code c) then rest else String.◌∷◌ c s

unfoldable pub trim_end : String → String
unfolding is_space
trim_end String.[] = ""
trim_end (String.◌∷◌ c s) =
    let rest = trim_end s in if is_space (code c) && str_eq rest "" then "" else String.◌∷◌ c rest

unfoldable pub trim_space : String → String
unfolding trim_left trim_end
trim_space s = trim_end (trim_left s)

-- `strings.Split(s, ",")`: the first part and the others.
unfoldable pub split_commas : String → String × List String
split_commas String.[] = ("", [])
split_commas (String.◌∷◌ c s) =
    let (first, rest) = split_commas s in
    if code c == b',' then ("", first ∷ rest) else (String.◌∷◌ c first, rest)

-- `strings.Contains(s, "/")`
unfoldable pub has_slash : String → Bool
has_slash String.[] = false
has_slash (String.◌∷◌ c s) = code c == b'/' || has_slash s

-- The headers that `ClientIP` reads. X-Forwarded-For may stand in several lines, first line first; of
-- X-Real-IP this is the first line.
pub record Request : Type 0 where
  pub remote_addr : String
  pub forwarded_for : List String
  pub real_ip : String

-- `r.Header.Get`: the first line of a header, or the empty text.
unfoldable pub first_line : List String → String
first_line [] = ""
first_line (line ∷ lines) = line

-- Package net.
pub record NetPackage : Type 1 where
  pub Ip : Type 0
  pub IpNet : Type 0
  pub parse_ip : String → Option Ip
  pub show_ip : Ip → String
  pub is_v4 : Ip → Bool
  pub equal : Ip → Ip → Bool
  pub parse_cidr : String → Option IpNet
  pub contains : IpNet → Ip → Bool
  pub split_host_port : String → Option String

module _ (N : NetPackage) where
  -- `Extractor.trusted`; an extractor that is nil has none.
  abbrev pub Extractor : Type 0
  Extractor = List N.IpNet

  -- The body of the loop of `NewExtractor`.
  unfoldable pub network_of : String → Option N.IpNet
  unfolding trim_space has_slash
  network_of entry =
      let t = trim_space entry in
      if str_eq t "" then none else if has_slash t then N.parse_cidr t else elim (N.parse_ip t) [
        | none ↦ none
        | some ip ↦ N.parse_cidr (str_append t (if N.is_v4 ip then "/32" else "/128"))
      ]

  -- `NewExtractor(trusted)`
  unfoldable pub new_extractor : List String → Extractor
  unfolding network_of
  new_extractor [] = []
  new_extractor (t ∷ ts) =
      let rest = new_extractor ts in elim (network_of t) [ none ↦ rest | some n ↦ n ∷ rest ]

  -- `isTrustedIP(ipStr)`
  unfoldable pub is_trusted_ip : Extractor → String → Bool
  is_trusted_ip e ip_str =
      if str_eq ip_str ""
      then false
      else elim (N.parse_ip ip_str) [ none ↦ false | some ip ↦ any (λ n. N.contains n ip) e ]

  -- The body of the loop of `splitForwardedFor`.
  unfoldable pub clean_entry : String → List String → List String
  unfolding trim_space
  clean_entry p rest =
      let s = trim_space p in
      if str_eq s ""
      then rest
      else elim (N.parse_ip (elim (N.split_host_port s) [ none ↦ s | some host ↦ host ])) [
        | none ↦ rest
        | some ip ↦ N.show_ip ip ∷ rest
      ]

  unfoldable pub clean_all : List String → List String
  unfolding clean_entry
  clean_all [] = []
  clean_all (p ∷ ps) = clean_entry p (clean_all ps)

  unfoldable pub split_forwarded_for : String → List String
  unfolding split_commas clean_all
  split_forwarded_for header =
      if str_eq header ""
      then []
      else let (first, rest) = split_commas header in clean_all (first ∷ rest)

  -- `remoteIP(remoteAddr)`
  unfoldable pub remote_ip : String → String
  remote_ip addr = if str_eq addr "" then "" else elim (N.split_host_port addr) [
    | some host ↦ elim (N.parse_ip host) [ some ip ↦ N.show_ip ip | none ↦ host ]
    | none ↦ elim (N.parse_ip addr) [ some ip ↦ N.show_ip ip | none ↦ addr ]
  ]

  -- The loop of `ClientIP`, over the entries from right to left: the first that is not trusted.
  unfoldable pub first_untrusted : Extractor → List String → Option String
  unfolding is_trusted_ip
  first_untrusted e [] = none
  first_untrusted e (ip ∷ ips) =
      let rest = first_untrusted e ips in
      if str_eq ip "" then rest else if is_trusted_ip e ip then rest else some ip

  -- What `ClientIP` does behind the loop.
  unfoldable pub real_or_peer : Extractor → String → String → String
  unfolding trim_space is_trusted_ip
  real_or_peer e real_ip peer =
      let real = trim_space real_ip in
      if str_eq real "" then peer else elim (N.parse_ip real) [
        | none ↦ peer
        | some ip ↦ if is_trusted_ip e (N.show_ip ip) then peer else N.show_ip ip
      ]

  -- `ClientIP(r)`
  unfoldable pub client_ip : Extractor → Request → String
  unfolding remote_ip is_trusted_ip split_forwarded_for first_line first_untrusted real_or_peer
  client_ip e r =
      let peer = remote_ip r.remote_addr in
      if not (is_trusted_ip e peer)
      then peer
      else elim (first_untrusted e (reverse (split_forwarded_for (first_line r.forwarded_for)))) [
        | some ip ↦ ip
        | none ↦ real_or_peer e r.real_ip peer
      ]

  -- One entry of the list of `MatchAny`.
  unfoldable pub entry_matches : N.Ip → String → Bool
  unfolding trim_space has_slash
  entry_matches ip entry =
      let raw = trim_space entry in
      if str_eq raw ""
      then false
      else if not (has_slash raw)
      then elim (N.parse_ip raw) [ none ↦ false | some other ↦ N.equal other ip ]
      else elim (N.parse_cidr raw) [ none ↦ false | some n ↦ N.contains n ip ]

  -- `MatchAny(ipStr, list)`
  unfoldable pub match_any : String → List String → Bool
  unfolding entry_matches
  match_any ip_str list =
      if str_eq ip_str ""
      then false
      else elim (N.parse_ip ip_str) [ none ↦ false | some ip ↦ any (entry_matches ip) list ]
