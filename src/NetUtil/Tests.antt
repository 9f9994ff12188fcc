-- ===== src/NetUtil/Tests.antt =====
-- A request with a header that its client made up.
use llmgateway.Prelude.{◌≡◌, refl, true, false, [], ◌∷◌, none, some, str_eq, any}
use mathlib.Core.List.{reverse}
use llmgateway.Prelude.{String}
use llmgateway.NetUtil.{
  NetPackage, Extractor, Request, is_trusted_ip, remote_ip, split_commas, trim_space, clean_all,
  clean_entry, split_forwarded_for, first_untrusted, client_ip,
}
use llmgateway.NetUtil.Forwarded.{joined, client_ip-joined}

-- Every text is an address, and a network is one address.
abbrev toy : NetPackage
toy = record {
  Ip = String;
  IpNet = String;
  parse_ip = λ s. some s;
  show_ip = λ s. s;
  is_v4 = λ s. true;
  equal = str_eq;
  parse_cidr = λ s. some s;
  contains = str_eq;
  split_host_port = λ s. none;
}

abbrev proxies : Extractor toy
proxies = "10.0.0.1" ∷ []

abbrev a_request : Request
a_request = record {
  remote_addr = "10.0.0.1";
  forwarded_for = "203.0.113.7, 10.0.0.1" ∷ [];
  real_ip = "";
}

trusted_peer : is_trusted_ip toy proxies (remote_ip toy a_request.remote_addr) ≡ true
unfolding is_trusted_ip remote_ip any
trusted_peer = refl

found_entry :
    first_untrusted toy proxies (reverse (split_forwarded_for toy "203.0.113.7, 10.0.0.1"))
    ≡ some "203.0.113.7"
unfolding first_untrusted split_forwarded_for split_commas clean_all clean_entry trim_space
    is_trusted_ip any
found_entry = refl

client_ip-joined_example :
    (client_ip toy proxies (record a_request {
      forwarded_for = joined "1.1.1.1" "203.0.113.7, 10.0.0.1" ∷ "3.3.3.3" ∷ [];
      real_ip = "2.2.2.2";
    })
      ≡ "203.0.113.7")
    × (client_ip toy proxies
          (record a_request { forwarded_for = "1.1.1.1" ∷ "203.0.113.7, 10.0.0.1" ∷ [] })
        ≡ client_ip toy proxies (record a_request { forwarded_for = "1.1.1.1" ∷ [] }))
client_ip-joined_example =
    client_ip-joined toy proxies a_request "1.1.1.1" "203.0.113.7, 10.0.0.1" "2.2.2.2" "203.0.113.7"
      ("3.3.3.3" ∷ []) [] trusted_peer found_entry

abbrev stranger : Request
stranger = record {
  remote_addr = "198.51.100.9";
  forwarded_for = "1.1.1.1" ∷ [];
  real_ip = "2.2.2.2";
}

unknown_peer : is_trusted_ip toy proxies (remote_ip toy stranger.remote_addr) ≡ false
unfolding is_trusted_ip remote_ip any
unknown_peer = refl
