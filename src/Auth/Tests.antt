-- ===== src/Auth/Tests.antt =====
-- A request with a key that may be used from one address.
use llmgateway.Prelude.{◌≡◌, ◌↔◌, refl, true, [], ◌∷◌, none, some, String, str_eq, str_append}
use llmgateway.NetUtil.{NetPackage}
use llmgateway.Store.Catalog.{Store}
use llmgateway.Store.Samples.{a_key}
use llmgateway.Auth.{Incoming, authenticated, middleware}
use llmgateway.Auth.Authentic.{Authentic, middleware-Authentic}

-- Every text is an address, and a network is one address.
abbrev toy : NetPackage
toy = record {
  Ip = String;
  IpNet = String;
  parse_ip = λ s. some s;
  show_ip = λ s. s;
  is_v4 = λ s. true;
  equal = str_eq;
  parse_cidr = λ s. some s;
  contains = str_eq;
  split_host_port = λ s. none;
}

abbrev a_store : Store
a_store = record {
  backends = [];
  models = [];
  model_aliases = [];
  api_keys = ("k1", 0) ∷ [];
  key_by_hash = ("h:sk-1", 0) ∷ [];
  heap = λ p. record a_key { allowed_client_ips = "10.1.1.1" ∷ []; expires_at = 500 };
}

abbrev a_call : Incoming
a_call = record {
  key_header = "Bearer sk-1";
  addresses = record { remote_addr = "10.1.1.1"; forwarded_for = []; real_ip = "" };
  needs_key = true;
}

middleware-Authentic_example :
    (middleware toy (str_append "h:") 400 (some []) "Bearer " a_call a_store ≡ authenticated 0)
    ↔ Authentic toy (str_append "h:") 400 (some []) "Bearer " a_call a_store 0
middleware-Authentic_example =
    middleware-Authentic toy (str_append "h:") 400 (some []) "Bearer " a_call a_store 0 refl
