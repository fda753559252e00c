-- ===== src/Tests/Clients.antt =====
-- The key of a client behind a proxy.
use text.Mathlib.Text.{◌==◌ as str_eq}
use pg_aggregator_back.Common.{
  ℕ, String, Bool, Option, none, some, List, [], ◌∷◌, ◌≡◌, refl, ◌==◌, if◌then◌else◌,
}
use pg_aggregator_back.RateLimit.{Network, Request, is_trusted_proxy, entries_of, client_ip}
use pg_aggregator_back.RateLimit.Forged.{client_ip-forged}

abbrev parse : String → Option ℕ
parse s = if str_eq s "10.0.0.1" then some 1 else if str_eq s "203.0.113.9" then some 9 else none

abbrev lan : Network ℕ
lan = record {
  split_host_port = λ s. none;
  parse_addr = parse;
  unmap = λ a. a;
  show_addr = λ a. if a == 9 then "203.0.113.9" else "10.0.0.1";
  trim_space = λ s. s;
  split_commas = λ v. v ∷ [];
}

abbrev proxies : List (ℕ → Bool)
proxies = (λ a. a == 1) ∷ []

abbrev honest : Request
honest = record { remote_addr = "10.0.0.1"; forwarded_for = "203.0.113.9" ∷ "10.0.0.1" ∷ [] }

abbrev forging : Request
forging = record honest { forwarded_for = "8.8.8.8" ∷ honest.forwarded_for }

client_ip-forged_example : client_ip lan proxies forging ≡ client_ip lan proxies honest
unfolding entries_of is_trusted_proxy
client_ip-forged_example =
    client_ip-forged lan proxies honest forging ("8.8.8.8" ∷ []) refl refl refl
