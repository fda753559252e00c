-- ===== src/RateLimit/Forged.antt =====
-- Entries that a client puts to the left of its own address do not change its key.
use pg_aggregator_back.Common.{
  String, Bool, true, false, Option, none, some, List, [], ◌∷◌, ◌++◌, ◌≡◌, refl, is_some,
  Option-cases, Bool-cases, inl, inr, if◌then◌else◌,
}
use pg_aggregator_back.RateLimit.{
  Network, Request, is_trusted_proxy, host_of, judged, walk, entries_of, key_of, client_ip,
}

module _ {Addr : Type 0} (net : Network Addr) (trusted_proxies : List (Addr → Bool)) where
  -- What the entries to the right have decided stands.
  walk-append :
      (host k : String) (forged es : List String)
      → walk net trusted_proxies host es ≡ some k
      → walk net trusted_proxies host (forged ++ es) ≡ some k
  unfolding walk
  walk-append host k [] es h = h
  walk-append host k (f ∷ forged) es h = rw (walk-append host k forged es h) refl

  -- An entry that is no address, or the address of no trusted proxy, decides the walk.
  abbrev pub decides : String → Bool
  decides e = is_some (judged net trusted_proxies "" (net.parse_addr (net.trim_space e)))

  abbrev pub any_decides : List String → Bool
  any_decides [] = false
  any_decides (e ∷ es) = if decides e then true else any_decides es

  judged-decides :
      (host : String) (a : Option Addr)
      → is_some (judged net trusted_proxies "" a) ≡ true
      → (k : String) × (judged net trusted_proxies host a ≡ some k)
  judged-decides host none h = (host, refl)
  judged-decides host (some a) h =
      elim (Bool-cases (is_trusted_proxy net trusted_proxies (net.unmap a))) [
        | inl t ↦ absurd (cc (rw t at h))
        | inr f ↦ (net.show_addr (net.unmap a), rw (f) refl)
      ]

  walk-decides :
      (host : String) (es : List String)
      → any_decides es ≡ true
      → (k : String) × (walk net trusted_proxies host es ≡ some k)
  unfolding walk
  walk-decides host [] h = cc
  walk-decides host (e ∷ es) h = elim (Option-cases (walk net trusted_proxies host es)) [
    | inr (k, found) ↦ (k, rw (found) refl)
    | inl not_yet ↦ elim (Bool-cases (decides e)) [
      | inl here ↦
          let (k, j) = judged-decides host (net.parse_addr (net.trim_space e)) here in
          (k, rw (not_yet) j)
      | inr other ↦
          let (k, found) = walk-decides host es (rw other at h) in absurd (cc (found, not_yet))
    ]
  ]

  key-append :
      (host : String) (o : Option Addr) (forged es : List String)
      → any_decides es ≡ true
      → key_of net trusted_proxies host o (forged ++ es) ≡ key_of net trusted_proxies host o es
  key-append host none forged es h = refl
  key-append host (some peer) forged es h =
      let (k, found) = walk-decides host es h in rw (walk-append host k forged es found, found) refl

  -- Two requests from one peer, where the entries of the second are those of the first with any
  -- others before them: if some entry of the first is no address, or an address that is no trusted
  -- proxy, both have the same key. So a client cannot choose its key by the entries that it sends
  -- itself, since the trusted proxies add its address behind them.
  pub client_ip-forged :
      (r r' : Request) (forged : List String)
      → r'.remote_addr ≡ r.remote_addr
      → entries_of net trusted_proxies r'.forwarded_for
        ≡ forged ++ entries_of net trusted_proxies r.forwarded_for
      → any_decides (entries_of net trusted_proxies r.forwarded_for) ≡ true
      → client_ip net trusted_proxies r' ≡ client_ip net trusted_proxies r
  unfolding client_ip
  client_ip-forged r r' forged same more h =
      let host = host_of net trusted_proxies r.remote_addr (net.split_host_port r.remote_addr) in
      rw (same, more)
        (key-append host (net.parse_addr host) forged
          (entries_of net trusted_proxies r.forwarded_for) h)
