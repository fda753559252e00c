-- ===== src/RateLimit.antt =====
-- The token buckets for each client (internal/middleware/rate_limit.go). Addresses, their text and
-- `float64` are parameters: net, net/netip and the processor's arithmetic. The lock makes each
-- function one step.
pub mod Forged
use text.Mathlib.Text.{◌==◌ as str_eq}
use pg_aggregator_back.Common.{
  ℕ, String, Bool, true, false, not, ◌+◌, ◌-◌, ◌||◌, Option, none, some, List, [], ◌∷◌, ◌++◌, ltb,
  if◌then◌else◌,
}

-- The operations on `float64` that are used; `seconds` is time.Duration.Seconds.
pub record Double (D : Type 0) : Type 0 where
  pub one : D
  pub add : D → D → D
  pub subtract : D → D → D
  pub multiply : D → D → D
  pub less : D → D → Bool
  pub seconds : ℕ → D

-- What net, net/netip and strings do: SplitHostPort, ParseAddr, Unmap, String, TrimSpace and Split
-- at commas.
pub record Network (Addr : Type 0) : Type 0 where
  pub split_host_port : String → Option String
  pub parse_addr : String → Option Addr
  pub unmap : Addr → Addr
  pub show_addr : Addr → String
  pub trim_space : String → String
  pub split_commas : String → List String

pub record TokenBucket (D : Type 0) : Type 0 where
  pub tokens : D
  pub last_refill : ℕ

-- The limiter: the buckets with their keys, the burst and the tokens per second.
pub record IpRateLimiter (D : Type 0) : Type 0 where
  pub buckets : List (String × TokenBucket D)
  pub max_tokens : D
  pub refill_rate : D

module _ {D : Type 0} (f : Double D) where
  abbrev pub find_bucket : String → List (String × TokenBucket D) → Option (TokenBucket D)
  find_bucket ip [] = none
  find_bucket ip ((k, b) ∷ bs) = if str_eq k ip then some b else find_bucket ip bs

  abbrev pub set_bucket :
      String → TokenBucket D → List (String × TokenBucket D) → List (String × TokenBucket D)
  set_bucket ip b [] = (ip, b) ∷ []
  set_bucket ip b ((k, x) ∷ bs) = if str_eq k ip then (k, b) ∷ bs else (k, x) ∷ set_bucket ip b bs

  abbrev pub at_most : D → D → D
  at_most top x = if f.less top x then top else x

  -- A clock that went back, or did not move, refills nothing.
  abbrev pub refill : IpRateLimiter D → ℕ → TokenBucket D → TokenBucket D
  refill l now b =
      if ltb b.last_refill now
      then record {
        tokens =
            at_most l.max_tokens
              (f.add b.tokens (f.multiply (f.seconds (now - b.last_refill)) l.refill_rate));
        last_refill = now;
      }
      else b

  abbrev pub bucket_or_new : IpRateLimiter D → ℕ → Option (TokenBucket D) → TokenBucket D
  bucket_or_new l now none = record { tokens = l.max_tokens; last_refill = now }
  bucket_or_new l now (some b) = b

  abbrev pub spend : IpRateLimiter D → String → TokenBucket D → Bool × IpRateLimiter D
  spend l ip b =
      if f.less b.tokens f.one then (false, record l { buckets = set_bucket ip b l.buckets }) else (
        true,
        record l {
          buckets = set_bucket ip (record b { tokens = f.subtract b.tokens f.one }) l.buckets;
        },
      )

  -- `allow`
  unfoldable pub allow : IpRateLimiter D → ℕ → String → Bool × IpRateLimiter D
  allow l now ip = spend l ip (refill l now (bucket_or_new l now (find_bucket ip l.buckets)))

  abbrev pub kept_buckets : ℕ → ℕ → List (String × TokenBucket D) → List (String × TokenBucket D)
  kept_buckets now idle_after [] = []
  kept_buckets now idle_after ((k, b) ∷ bs) =
      if ltb (b.last_refill + idle_after) now
      then kept_buckets now idle_after bs
      else (k, b) ∷ kept_buckets now idle_after bs

  -- `Cleanup`
  unfoldable pub cleanup : IpRateLimiter D → ℕ → ℕ → IpRateLimiter D
  cleanup l now idle_after = record l { buckets = kept_buckets now idle_after l.buckets }

-- What is read of a request: the TCP peer and the values of X-Forwarded-For.
pub record Request : Type 0 where
  pub remote_addr : String
  pub forwarded_for : List String

-- The trusted proxies, each as its `Contains`.
module _ {Addr : Type 0} (net : Network Addr) (trusted_proxies : List (Addr → Bool)) where
  abbrev pub any_contains : List (Addr → Bool) → Addr → Bool
  any_contains [] a = false
  any_contains (p ∷ ps) a = if p a then true else any_contains ps a

  -- `isTrustedProxy`
  unfoldable pub is_trusted_proxy : Addr → Bool
  is_trusted_proxy a = any_contains trusted_proxies (net.unmap a)

  abbrev pub host_of : String → Option String → String
  host_of remote none = remote
  host_of remote (some host) = host

  -- One entry: it decides, unless it is a trusted proxy.
  abbrev pub judged : String → Option Addr → Option String
  judged host none = some host
  judged host (some a) =
      if not (is_trusted_proxy (net.unmap a)) then some (net.show_addr (net.unmap a)) else none

  abbrev pub or_else : Option String → Option String → Option String
  or_else none later = later
  or_else (some s) later = some s

  -- The walk from right to left.
  unfoldable pub walk : String → List String → Option String
  unfolding is_trusted_proxy
  walk host [] = none
  walk host (e ∷ es) = or_else (walk host es) (judged host (net.parse_addr (net.trim_space e)))

  unfoldable pub entries_of : List String → List String
  entries_of [] = []
  entries_of (v ∷ vs) = net.split_commas v ++ entries_of vs

  abbrev pub key_or : String → Option String → String
  key_or host none = host
  key_or host (some k) = k

  abbrev pub key_of : String → Option Addr → List String → String
  key_of host none es = host
  key_of host (some peer) es =
      if not (is_trusted_proxy peer) then host else key_or host (walk host es)

  -- `clientIP`
  unfoldable pub client_ip : Request → String
  unfolding walk entries_of is_trusted_proxy
  client_ip r =
      let host = host_of r.remote_addr (net.split_host_port r.remote_addr) in
      key_of host (net.parse_addr host) (entries_of r.forwarded_for)
