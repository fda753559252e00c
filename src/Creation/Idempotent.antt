-- ===== src/Creation/Idempotent.antt =====
-- internal/service/payment_idempotency.go: a creation under an Idempotency-Key.
use text.Mathlib.Text.{◌==◌ as str_eq}
use pg_aggregator_back.Common.{
  ℕ, zero, suc, String, Bool, true, false, not, ◌-◌, Option, none, some, List, [], ◌∷◌,
  if◌then◌else◌,
}
use pg_aggregator_back.Errors.{
  Error, Result, ok, err, invalid_key, key_reused, claim_in_progress, payment_not_found,
}
use pg_aggregator_back.Payment.{Payment}
use pg_aggregator_back.Payment.Request.{Strings, CreatePaymentRequest, ValidRequest, validate}
use pg_aggregator_back.Idempotency.{Record, Scope, Attempt, validate_key, ttl}
use pg_aggregator_back.Store.Action.{Sql, pure, raise, ◌>>=◌, ◌>>◌, caught}
use pg_aggregator_back.Repository.Payments.{get_by_id}
use pg_aggregator_back.Repository.Keys.{claim_key, complete_key, release_key, purge_keys}
use pg_aggregator_back.Creation.{Service, Draws, lift, create_payment}

abbrev pub max_claim_attempts : ℕ
max_claim_attempts = 3

pub record IdempotentPayment : Type 0 where
  pub payment : Payment
  pub replayed : Bool

-- What surrounds a call: the parameters of CreatePayment, RequestHash, and for each round of the
-- loop the id that Claim draws, the clock, and what other clients do while Claim runs.
pub record Surroundings : Type 0 where
  pub go : Strings
  pub validate_url : String → Bool → Option Error
  pub service : Service
  pub draws : Draws
  pub request_hash : CreatePaymentRequest → String
  pub claim_id : ℕ → ℕ
  pub clock : ℕ → ℕ
  pub meanwhile : ℕ → List Record → List Record

abbrev pub new_one : Payment → IdempotentPayment
new_one p = record { payment = p; replayed = false }

-- The claim is settled by the outcome; a failure of that is only logged.
abbrev pub settle_claim : ℕ → Result Payment → Sql IdempotentPayment
settle_claim claim_id (err e) = caught (release_key claim_id) >> raise e
settle_claim claim_id (ok p) = caught (complete_key claim_id p.id) >> pure (new_one p)

abbrev pub created_by : Surroundings → CreatePaymentRequest → Sql Payment
created_by w req = create_payment w.go w.validate_url w.service w.draws req

-- `createClaimed`
unfoldable pub create_claimed : Surroundings → ℕ → CreatePaymentRequest → Sql IdempotentPayment
create_claimed w claim_id req = caught (created_by w req) >>= settle_claim claim_id

abbrev pub scope_of : ValidRequest → List ℕ → Scope
scope_of v key = record {
  merchant_id = v.request.merchant_id;
  environment = v.request.environment_text;
  key = key;
}

abbrev pub attempt_of : Surroundings → ValidRequest → List ℕ → ℕ → Attempt
attempt_of w v key i = record {
  scope = scope_of v key;
  id = w.claim_id i;
  request_hash = w.request_hash v.request;
  now = w.clock i;
}

abbrev pub in_progress_if_gone : Error → Error
in_progress_if_gone payment_not_found = claim_in_progress
in_progress_if_gone e = e

abbrev pub replay_found : Result Payment → Sql IdempotentPayment
replay_found (ok p) = pure (record { payment = p; replayed = true })
replay_found (err e) = raise (in_progress_if_gone e)

abbrev pub replay_payment : Option ℕ → Sql IdempotentPayment
replay_payment none = raise claim_in_progress
replay_payment (some id) = caught (get_by_id id) >>= replay_found

-- The claim of another call.
unfoldable pub replay : String → Record → Sql IdempotentPayment
replay hash r =
    if not (str_eq r.request_hash hash) then raise key_reused else replay_payment r.payment_id

-- One round, after the claim; `next` is the rest of the loop.
abbrev pub after_claim :
    Surroundings
    → ValidRequest
    → ℕ
    → Sql IdempotentPayment
    → Option Record × Bool
    → Sql IdempotentPayment
after_claim w v i next (o, true) = create_claimed w (w.claim_id i) v.request
after_claim w v i next (none, false) = next
after_claim w v i next (some r, false) = replay (w.request_hash v.request) r

-- The loop: `n` rounds are left, and the next one is the i-th.
unfoldable pub claim_loop : Surroundings → ValidRequest → List ℕ → ℕ → ℕ → Sql IdempotentPayment
unfolding create_claimed replay
claim_loop w v key zero i = raise claim_in_progress
claim_loop w v key (suc n) i =
    let next = claim_loop w v key n (suc i) in
    claim_key (attempt_of w v key i) (w.meanwhile i) >>= after_claim w v i next

abbrev pub create_new : Payment → Sql IdempotentPayment
create_new p = pure (new_one p)

-- `CreatePaymentIdempotent`
unfoldable pub create_payment_idempotent :
    Surroundings → CreatePaymentRequest → List ℕ → Sql IdempotentPayment
unfolding claim_loop
create_payment_idempotent w req [] = created_by w req >>= create_new
create_payment_idempotent w req (b ∷ bs) =
    if not (validate_key (b ∷ bs))
    then raise invalid_key
    else lift (validate w.go w.validate_url req) >>= λ v.
        claim_loop w v (b ∷ bs) max_claim_attempts 0

-- `PurgeIdempotencyKeys`; the clock is past the first day.
unfoldable pub purge_idempotency_keys : ℕ → Sql (Unit {0})
purge_idempotency_keys now = purge_keys (now - ttl)
