-- ===== src/Creation/Stored.antt =====
-- A call that has created leaves its key with the payment.
use text.Mathlib.Text.{◌==◌ as str_eq}
use pg_aggregator_back.Common.{
  ℕ, zero, suc, String, Bool, true, false, Option, none, some, List, [], ◌≡◌, refl, sym, ap, subst,
  Bool-cases, Option-cases, inl, inr,
}
use pg_aggregator_back.Errors.{Error, Result, ok, err}
use pg_aggregator_back.Payment.{Payment}
use pg_aggregator_back.Payment.Request.{CreatePaymentRequest, ValidRequest}
use pg_aggregator_back.Idempotency.{Record, Scope, Attempt, find_scope, fresh, claim, with_payment}
use pg_aggregator_back.Store.{Db, Conn}
use pg_aggregator_back.Store.Table.{find}
use pg_aggregator_back.Store.Action.{query, exec}
use pg_aggregator_back.Store.Inversion.{ok-injective}
use pg_aggregator_back.Repository.Payments.{get_by_id, new_row, payment_key}
use pg_aggregator_back.Repository.Keys.{claim_key, complete_key, with_keys}
use pg_aggregator_back.Creation.Idempotent.{
  IdempotentPayment, Surroundings, new_one, settle_claim, created_by, create_claimed, scope_of,
  attempt_of, replay, replay_payment, replay_found, claim_loop,
}
use pg_aggregator_back.Creation.Keys.{
  find-completed, won_hash, create_payment-keys, create_payment-found, complete-quiet,
}

-- The scope is held by a claim that has its payment, which is in the table.
pub record Stored (s : Scope) (hash : String) (payment_id t : ℕ) (d : Db) : Type 0 where
  pub holder : Record
  pub found : find_scope s d.idempotency_keys ≡ some holder
  pub its_payment : holder.payment_id ≡ some payment_id
  pub its_hash : holder.request_hash ≡ hash
  pub made_at : holder.created_at ≡ t
  pub stored : Payment
  pub in_table : find payment_key payment_id d.payments ≡ some stored

-- The scope is held by the claim.
record Claimed (a : Attempt) (rs : List Record) : Type 0 where
  pub row : Record
  pub there : find_scope a.scope rs ≡ some row
  pub own : row.id ≡ a.id
  pub hash : row.request_hash ≡ a.request_hash
  pub at : row.created_at ≡ a.now

pub err_not_ok :
    {A : Type 0} {e : Error} {a : A} {c c' : Conn}
    → ◌≡◌ {A = Result A × Conn} (err e, c) (ok a, c')
    → ⊥
err_not_ok h = cc

true_not_false : {b : Bool} → b ≡ true → b ≡ false → ⊥
true_not_false h k = cc

settle_claim-Stored :
    (a : Attempt) (r : Result Payment) (c c' : Conn) (p : IdempotentPayment)
    → c.faults ≡ []
    → Claimed a c.db.idempotency_keys
    → ((q : Payment) → r ≡ ok q → find payment_key q.id c.db.payments ≡ some (new_row q))
    → settle_claim a.id r c ≡ (ok p, c')
    → (c'.faults ≡ []) × Stored a.scope a.request_hash p.payment.id a.now c'.db
settle_claim-Stored a (err e) c c' p quiet held there h = absurd (err_not_ok h)
settle_claim-Stored a (ok q) c c' p quiet held there h =
    let done = complete-quiet a.id q.id c quiet in
    let after_it : c' ≡ (complete_key a.id q.id c).1 = ap (λ r. r.1) (sym h) in
    let same : ok p ≡ ok (new_one q) = ap (λ r. r.0) (sym h) in
    let is_q : p ≡ new_one q = ok-injective same in
    rw (after_it, done, is_q)
      (
        refl,
        record {
          holder = with_payment q.id held.row;
          found = find-completed a.scope a.id q.id c.db.idempotency_keys held.there held.own;
          its_payment = refl;
          its_hash = held.hash;
          made_at = held.at;
          stored = new_row q;
          in_table = there q refl;
        },
      )

create_claimed-Stored :
    (w : Surroundings) (req : CreatePaymentRequest) (a : Attempt) (c c' : Conn)
    (p : IdempotentPayment)
    → c.faults ≡ []
    → Claimed a c.db.idempotency_keys
    → create_claimed w a.id req c ≡ (ok p, c')
    → (c'.faults ≡ []) × Stored a.scope a.request_hash p.payment.id a.now c'.db
unfolding create_claimed
create_claimed-Stored w req a c c' p quiet held h =
    let r = created_by w req c in
    let (same, calm) = create_payment-keys w.go w.validate_url w.service w.draws req c in
    settle_claim-Stored a r.0 r.1 c' p (calm quiet) (subst (Claimed a) (sym same) held)
      (λ q e.
        create_payment-found w.go w.validate_url w.service w.draws req c r.1 q
          (ap (λ x. (x, r.1)) e))
      h

replay_found-replayed :
    (r : Result Payment) (c c' : Conn) (p : IdempotentPayment)
    → replay_found r c ≡ (ok p, c')
    → p.replayed ≡ true
replay_found-replayed (ok q) c c' p h = ap (λ o. o.replayed) (sym (ok-injective (ap (λ r. r.0) h)))
replay_found-replayed (err e) c c' p h = absurd (err_not_ok h)

replay_payment-replayed :
    (o : Option ℕ) (c c' : Conn) (p : IdempotentPayment)
    → replay_payment o c ≡ (ok p, c')
    → p.replayed ≡ true
replay_payment-replayed none c c' p h = absurd (err_not_ok h)
replay_payment-replayed (some id) c c' p h =
    replay_found-replayed (get_by_id id c).0 (get_by_id id c).1 c' p h

replay-replayed :
    (hash : String) (r : Record) (c c' : Conn) (p : IdempotentPayment)
    → replay hash r c ≡ (ok p, c')
    → p.replayed ≡ true
unfolding replay
replay-replayed hash r c c' p h = elim (Bool-cases (str_eq r.request_hash hash)) [
  | inl t ↦ replay_payment-replayed r.payment_id c c' p (rw t at h)
  | inr f ↦ absurd (err_not_ok (rw f at h))
]

claim_key-won :
    (a : Attempt) (f : List Record → List Record) (c : Conn)
    → c.faults ≡ []
    → (claim a c.db.idempotency_keys).0.1 ≡ true
    → claim_key a f c ≡ (
      ok (some (fresh a), true),
      record c { db = with_keys c.db (claim a c.db.idempotency_keys).1; faults = [] },
    )
unfolding claim_key exec
claim_key-won a f c quiet won = rw (quiet, won) refl

pub claim_key-lost :
    (a : Attempt) (f : List Record → List Record) (c : Conn)
    → c.faults ≡ []
    → (claim a c.db.idempotency_keys).0.1 ≡ false
    → claim_key a f c ≡ (
      ok (find_scope a.scope (f c.db.idempotency_keys), false),
      record c { db = with_keys c.db (f c.db.idempotency_keys); faults = [] },
    )
unfolding claim_key exec query
claim_key-lost a f c quiet lost = rw (quiet, lost) refl

module _ (w : Surroundings) (v : ValidRequest) (key : List ℕ) where
  pub claim_loop-Stored :
      (n i : ℕ) (c c' : Conn) (p : IdempotentPayment)
      → c.faults ≡ []
      → claim_loop w v key n i c ≡ (ok p, c')
      → p.replayed ≡ false
      → (j : ℕ) × (c'.faults ≡ [])
        × Stored (scope_of v key) (w.request_hash v.request) p.payment.id (w.clock j) c'.db
  unfolding claim_loop
  claim_loop-Stored zero i c c' p quiet h new = absurd (err_not_ok h)
  claim_loop-Stored (suc n) i c c' p quiet h new =
      let a = attempt_of w v key i in
      elim (Bool-cases (claim a c.db.idempotency_keys).0.1) [
        | inl won ↦
            let (row, there, own, at, hash) = won_hash a c.db.idempotency_keys won in
            let c₁ : Conn = record c {
              db = with_keys c.db (claim a c.db.idempotency_keys).1;
              faults = [];
            } in
            let (q, st) =
              create_claimed-Stored w v.request a c₁ c' p refl
                (record { row = row; there = there; own = own; hash = hash; at = at })
                (rw (claim_key-won a (w.meanwhile i) c quiet won) at h) in
            (i, q, st)
        | inr lost ↦
            let c₁ : Conn = record c {
              db = with_keys c.db (w.meanwhile i c.db.idempotency_keys);
              faults = [];
            } in
            let seen = find_scope a.scope (w.meanwhile i c.db.idempotency_keys) in
            let rest = rw (claim_key-lost a (w.meanwhile i) c quiet lost) at h in
            elim (Option-cases seen) [
              | inl gone ↦ claim_loop-Stored n (suc i) c₁ c' p refl (rw gone at rest) new
              | inr (r, there) ↦ absurd (
                  true_not_false
                    (replay-replayed (w.request_hash v.request) r c₁ c' p (rw there at rest)) new)
            ]
      ]
