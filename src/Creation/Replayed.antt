-- ===== src/Creation/Replayed.antt =====
-- A key whose payment was created gives that payment again.
use text.Mathlib.Text.{◌==◌ as str_eq}
use text.Mathlib.TextEquality.{eq_iff}
use pg_aggregator_back.Common.{
  ℕ, suc, String, true, false, ◌+◌, some, List, [], ◌∷◌, ◌≡◌, refl, sym, ap, leb, Bool-cases, inl,
  inr,
}
use pg_aggregator_back.Errors.{Result, ok}
use pg_aggregator_back.Payment.{Payment}
use pg_aggregator_back.Payment.Request.{CreatePaymentRequest, ValidRequest, validate}
use pg_aggregator_back.Idempotency.{Record, may_take_over, claim, validate_key, ttl, no_payment}
use pg_aggregator_back.Store.{Conn}
use pg_aggregator_back.Store.Table.{find, find-key}
use pg_aggregator_back.Store.Action.{query}
use pg_aggregator_back.Store.Inversion.{>>=-ok}
use pg_aggregator_back.Repository.Payments.{get_by_id, payment_key}
use pg_aggregator_back.Creation.{Service, Draws, lift}
use pg_aggregator_back.Creation.Idempotent.{
  IdempotentPayment, Surroundings, scope_of, attempt_of, replay, claim_loop,
  create_payment_idempotent,
}
use pg_aggregator_back.Creation.Keys.{kept_ttl, lost_claim}
use pg_aggregator_back.Creation.Stored.{Stored, err_not_ok, claim_key-lost, claim_loop-Stored}

get_by_id-quiet :
    (id : ℕ) (c : Conn) (x : Payment)
    → c.faults ≡ []
    → find payment_key id c.db.payments ≡ some x
    → get_by_id id c ≡ (ok x, record c { faults = [] })
unfolding get_by_id query
get_by_id-quiet id c x quiet there = rw (quiet, there) refl

abbrev replayed_one : Payment → IdempotentPayment
replayed_one x = record { payment = x; replayed = true }

replay-quiet :
    (hash : String) (r : Record) (id : ℕ) (c : Conn) (x : Payment)
    → c.faults ≡ []
    → r.request_hash ≡ hash
    → r.payment_id ≡ some id
    → find payment_key id c.db.payments ≡ some x
    → replay hash r c ≡ (ok (replayed_one x), record c { faults = [] })
unfolding replay
replay-quiet hash r id c x quiet same paid there =
    let eq : str_eq r.request_hash hash ≡ true = (eq_iff r.request_hash hash).1 same in
    rw (eq, paid, get_by_id-quiet id c x quiet there) refl

module _ (w : Surroundings) (v : ValidRequest) (key : List ℕ) where
  -- A round that finds the key stored replays its payment.
  claim_loop-replays :
      (n id t : ℕ) (c : Conn)
      → c.faults ≡ []
      → (st : Stored (scope_of v key) (w.request_hash v.request) id t c.db)
      → leb (w.clock 0) (t + ttl) ≡ true
      → w.meanwhile 0 c.db.idempotency_keys ≡ c.db.idempotency_keys
      → claim_loop w v key (suc n) 0 c ≡ (ok (replayed_one st.stored), record c { faults = [] })
  unfolding claim_loop
  claim_loop-replays n id t c quiet st young alone =
      let a = attempt_of w v key 0 in
      let r = st.holder in
      let paid : no_payment r.payment_id ≡ false = rw (st.its_payment) refl in
      let kept : may_take_over (w.clock 0) r ≡ false =
        kept_ttl (w.clock 0) r paid (rw (st.made_at) young) in
      let lost : (claim a c.db.idempotency_keys).0.1 ≡ false =
        ap (λ x. x.0.1) (lost_claim a c.db.idempotency_keys r st.found kept) in
      rw (claim_key-lost a (w.meanwhile 0) c quiet lost, alone, st.found)
        (replay-quiet (w.request_hash v.request) r id (record c { faults = [] }) st.stored refl
          st.its_hash st.its_payment st.in_table)

-- The same call again, with whatever providers, draws and clock.
abbrev pub again : Surroundings → Service → Draws → (ℕ → ℕ) → (ℕ → ℕ) → Surroundings
again w service draws claim_id clock = record w {
  service = service;
  draws = draws;
  claim_id = claim_id;
  clock = clock;
  meanwhile = λ i rs. rs;
}

accepted_call :
    (w : Surroundings) (req : CreatePaymentRequest) (b : ℕ) (bs : List ℕ) (v : ValidRequest)
    (c : Conn) (r : Result IdempotentPayment × Conn)
    → validate_key (b ∷ bs) ≡ true
    → validate w.go w.validate_url req ≡ ok v
    → claim_loop w v (b ∷ bs) 3 0 c ≡ r
    → create_payment_idempotent w req (b ∷ bs) c ≡ r
unfolding create_payment_idempotent
accepted_call w req b bs v c r good accepted ran = rw (good, accepted) ran

-- If a call under a key has created a payment and no statement fails, the same request under the
-- same key within the next 24 hours, with nothing in between, replays that payment: it has its id,
-- and no table has changed, so nothing was created or charged.
pub create_payment_idempotent-replays :
    (w : Surroundings) (service : Service) (draws : Draws) (claim_id clock : ℕ → ℕ)
    (req : CreatePaymentRequest) (b : ℕ) (bs : List ℕ) (c c' : Conn) (p : IdempotentPayment)
    → c.faults ≡ []
    → create_payment_idempotent w req (b ∷ bs) c ≡ (ok p, c')
    → p.replayed ≡ false
    → ((i : ℕ) → leb (clock 0) (w.clock i + ttl) ≡ true)
    → (q : IdempotentPayment) × (c'' : Conn) × (create_payment_idempotent
          (again w service draws claim_id clock)
          req
          (b ∷ bs)
          c'
        ≡ (ok q, c''))
      × (q.replayed ≡ true)
      × (q.payment.id ≡ p.payment.id)
      × (c''.db ≡ c'.db)
unfolding create_payment_idempotent
create_payment_idempotent-replays w service draws claim_id clock req b bs c c' p quiet h new young =
    elim (Bool-cases (validate_key (b ∷ bs))) [
      | inr bad ↦ absurd (err_not_ok (rw bad at h))
      | inl good ↦
          let (v, c₁, valid, ran) =
            >>=-ok (lift (validate w.go w.validate_url req)) _ c (rw good at h) in
          let accepted : validate w.go w.validate_url req ≡ ok v = ap (λ r. r.0) valid in
          let same : c ≡ c₁ = ap (λ r. r.1) valid in
          let (j, quiet', st) =
            claim_loop-Stored w v (b ∷ bs) 3 0 c₁ c' p (rw (sym same) quiet) ran new in
          let w' = again w service draws claim_id clock in
          (
            replayed_one st.stored,
            record c' { faults = [] },
            accepted_call w' req b bs v c' (ok (replayed_one st.stored), record c' { faults = [] })
                good accepted
                (claim_loop-replays w' v (b ∷ bs) 2 p.payment.id (w.clock j) c' quiet' st (young j)
                  refl),
            refl,
            find-key payment_key p.payment.id c'.db.payments st.in_table,
            refl,
          )
    ]
