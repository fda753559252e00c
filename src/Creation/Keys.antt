-- ===== src/Creation/Keys.antt =====
-- What a claim, a creation and a completion do to the row of a key.
use pg_aggregator_back.Common.{
  ℕ, String, Bool, true, false, ◌+◌, Option, some, List, [], ◌∷◌, ◌≡◌, refl, ap, ◌∙◌, arith, leb,
  ◌==◌, Bool-cases, Option-cases, inl, inr,
}
use pg_aggregator_back.Errors.{Error, ok}
use pg_aggregator_back.Payment.{Payment}
use pg_aggregator_back.Payment.Request.{Strings, CreatePaymentRequest, validate}
use pg_aggregator_back.Idempotency.{
  Record, Scope, Attempt, in_scope, find_scope, fresh, take_over, may_take_over, claim, complete,
  with_payment, ttl, no_payment,
}
use pg_aggregator_back.Idempotency.Exclusive.{find-replaced, eq→in_scope}
use pg_aggregator_back.Store.{Db, Conn}
use pg_aggregator_back.Store.Table.{find}
use pg_aggregator_back.Store.Action.{pure, exec}
use pg_aggregator_back.Store.Inversion.{>>=-ok, exec-ok, pure-ok}
use pg_aggregator_back.Store.Calm.{Calms, still_Calm, query-Calm, exec-Calm, >>=-Calm}
use pg_aggregator_back.Repository.Payments.{create, insert_payment, new_row, payment_key}
use pg_aggregator_back.Repository.Keys.{complete_key, with_keys}
use pg_aggregator_back.Accounting.Earned.{insert_payment-ok}
use pg_aggregator_back.Creation.{
  Service, Draws, lift, create_payment, check_merchant_for_create, charged_payment,
}

abbrev keys : Db → List Record
keys d = d.idempotency_keys

-- The row that holds a scope, with the payment of its claim.
module _ (s : Scope) (id payment_id : ℕ) where
  pub find-completed :
      (rs : List Record) {r : Record}
      → find_scope s rs ≡ some r
      → r.id ≡ id
      → find_scope s (complete id payment_id rs).1 ≡ some (with_payment payment_id r)
  unfolding complete
  find-completed [] h e = cc
  find-completed (x ∷ rs) {r} h e = elim (Bool-cases (in_scope s x)) [
    | inl mine ↦
        let is_x : x ≡ r = cc (rw mine at h) in
        let own : x.id == id ≡ true = rw (is_x, e) ground arith in rw (own, mine, is_x) refl
    | inr foreign ↦
        let rest = find-completed rs (rw foreign at h) e in
        elim (Bool-cases (x.id == id)) [
          | inl done ↦ rw (done, foreign) rest
          | inr other ↦ rw (other, foreign) rest
        ]
  ]

-- The row of a scope after a claim that won: the hash is the caller's.
pub won_hash :
    (a : Attempt) (rs : List Record)
    → (claim a rs).0.1 ≡ true
    → (r : Record) × (find_scope a.scope (claim a rs).1 ≡ some r)
      × (r.id ≡ a.id)
      × (r.created_at ≡ a.now)
      × (r.request_hash ≡ a.request_hash)
unfolding claim
won_hash a rs h = elim (Option-cases (find_scope a.scope rs)) [
  | inl none_there ↦
      let own : in_scope a.scope (fresh a) ≡ true = eq→in_scope a.scope (fresh a) refl refl refl in
      (fresh a, rw (none_there, own) refl, refl, refl, refl)
  | inr (y, there) ↦ elim (Bool-cases (may_take_over a.now y)) [
    | inl old ↦ (take_over a y, rw (there, old) (find-replaced a rs there), refl, refl, refl)
    | inr new ↦ absurd (cc (rw (there, new) at h))
  ]
]

-- A claim that has its payment is kept for the whole TTL.
pub kept_ttl :
    (now : ℕ) (r : Record)
    → no_payment r.payment_id ≡ false
    → leb now (r.created_at + ttl) ≡ true
    → may_take_over now r ≡ false
kept_ttl now r paid young = ground arith

pub lost_claim :
    (a : Attempt) (rs : List Record) (r : Record)
    → find_scope a.scope rs ≡ some r
    → may_take_over a.now r ≡ false
    → claim a rs ≡ ((some r, false), rs)
unfolding claim
lost_claim a rs r h k = rw (h, k) refl

-- CreatePayment leaves the keys alone.
pub create_payment-keys :
    (go : Strings) (validate_url : String → Bool → Option Error) (s : Service) (k : Draws)
    (req : CreatePaymentRequest)
    → Calms keys (create_payment go validate_url s k req)
unfolding create_payment check_merchant_for_create create
create_payment-keys go validate_url s k req =
    >>=-Calm keys (lift (validate go validate_url req)) _ (λ c. still_Calm keys c)
      (λ v.
        >>=-Calm keys (check_merchant_for_create v.request.merchant_id) _ (λ c. query-Calm keys _ c)
          (λ b.
            >>=-Calm keys (lift (charged_payment s k v b)) _ (λ c. still_Calm keys c)
              (λ p.
                >>=-Calm keys (create p) (λ _. pure p)
                  (exec-Calm keys (insert_payment p)
                    (λ d d' u h. ap keys (insert_payment-ok p d d' h)))
                  (λ u c. still_Calm keys c))))

found_first :
    (q p : Payment) (d₃ d₄ d' : Db)
    → d' ≡ record d₃ { payments = new_row q ∷ d₃.payments }
    → q ≡ p
    → find payment_key p.id d'.payments ≡ some (new_row p)
found_first q p d₃ d₄ d' e same =
    let here : p.id == p.id ≡ true = ground arith in rw (e, same, here) refl

-- A payment that was created is found by its id.
pub create_payment-found :
    (go : Strings) (validate_url : String → Bool → Option Error) (s : Service) (k : Draws)
    (req : CreatePaymentRequest) (c c' : Conn) (p : Payment)
    → create_payment go validate_url s k req c ≡ (ok p, c')
    → find payment_key p.id c'.db.payments ≡ some (new_row p)
unfolding create_payment create
create_payment-found go validate_url s k req c c' p h =
    let (v, c₁, e₁, h₁) = >>=-ok (lift (validate go validate_url req)) _ c h in
    let (b, c₂, e₂, h₂) = >>=-ok (check_merchant_for_create v.request.merchant_id) _ c₁ h₁ in
    let (q, c₃, e₃, h₃) = >>=-ok (lift (charged_payment s k v b)) _ c₂ h₂ in
    let (u, c₄, e₄, h₄) = >>=-ok (create q) (λ _. pure q) c₃ h₃ in
    let row = insert_payment-ok q c₃.db c₄.db (exec-ok (insert_payment q) c₃ e₄) in
    let (same, kept) = pure-ok q p c₄ c' h₄ in found_first q p c₃.db c₄.db c'.db (kept ∙ row) same

-- The claim that created: completed with the payment.
pub complete-quiet :
    (id payment_id : ℕ) (c : Conn)
    → c.faults ≡ []
    → (complete_key id payment_id c).1 ≡ record c {
      db = with_keys c.db (complete id payment_id c.db.idempotency_keys).1;
      faults = [];
    }
unfolding complete_key exec
complete-quiet id payment_id c quiet =
    elim (Bool-cases (complete id payment_id c.db.idempotency_keys).0) [
      | inl t ↦ rw (quiet, t) refl
      | inr f ↦ rw (quiet, f) refl
    ]
