-- ===== src/Reconcile/Confirmed.antt =====
-- What one check of a payment has changed.
use pg_aggregator_back.Common.{
  ℕ, ◌+◌, ◌<◌, arith, Bool, true, false, Option, none, some, ◌≡◌, refl, ap, ◌∙◌, ◌⊎◌, ℤ, Bool-cases,
  inl, inr,
}
use pg_aggregator_back.Errors.{Error, Result, ok, err}
use pg_aggregator_back.Payment.{
  Status, pending, paid, expired, failed, cancelled, refunded, other_status, Payment, status_eq,
}
use pg_aggregator_back.Settlement.{
  NormalizedPaymentStatus, verify_provider_payment, merchant_net_for,
}
use pg_aggregator_back.Store.{Db, Conn}
use pg_aggregator_back.Repository.Payments.{mark_paid, update_status}
use pg_aggregator_back.Repository.Payments.Effect.{Settles, mark_paid-ok, mark_paid-err}
use pg_aggregator_back.Repository.Payments.Moves.{Moves, update_status-ok, update_status-err}
use pg_aggregator_back.Repository.Scans.{no_text}
use pg_aggregator_back.Webhook.{WebhookProvider, write_event, paid_time, settled_payment}
use pg_aggregator_back.Callback.Notified.{besides_queue, notify-pure-Calm}
use pg_aggregator_back.Delivery.{payment_event}
use pg_aggregator_back.Reconcile.{
  Check, ReconcileResult, first_result, acted, is_terminal_error, lost_race, after_expiry,
  expire_locally, expire_or, after_settlement, settle_checked, with_provider_status, on_verdict,
  on_report, ask_provider, reference_or_empty, is_past_expiry, is_ended, reconcile_payment_data,
  skipped, error_action, changed_to, updated, expired_local,
}

-- Nothing but the queue has changed.
abbrev pub Same : Db → Db → Type 0
Same d d' = besides_queue d' ≡ besides_queue d

pending_of : (s : Status) → status_eq s pending ≡ true → s ≡ pending
pending_of pending h = refl
pending_of paid h = cc
pending_of expired h = cc
pending_of failed h = cc
pending_of cancelled h = cc
pending_of refunded h = cc
pending_of (other_status s) h = cc

late_of :
    (now : ℕ) (p : Payment)
    → is_past_expiry now p ≡ true
    → (p.status ≡ pending) × (p.expires_at + 300 < now)
late_of now p h = (pending_of p.status (ground arith), ground arith)

-- The payment was read as pending, its deadline is more than 300 seconds past, and it was moved to
-- `expired`.
abbrev pub Expires : Check → Payment → Db → Db → Type 0
Expires k p d d' =
    ((p.status ≡ pending) × (p.expires_at + 300 < k.now))
    × (q : Payment) × (d₁ : Db) × Moves p.id expired none k.now q d d₁
    × Same d₁ d'

-- The payment was settled with the net.
abbrev pub SettlesAt : Check → Payment → Option ℕ → ℤ → Db → Db → Type 0
SettlesAt k p at net d d' =
    (q : Payment) × (d₁ : Db) × Settles k.entry_id p.id at net k.now q d d₁ × Same d₁ d'

-- The payment was settled after its own provider reported it paid with its total.
abbrev pub SettlesChecked : Check → Payment → Db → Db → Type 0
SettlesChecked k p d d' =
    (pr : WebhookProvider) × (s : NormalizedPaymentStatus) × (net : ℤ)
    × (k.registry.provider_by_name p.provider_name ≡ ok pr)
    × (pr.get_payment_status (reference_or_empty p.provider_reference) ≡ ok (some s))
    × (verify_provider_payment p (some s) none ≡ none)
    × (merchant_net_for p ≡ ok net)
    × SettlesAt k p (paid_time s.paid_at k.now) net d d'

module _ (k : Check) (p : Payment) where
  lost_race-same : (r : ReconcileResult) (e : Error) (c : Conn) → (lost_race r e c).1.db ≡ c.db
  lost_race-same r e c = elim (Bool-cases (is_terminal_error e)) [
    | inl t ↦ rw (t) refl
    | inr f ↦ rw (f) refl
  ]

  after_expiry-Expires :
      (r : ReconcileResult) (c : Conn) (m : Result Status)
      → is_past_expiry k.now p ≡ true
      → (update_status p.id expired none k.now c).0 ≡ m
      → Same c.db (after_expiry k p r m (update_status p.id expired none k.now c).1).1.db
        ⊎ Expires k p c.db (after_expiry k p r m (update_status p.id expired none k.now c).1).1.db
  after_expiry-Expires r c (err e) late h =
      let c₁ = (update_status p.id expired none k.now c).1 in
      let kept = update_status-err p.id expired none k.now c c₁ e (ap (λ x. (x, c₁)) h) in
      inl (ap besides_queue (lost_race-same r e c₁ ∙ kept))
  after_expiry-Expires r c (ok previous) late h =
      let c₁ = (update_status p.id expired none k.now c).1 in
      let (q, _, moved) =
        update_status-ok p.id expired none k.now c c₁ previous (ap (λ x. (x, c₁)) h) in
      inr (
        late_of k.now p late,
        q,
        c₁.db,
        moved,
        (notify-pure-Calm k.go k.delivery_id k.now (record p { status = expired })
            (payment_event expired) false (changed_to expired expired_local r) c₁).0,
      )

  after_settlement-SettlesAt :
      (at : Option ℕ) (net : ℤ) (r : ReconcileResult) (c : Conn) (m : Result Status)
      → (mark_paid k.entry_id p.id at net k.now c).0 ≡ m
      → Same c.db
          (after_settlement k p at net r m (mark_paid k.entry_id p.id at net k.now c).1).1.db
        ⊎ SettlesAt k p at net c.db
            (after_settlement k p at net r m (mark_paid k.entry_id p.id at net k.now c).1).1.db
  after_settlement-SettlesAt at net r c (err e) h =
      let c₁ = (mark_paid k.entry_id p.id at net k.now c).1 in
      let kept = mark_paid-err k.entry_id p.id at net k.now c c₁ e (ap (λ x. (x, c₁)) h) in
      inl (ap besides_queue (lost_race-same r e c₁ ∙ kept))
  after_settlement-SettlesAt at net r c (ok previous) h =
      let c₁ = (mark_paid k.entry_id p.id at net k.now c).1 in
      let (q, _, done) =
        mark_paid-ok k.entry_id p.id at net k.now c c₁ previous (ap (λ x. (x, c₁)) h) in
      inr (
        q,
        c₁.db,
        done,
        (notify-pure-Calm k.go k.delivery_id k.now (settled_payment p at net) (payment_event paid)
            (status_eq previous expired) (changed_to paid updated r) c₁).0,
      )

  -- Nothing changed, or the payment expired after its deadline, or a checked settlement.
  abbrev Checked : Db → Db → Type 0
  Checked d d' = Same d d' ⊎ (Expires k p d d' ⊎ SettlesChecked k p d d')

  expire_if :
      (r otherwise : ReconcileResult) (b : Bool) (c : Conn)
      → is_past_expiry k.now p ≡ b
      → Checked c.db (expire_or k p r otherwise b c).1.db
  unfolding expire_locally
  expire_if r otherwise false c late = inl refl
  expire_if r otherwise true c late =
      elim (after_expiry-Expires r c (update_status p.id expired none k.now c).0 late refl) [
        | inl same ↦ inl same
        | inr done ↦ inr (inl done)
      ]

  expire_or-Checked :
      (r otherwise : ReconcileResult) (c : Conn)
      → Checked c.db (expire_or k p r otherwise (is_past_expiry k.now p) c).1.db
  expire_or-Checked r otherwise c = expire_if r otherwise (is_past_expiry k.now p) c refl

  settle_checked-SettlesAt :
      (at : Option ℕ) (r : ReconcileResult) (n : Result ℤ) (c : Conn)
      → Same c.db (settle_checked k p at r n c).1.db
        ⊎ ((net : ℤ) × (n ≡ ok net) × SettlesAt k p at net c.db (settle_checked k p at r n c).1.db)
  unfolding settle_checked
  settle_checked-SettlesAt at r (err e) c = inl refl
  settle_checked-SettlesAt at r (ok net) c =
      elim (after_settlement-SettlesAt at net r c (mark_paid k.entry_id p.id at net k.now c).0
        refl) [ inl same ↦ inl same | inr done ↦ inr (net, refl, done) ]

  on_verdict-Settles :
      (s : NormalizedPaymentStatus) (r : ReconcileResult) (v : Option Error) (c : Conn)
      → Same c.db (on_verdict k p s r v c).1.db
        ⊎ ((v ≡ none)
            × (net : ℤ) × (merchant_net_for p ≡ ok net)
            × SettlesAt k p (paid_time s.paid_at k.now) net c.db (on_verdict k p s r v c).1.db)
  unfolding write_event
  on_verdict-Settles s r (some e) c = inl refl
  on_verdict-Settles s r none c =
      elim (settle_checked-SettlesAt (paid_time s.paid_at k.now) r (merchant_net_for p) c) [
        | inl same ↦ inl same
        | inr (net, kept, done) ↦ inr (refl, net, kept, done)
      ]

  on_report-Checked :
      (pr : WebhookProvider) (r : ReconcileResult) (s : Result (Option NormalizedPaymentStatus))
      (c : Conn)
      → k.registry.provider_by_name p.provider_name ≡ ok pr
      → pr.get_payment_status (reference_or_empty p.provider_reference) ≡ s
      → Checked c.db (on_report k p (is_past_expiry k.now p) r s c).1.db
  unfolding on_report
  on_report-Checked pr r (err e) c own asked = expire_or-Checked r (acted error_action r) c
  on_report-Checked pr r (ok none) c own asked = inl refl
  on_report-Checked pr r (ok (some s)) c own asked =
      let r' = with_provider_status s.status r in
      elim (Bool-cases (status_eq s.status paid)) [
        | inr other ↦ rw (other) (expire_or-Checked r' r' c)
        | inl settled ↦ elim (on_verdict-Settles s r' (verify_provider_payment p (some s) none) c) [
          | inl same ↦ inl (rw (settled) same)
          | inr (verified, net, kept, done) ↦
              inr (inr (pr, s, net, own, asked, verified, kept, rw (settled) done))
        ]
      ]

  ask_provider-Checked :
      (r : ReconcileResult) (o : Result WebhookProvider) (c : Conn)
      → k.registry.provider_by_name p.provider_name ≡ o
      → Checked c.db
          (ask_provider k p
            (reference_or_empty p.provider_reference)
            (is_past_expiry k.now p)
            r
            o
            c).1.db
  unfolding ask_provider
  ask_provider-Checked r (err e) c own = inl refl
  ask_provider-Checked r (ok pr) c own =
      on_report-Checked pr r (pr.get_payment_status (reference_or_empty p.provider_reference)) c own
        refl

  -- Whatever the providers answer and whichever statements fail, a check changes nothing besides
  -- the queue of callbacks, or it makes one of two changes: the payment, pending when it was read
  -- and five minutes past its deadline, is moved to `expired`; or it is settled with the net of
  -- `merchantNetFor` after the provider that it names has reported it paid with its total.
  pub reconcile_payment_data-Checked :
      (c : Conn)
      → Same c.db (reconcile_payment_data k p c).1.db
        ⊎ (Expires k p c.db (reconcile_payment_data k p c).1.db
            ⊎ SettlesChecked k p c.db (reconcile_payment_data k p c).1.db)
  unfolding reconcile_payment_data
  reconcile_payment_data-Checked c = elim (Bool-cases (is_ended p.status)) [
    | inl ended ↦ inl (rw (ended) refl)
    | inr alive ↦ elim (Bool-cases (no_text p.provider_reference)) [
      | inl blank ↦
          rw (alive, blank) (expire_or-Checked (first_result p) (acted skipped (first_result p)) c)
      | inr given ↦
          rw (alive, given)
            (ask_provider-Checked (first_result p) (k.registry.provider_by_name p.provider_name) c
              refl)
    ]
  ]
