-- ===== src/Webhook/Confirmed.antt =====
-- A webhook changes the tables only by a settlement that the provider itself has confirmed.
use pg_aggregator_back.Common.{
  ℕ, String, true, ◌||◌, Option, none, some, ◌≡◌, refl, sym, ap, ◌∙◌, ◌⊎◌, inl, inr, ℤ, Bool-cases,
}
use pg_aggregator_back.Errors.{Error, Result, ok, err}
use pg_aggregator_back.Payment.{Status, paid, failed, cancelled, refunded, Payment, status_eq}
use pg_aggregator_back.Settlement.{
  NormalizedPaymentStatus, verify_provider_payment, merchant_net_for,
}
use pg_aggregator_back.Store.{Db, Conn}
use pg_aggregator_back.Store.Inversion.{query-ReadsOnly, some-injective}
use pg_aggregator_back.Repository.Payments.{find_payment, get_by_provider_reference, mark_paid}
use pg_aggregator_back.Repository.Payments.Effect.{Settles, mark_paid-ok, mark_paid-err}
use pg_aggregator_back.Webhook.Named.{distinct_payments, get_by_provider_reference-ok, find-Member}
use pg_aggregator_back.Webhook.{
  ProviderWebhookPayload, WebhookProvider, Registry, write_event, paid_time, after_mark_paid,
  settle_confirmed, is_mismatch, verify_error, confirm, on_payment, is_test, on_payload,
  on_provider, process_webhook,
}

-- The settlement of payment `p` with the net `net`, between two states of the tables.
abbrev pub SettledWith : ℕ → ℕ → ProviderWebhookPayload → Payment → ℤ → Db → Db → Type 0
SettledWith entry_id now w p net d d' =
    (q : Payment) × Settles entry_id p.id (paid_time w.paid_at now) net now q d d'

-- The payment's own provider confirmed the payload `w`, and what the merchant keeps was computed.
pub record ConfirmedBy (g : Registry) (pr : WebhookProvider) (w : ProviderWebhookPayload)
    (p : Payment) (net : ℤ) : Type 0 where
  pub owned : g.equal_fold p.provider_name pr.name ≡ true
  pub claimed_paid : status_eq w.status paid ≡ true
  pub report : Option NormalizedPaymentStatus
  pub asked : pr.get_payment_status w.provider_reference ≡ ok report
  pub verified : verify_provider_payment p report w.amount ≡ none
  pub kept : merchant_net_for p ≡ ok net

module _ (g : Registry) (entry_id now : ℕ) where
  -- A confirmed settlement of a payment with the payload's reference.
  abbrev pub Done : WebhookProvider → ProviderWebhookPayload → Db → Db → Type 0
  Done pr w d d' =
      (p : Payment) × (net : ℤ) × (p.provider_reference ≡ some w.provider_reference)
      × ConfirmedBy g pr w p net
      × Settles entry_id p.id (paid_time w.paid_at now) net now p d d'

  -- The same, of the payment that was looked up.
  abbrev DoneAt : WebhookProvider → ProviderWebhookPayload → Result Payment → Db → Db → Type 0
  DoneAt pr w r d d' =
      (p : Payment) × (net : ℤ) × (r ≡ ok p)
      × ConfirmedBy g pr w p net
      × SettledWith entry_id now w p net d d'

  after_keeps :
      (w : ProviderWebhookPayload) (p : Payment) (at : Option ℕ) (net : ℤ) (r : Result Status)
      (c : Conn)
      → (after_mark_paid w p at net r c).1.db ≡ c.db
  unfolding write_event
  after_keeps w p at net (ok s) c = refl
  after_keeps w p at net (err e) c = refl

  marked :
      (w : ProviderWebhookPayload) (p : Payment) (net : ℤ) (c : Conn) (r : Result Status)
      → (mark_paid entry_id p.id (paid_time w.paid_at now) net now c).0 ≡ r
      → ((mark_paid entry_id p.id (paid_time w.paid_at now) net now c).1.db ≡ c.db)
        ⊎ SettledWith entry_id now w p net c.db
            (mark_paid entry_id p.id (paid_time w.paid_at now) net now c).1.db
  marked w p net c (ok previous) h =
      let c₁ = (mark_paid entry_id p.id (paid_time w.paid_at now) net now c).1 in
      let (q, _, done) =
        mark_paid-ok entry_id p.id (paid_time w.paid_at now) net now c c₁ previous
          (ap (λ x. (x, c₁)) h) in
      inr (q, done)
  marked w p net c (err e) h =
      let c₁ = (mark_paid entry_id p.id (paid_time w.paid_at now) net now c).1 in
      inl
        (mark_paid-err entry_id p.id (paid_time w.paid_at now) net now c c₁ e (ap (λ x. (x, c₁)) h))

  settle_confirmed-Settles :
      (w : ProviderWebhookPayload) (p : Payment) (net : ℤ) (c : Conn)
      → ((settle_confirmed entry_id now w p (ok net) c).1.db ≡ c.db)
        ⊎ SettledWith entry_id now w p net c.db (settle_confirmed entry_id now w p (ok net) c).1.db
  unfolding settle_confirmed
  settle_confirmed-Settles w p net c =
      let m = mark_paid entry_id p.id (paid_time w.paid_at now) net now c in
      let same = after_keeps w p (paid_time w.paid_at now) net m.0 m.1 in
      elim (marked w p net c m.0 refl) [
        | inl unchanged ↦ inl (same ∙ unchanged)
        | inr (q, done) ↦ inr (q, rw (same) done)
      ]

  settle_any :
      (w : ProviderWebhookPayload) (p : Payment) (r : Result ℤ) (c : Conn)
      → ((settle_confirmed entry_id now w p r c).1.db ≡ c.db)
        ⊎ ((net : ℤ) × (r ≡ ok net)
            × SettledWith entry_id now w p net c.db (settle_confirmed entry_id now w p r c).1.db)
  unfolding settle_confirmed write_event
  settle_any w p (err e) c = inl refl
  settle_any w p (ok net) c = elim (settle_confirmed-Settles w p net c) [
    | inl same ↦ inl same
    | inr done ↦ inr (net, refl, done)
  ]

  verified_none :
      (p : Payment) (w : ProviderWebhookPayload) (r : Result (Option NormalizedPaymentStatus))
      → verify_error p w r ≡ none
      → (s : Option NormalizedPaymentStatus) × (r ≡ ok s)
        × (verify_provider_payment p s w.amount ≡ none)
  verified_none p w (err e) h = cc
  verified_none p w (ok s) h = (s, refl, h)

  confirm_any :
      (w : ProviderWebhookPayload) (p : Payment) (v : Option Error) (c : Conn)
      → ((confirm entry_id now w p v c).1.db ≡ c.db)
        ⊎ ((v ≡ none)
            × (net : ℤ) × (merchant_net_for p ≡ ok net)
            × SettledWith entry_id now w p net c.db (confirm entry_id now w p v c).1.db)
  unfolding confirm write_event
  confirm_any w p (some e) c = elim (Bool-cases (is_mismatch e)) [
    | inl is ↦ inl (rw (is) refl)
    | inr is_not ↦ inl (rw (is_not) refl)
  ]
  confirm_any w p none c = elim (settle_any w p (merchant_net_for p) c) [
    | inl same ↦ inl same
    | inr (net, kept, done) ↦ inr (refl, net, kept, done)
  ]

  on_payment_any :
      (pr : WebhookProvider) (w : ProviderWebhookPayload) (r : Result Payment) (c : Conn)
      → ((on_payment g entry_id now pr w r c).1.db ≡ c.db)
        ⊎ DoneAt pr w r c.db (on_payment g entry_id now pr w r c).1.db
  unfolding on_payment write_event
  on_payment_any pr w (err e) c = inl refl
  on_payment_any pr w (ok p) c = elim (Bool-cases (g.equal_fold p.provider_name pr.name)) [
    | inr foreign ↦ inl (rw (foreign) refl)
    | inl owned ↦ elim (Bool-cases (status_eq w.status paid)) [
      | inr other ↦ inl (rw (owned, other) refl)
      | inl claimed ↦ elim (Bool-cases (status_eq p.status paid)) [
        | inl already ↦ inl (rw (owned, claimed, already) refl)
        | inr unpaid ↦
            elim (Bool-cases (
              status_eq p.status failed
              || status_eq p.status cancelled
              || status_eq p.status refunded)) [
                | inl ended ↦ inl (rw (owned, claimed, unpaid, ended) refl)
                | inr alive ↦
                    let v = verify_error p w (pr.get_payment_status w.provider_reference) in
                    elim (confirm_any w p v c) [
                      | inl same ↦ inl (rw (owned, claimed, unpaid, alive) same)
                      | inr (verified, net, kept, done) ↦
                          let (s, asked, is_none) =
                            verified_none p w (pr.get_payment_status w.provider_reference)
                              verified in
                          inr (
                            p,
                            net,
                            refl,
                            record {
                              owned = owned;
                              claimed_paid = claimed;
                              report = s;
                              asked = asked;
                              verified = is_none;
                              kept = kept;
                            },
                            rw (owned, claimed, unpaid, alive) done,
                          )
                    ]
              ]
      ]
    ]
  ]

  -- With distinct keys, the row that was settled is the one that was looked up.
  Done-of :
      (pr : WebhookProvider) (w : ProviderWebhookPayload) (c : Conn) (d' : Db)
      → distinct_payments c.db.payments ≡ true
      → DoneAt pr w (get_by_provider_reference w.provider_reference c).0 c.db d'
      → Done pr w c.db d'
  Done-of pr w c d' keys (p, net, looked, by, (q, done)) =
      let (row, named) = get_by_provider_reference-ok w.provider_reference c p looked in
      let there : find_payment p.id c.db ≡ some p = find-Member c.db.payments p keys row in
      let same : q ≡ p = some-injective (sym done.found ∙ there) in
      (p, net, named, by, rw (same) at done)

  on_payload_any :
      (pr : WebhookProvider) (r : Result ProviderWebhookPayload) (c : Conn)
      → distinct_payments c.db.payments ≡ true
      → ((on_payload g entry_id now pr r c).1.db ≡ c.db)
        ⊎ ((w : ProviderWebhookPayload) × (r ≡ ok w)
            × Done pr w c.db (on_payload g entry_id now pr r c).1.db)
  unfolding on_payload write_event get_by_provider_reference
  on_payload_any pr (err e) c keys = elim (Bool-cases (is_test e)) [
    | inl is ↦ inl (rw (is) refl)
    | inr is_not ↦ inl (rw (is_not) refl)
  ]
  on_payload_any pr (ok w) c keys =
      let looked = get_by_provider_reference w.provider_reference c in
      let same : looked.1.db ≡ c.db = query-ReadsOnly _ c in
      elim (on_payment_any pr w looked.0 looked.1) [
        | inl kept ↦ inl (kept ∙ same)
        | inr done ↦ inr (w, refl, Done-of pr w c _ keys (rw (same) at done))
      ]

  on_provider_any :
      (raw signature : String) (r : Result WebhookProvider) (c : Conn)
      → distinct_payments c.db.payments ≡ true
      → ((on_provider g entry_id now raw signature r c).1.db ≡ c.db)
        ⊎ ((pr : WebhookProvider) × (w : ProviderWebhookPayload) × (r ≡ ok pr)
            × (pr.validate_webhook raw signature ≡ true)
            × (pr.parse_webhook raw ≡ ok w)
            × Done pr w c.db (on_provider g entry_id now raw signature r c).1.db)
  unfolding on_provider write_event
  on_provider_any raw signature (err e) c keys = inl refl
  on_provider_any raw signature (ok pr) c keys =
      elim (Bool-cases (pr.validate_webhook raw signature)) [
        | inr forged ↦ inl (rw (forged) refl)
        | inl signed ↦ elim (on_payload_any pr (pr.parse_webhook raw) c keys) [
          | inl same ↦ inl (rw (signed) same)
          | inr (w, parsed, done) ↦ inr (pr, w, refl, signed, parsed, rw (signed) done)
        ]
      ]

  -- Over payments with distinct keys and whichever statements fail, a webhook leaves the tables as
  -- they are, or its signature is valid for the provider that it names, and the change is one
  -- settlement, with the net that `merchantNetFor` computes, of a payment whose provider
  -- reference is the payload's, which belongs to that provider and which that provider itself
  -- reports paid with its total.
  pub process_webhook-Settles :
      (name raw signature : String) (c : Conn)
      → distinct_payments c.db.payments ≡ true
      → ((process_webhook g entry_id now name raw signature c).1.db ≡ c.db)
        ⊎ ((pr : WebhookProvider) × (w : ProviderWebhookPayload) × (g.provider_by_name name ≡ ok pr)
            × (pr.validate_webhook raw signature ≡ true)
            × (pr.parse_webhook raw ≡ ok w)
            × Done pr w c.db (process_webhook g entry_id now name raw signature c).1.db)
  unfolding process_webhook write_event
  process_webhook-Settles name raw signature c keys =
      on_provider_any raw signature (g.provider_by_name name) (write_event c).1 keys
