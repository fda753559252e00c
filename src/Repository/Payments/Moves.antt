-- ===== src/Repository/Payments/Moves.antt =====
-- What `UpdateStatus` has done: the guarded change of one row, never into `paid` or `refunded`.
use pg_aggregator_back.Common.{
  ℕ, true, false, ◌||◌, Option, none, some, ◌≡◌, refl, sym, ap, ◌∙◌, ◌⊎◌, inl, inr, arith,
  Bool-cases,
}
use pg_aggregator_back.Errors.{Error, ok, err}
use pg_aggregator_back.Payment.{
  Status, pending, paid, expired, failed, cancelled, refunded, Payment, status_eq,
  allowed_source_statuses, can_transition_to,
}
use pg_aggregator_back.Payment.Transitions.{
  ◌⟶◌, settle, settle_late, expire, fail, cancel, refund, arrow_of_allowed,
}
use pg_aggregator_back.Store.{Db, Conn}
use pg_aggregator_back.Store.Table.{modify}
use pg_aggregator_back.Store.Action.{exec}
use pg_aggregator_back.Store.Inversion.{>>=-ok, >>=-err, exec-ok, exec-err}
use pg_aggregator_back.Repository.Payments.{
  payment_key, find_payment, guarded, with_status, update_status_at, update_status_row,
  update_status, or_classify, is_nil,
}
use pg_aggregator_back.Repository.Payments.Effect.{classify-err, classify-ReadsOnly}

-- A committed change of the status of payment `p`.
pub record Moves (id : ℕ) (new : Status) (paid_at : Option ℕ) (now : ℕ) (p : Payment) (d d' : Db)
    : Type 0 where
  pub found : find_payment id d ≡ some p
  pub ended : (p.status ≡ pending) × ((new ≡ expired) ⊎ ((new ≡ failed) ⊎ (new ≡ cancelled)))
  pub allowed : guarded new p ≡ true
  pub not_paid : status_eq new paid ≡ false
  pub not_refunded : status_eq new refunded ≡ false
  pub books : d' ≡ record d {
    payments =
        modify payment_key p.id
          (λ (q : Payment). record q { status = new; paid_at = paid_at; updated_at = now })
          d.payments;
  }

ended_of :
    {s t : Status}
    → s ⟶ t
    → status_eq t paid ≡ false
    → status_eq t refunded ≡ false
    → (s ≡ pending) × ((t ≡ expired) ⊎ ((t ≡ failed) ⊎ (t ≡ cancelled)))
ended_of settle a b = cc
ended_of settle_late a b = cc
ended_of expire a b = (refl, inl refl)
ended_of fail a b = (refl, inr (inl refl))
ended_of cancel a b = (refl, inr (inr refl))
ended_of refund a b = cc

was_pending :
    (p : Payment) (new : Status)
    → guarded new p ≡ true
    → status_eq new paid ≡ false
    → status_eq new refunded ≡ false
    → (p.status ≡ pending) × ((new ≡ expired) ⊎ ((new ≡ failed) ⊎ (new ≡ cancelled)))
unfolding can_transition_to
was_pending p new h a b = ended_of (arrow_of_allowed p.status new h) a b

module _ (id : ℕ) (new : Status) (paid_at : Option ℕ) (now : ℕ) where
  abbrev RowMoved : Db → Db → Status → Payment → Type 0
  RowMoved d d' prev p =
      (guarded new p ≡ true)
      × (prev ≡ p.status)
      × (d' ≡ record d {
        payments = modify payment_key p.id (with_status new paid_at now) d.payments;
      })

  update_at-some :
      (d d' : Db) (prev : Status) (o : Option Payment)
      → ok (update_status_at new paid_at now d o) ≡ ok (some prev, d')
      → (p : Payment) × (o ≡ some p) × RowMoved d d' prev p
  update_at-some d d' prev none h = cc
  update_at-some d d' prev (some p) h = (p, refl, (ground arith, ground arith, ground arith))

  update_at-none :
      (d d' : Db) (o : Option Payment)
      → ok (update_status_at new paid_at now d o) ≡ ok (none, d')
      → d' ≡ d
  update_at-none d d' none h = ground arith
  update_at-none d d' (some p) h = ground arith

  module _ (c c' : Conn) where
    changed_or :
        (prev : Status) (row : Option Status) (c₁ : Conn)
        → exec (update_status_row id new paid_at now) c ≡ (ok row, c₁)
        → or_classify id row c₁ ≡ (ok prev, c')
        → (p : Payment) × (find_payment id c.db ≡ some p) × RowMoved c.db c'.db prev p
    unfolding update_status_row
    changed_or prev none c₁ ran rest = absurd (classify-err id c₁ rest)
    changed_or prev (some s) c₁ ran rest =
        update_at-some c.db c'.db prev (find_payment id c.db)
          (exec-ok _ c {c' = c'} (ran ∙ cc rest))

    unchanged :
        (e : Error) (row : Option Status) (c₁ : Conn)
        → exec (update_status_row id new paid_at now) c ≡ (ok row, c₁)
        → or_classify id row c₁ ≡ (err e, c')
        → c'.db ≡ c.db
    unfolding update_status_row
    unchanged e none c₁ ran rest =
        ap (λ r. r.1.db) (sym rest)
        ∙ classify-ReadsOnly Status id c₁
        ∙ update_at-none c.db c₁.db (find_payment id c.db) (exec-ok _ c ran)
    unchanged e (some s) c₁ ran rest = cc

    -- `UpdateStatus` that ended well has found the payment pending, and has made one change: its
    -- status is the new one, `expired`, `failed` or `cancelled`, with the given time of payment. It
    -- returns the status that the payment had.
    pub update_status-ok :
        (prev : Status)
        → update_status id new paid_at now c ≡ (ok prev, c')
        → (p : Payment) × (p.status ≡ prev) × Moves id new paid_at now p c.db c'.db
    unfolding update_status
    update_status-ok prev h = elim (Bool-cases (status_eq new paid || status_eq new refunded)) [
      | inl barred ↦ absurd (cc (rw barred at h))
      | inr other ↦ elim (Bool-cases (is_nil (allowed_source_statuses new))) [
        | inl no_source ↦ absurd (cc (rw (other, no_source) at h))
        | inr source ↦
            let (row, c₁, ran, rest) =
              >>=-ok (exec (update_status_row id new paid_at now)) (or_classify id) c
                (rw (other, source) at h) in
            let (p, found, moved) = changed_or prev row c₁ ran rest in
            let (g, s, e) = moved in
            (
              p,
              sym s,
              record {
                found = found;
                ended = was_pending p new g (ground arith) (ground arith);
                allowed = g;
                not_paid = ground arith;
                not_refunded = ground arith;
                books = e;
              },
            )
      ]
    ]

    -- `UpdateStatus` that ended in an error has changed nothing.
    pub update_status-err :
        (e : Error) → update_status id new paid_at now c ≡ (err e, c') → c'.db ≡ c.db
    unfolding update_status
    update_status-err e h = elim (Bool-cases (status_eq new paid || status_eq new refunded)) [
      | inl barred ↦ ap (λ r. r.1.db) (sym (rw barred at h))
      | inr other ↦ elim (Bool-cases (is_nil (allowed_source_statuses new))) [
        | inl no_source ↦ ap (λ r. r.1.db) (sym (rw (other, no_source) at h))
        | inr source ↦
            elim (>>=-err (exec (update_status_row id new paid_at now)) (or_classify id) c
              (rw (other, source) at h)) [
                | inl broken ↦ exec-err _ c broken
                | inr (row, c₁, ran, rest) ↦ unchanged e row c₁ ran rest
              ]
      ]
    ]
