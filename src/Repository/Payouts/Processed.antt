-- ===== src/Repository/Payouts/Processed.antt =====
-- What `MarkPaid` and `Reject` of payout_repository.go have done when they ended well, and that
-- they have done nothing otherwise.
use text.Mathlib.Text.{◌==◌ as str_eq}
use pg_aggregator_back.Common.{
  ℕ, String, true, Option, none, some, ◌∷◌, ◌≡◌, refl, sym, ap, subst, ◌∙◌, pos, ltb_ℤ, ltb, arith,
}
use pg_aggregator_back.Errors.{Error, ok, err, reason_required, text_too_long}
use pg_aggregator_back.Payment.Request.{Strings}
use pg_aggregator_back.Ledger.{
  payout_reversal, PayoutStatus, requested, transferred, rejected, Payout, is_requested,
}
use pg_aggregator_back.Store.{Db, Conn}
use pg_aggregator_back.Store.Table.{find, modify}
use pg_aggregator_back.Store.Action.{◌>>=◌, query, exec}
use pg_aggregator_back.Store.Inversion.{
  some-injective, pure-ok, >>=-ok, query-ReadsOnly, >>=-ReadsOnly, ReadsOnly, exec-ok,
  transaction-keeps, transaction-none, Atomic, guard-ok, guard-Atomic, transaction-Atomic,
  exec-Atomic, >>=-Atomic,
}
use pg_aggregator_back.Repository.Insert.{insert_entry}
use pg_aggregator_back.Repository.Insert.Effect.{insert_entry-ok}
use pg_aggregator_back.Repository.Payouts.{
  payout_key, Decision, classify_unprocessed, as_transferred, as_rejected, process_at, process_row,
  or_unprocessed, max_payout_reference_len, max_payout_reason_len, mark_transferred, reversal_entry,
  reversed, reject_transaction, reject,
}

-- A committed decision about the payout `q`, by the change `f` of its row.
pub record Processes (id : ℕ) (f : Payout → Payout) (q : Payout) (d d' : Db) : Type 0 where
  pub found : find payout_key id d.payouts ≡ some q
  pub open_before : is_requested q.status ≡ true
  pub books : d' ≡ record d { payouts = modify payout_key q.id f d.payouts }

-- The payout `q`, rejected for the reason `note`.
abbrev pub rejected_payout : Decision → String → Payout → Payout
rejected_payout k note q = record q {
  status = rejected;
  processed_by = k.admin_id;
  processed_at = some k.now;
  reject_reason = some note;
}

requested_of : (s : PayoutStatus) → is_requested s ≡ true → s ≡ requested
requested_of requested h = refl
requested_of transferred h = cc
requested_of rejected h = cc

-- A committed rejection: the row, and the reversal of the debit.
pub record Rejects (k : Decision) (note : String) (q : Payout) (d d' : Db) : Type 0 where
  pub found : find payout_key k.payout_id d.payouts ≡ some q
  pub was_requested : q.status ≡ requested
  pub open_before : is_requested q.status ≡ true
  pub amount_pos : ltb_ℤ (pos 0) q.amount ≡ true
  pub books : d' ≡ record d {
    payouts = modify payout_key q.id (rejected_payout k note) d.payouts;
    ledger =
        record {
          id = k.entry_id;
          merchant_id = q.merchant_id;
          entry_type = payout_reversal;
          amount = q.amount;
          payment_id = none;
          payout_id = some q.id;
          refund_id = none;
          note = "payout rejected";
          created_by = k.admin_id;
          created_at = k.now;
        }
        ∷ d.ledger;
  }

module _ (id : ℕ) (f : Payout → Payout) where
  process_at-some :
      (o : Option Payout) (d d' : Db) (s : Payout)
      → ok (process_at f d o) ≡ ok (some s, d')
      → (q : Payout) × (o ≡ some q)
        × (s ≡ f q)
        × (is_requested q.status ≡ true)
        × (d' ≡ record d { payouts = modify payout_key q.id f d.payouts })
  process_at-some none d d' s h = cc
  process_at-some (some q) d d' s h = (q, refl, ground arith, ground arith, ground arith)

  process_at-none : (o : Option Payout) (d d' : Db) → ok (process_at f d o) ≡ ok (none, d') → d' ≡ d
  process_at-none none d d' h = ground arith
  process_at-none (some q) d d' h = ground arith

  process_row-some :
      (d d' : Db) (s : Payout)
      → process_row id f d ≡ ok (some s, d')
      → (q : Payout) × (s ≡ f q) × Processes id f q d d'
  unfolding process_row
  process_row-some d d' s h =
      let (q, found, is_f, still_open, books) =
        process_at-some (find payout_key id d.payouts) d d' s h in
      (q, is_f, record { found = found; open_before = still_open; books = books })

  process_row-none : (d d' : Db) → process_row id f d ≡ ok (none, d') → d' ≡ d
  unfolding process_row
  process_row-none d d' h = process_at-none (find payout_key id d.payouts) d d' h

classify_unprocessed-err :
    {A : Type 0} (id : ℕ) (c c' : Conn) {a : A} → classify_unprocessed id c ≡ (ok a, c') → ⊥
unfolding classify_unprocessed
classify_unprocessed-err id c c' h = let (x, c₁, _, e) = >>=-ok (query (λ d. ok _)) _ c h in cc e

classify_unprocessed-ReadsOnly : (A : Type 0) (id : ℕ) → ReadsOnly (classify_unprocessed {A = A} id)
unfolding classify_unprocessed
classify_unprocessed-ReadsOnly A id =
    >>=-ReadsOnly (query (λ d. ok _)) _ (query-ReadsOnly _) (λ x c. refl)

or_unprocessed-ok :
    (id : ℕ) (row : Option Payout) (s : Payout) (c c' : Conn)
    → or_unprocessed id row c ≡ (ok s, c')
    → (row ≡ some s) × (c'.db ≡ c.db)
or_unprocessed-ok id none s c c' h = absurd (classify_unprocessed-err id c c' h)
or_unprocessed-ok id (some x) s c c' h = let (e, d) = pure-ok x s c c' h in (ap some e, d)

or_unprocessed-err :
    (id : ℕ) (row : Option Payout) (c c' : Conn) (e : Error)
    → or_unprocessed id row c ≡ (err e, c')
    → (row ≡ none) × (c'.db ≡ c.db)
or_unprocessed-err id none c c' e h =
    (refl, ap (λ r. r.1.db) (sym h) ∙ classify_unprocessed-ReadsOnly Payout id c)
or_unprocessed-err id (some x) c c' e h = cc

module _ (go : Strings) (k : Decision) where
  abbrev note_of : String
  note_of = go.trim_space k.note

  -- `MarkPaid` that ended well has marked one open payout, and written no ledger entry.
  pub mark_transferred-ok :
      (s : Payout) (c c' : Conn)
      → mark_transferred go k c ≡ (ok s, c')
      → (q : Payout) × (s ≡ as_transferred k note_of q)
        × Processes k.payout_id (as_transferred k note_of) q c.db c'.db
  unfolding mark_transferred
  mark_transferred-ok s c c' h =
      let (_, h₁) = guard-ok (str_eq note_of "") reason_required _ c c' h in
      let (_, h₂) =
        guard-ok (ltb max_payout_reference_len (go.rune_count note_of)) text_too_long _ c c' h₁ in
      let (row, c₁, ran, rest) =
        >>=-ok (exec (process_row k.payout_id (as_transferred k note_of)))
          (or_unprocessed k.payout_id) c h₂ in
      let (is_row, same) = or_unprocessed-ok k.payout_id row s c₁ c' rest in
      rw (same) (
        process_row-some k.payout_id (as_transferred k note_of) c.db c₁.db s
          (exec-ok _ c {a = some s} {c' = c₁} (rw (is_row) at ran)))

  transferred-err :
      (row : Option Payout) (c c₁ c' : Conn) (e : Error)
      → exec (process_row k.payout_id (as_transferred k note_of)) c ≡ (ok row, c₁)
      → or_unprocessed k.payout_id row c₁ ≡ (err e, c')
      → c'.db ≡ c.db
  transferred-err row c c₁ c' e ran rest =
      let (is_none, same) = or_unprocessed-err k.payout_id row c₁ c' e rest in
      same
      ∙ process_row-none k.payout_id (as_transferred k note_of) c.db c₁.db
          (exec-ok _ c {a = none} {c' = c₁} (rw (is_none) at ran))

  pub mark_transferred-Atomic : Atomic (mark_transferred go k)
  unfolding mark_transferred
  mark_transferred-Atomic = guard-Atomic (str_eq note_of "") reason_required _ (
      guard-Atomic (ltb max_payout_reference_len (go.rune_count note_of)) text_too_long _ (
        >>=-Atomic (exec (process_row k.payout_id (as_transferred k note_of)))
          (or_unprocessed k.payout_id) (exec-Atomic _) transferred-err))

  reversed-ok :
      (row : Option Payout) (s : Payout) (c c' : Conn)
      → reversed k row c ≡ (ok (some s), c')
      → (row ≡ some s)
        × ((ltb_ℤ (pos 0) s.amount ≡ true)
            × (c'.db ≡ record c.db { ledger = reversal_entry k s ∷ c.db.ledger }))
  reversed-ok none s c c' h = cc
  reversed-ok (some x) s c c' h =
      let (u, c₁, ran, rest) = >>=-ok (exec (insert_entry (reversal_entry k x))) _ c h in
      let (is_s, same) = pure-ok (some x) (some s) c₁ c' rest in
      let (books, sign, _) = insert_entry-ok (reversal_entry k x) c.db (exec-ok _ c ran) in
      (
        is_s,
        subst
            (λ y.
              (ltb_ℤ (pos 0) y.amount ≡ true)
              × (c'.db ≡ record c.db { ledger = reversal_entry k y ∷ c.db.ledger }))
            (some-injective is_s) (sign, same ∙ books),
      )

  -- What a rejection has done, at the payout that it returned.
  abbrev pub RejectsSome : Payout → Db → Db → Type 0
  RejectsSome s d d' = (q : Payout) × (s ≡ rejected_payout k note_of q) × Rejects k note_of q d d'

  Rejects-of :
      (d d₁ d' : Db) (s q : Payout)
      → s ≡ as_rejected k note_of q
      → Processes k.payout_id (as_rejected k note_of) q d d₁
      → (ltb_ℤ (pos 0) s.amount ≡ true)
        × (d' ≡ record d₁ { ledger = reversal_entry k s ∷ d₁.ledger })
      → Rejects k note_of q d d'
  Rejects-of d d₁ d' s q is_s moved (sign, books) = record {
    found = moved.found;
    was_requested = requested_of q.status moved.open_before;
    open_before = moved.open_before;
    amount_pos = rw (is_s) at sign;
    books = books ∙ rw (moved.books, is_s) refl;
  }

  reject_body-ok :
      (s : Payout) (c c' : Conn)
      → (exec (process_row k.payout_id (as_rejected k note_of)) >>= reversed k) c
        ≡ (ok (some s), c')
      → RejectsSome s c.db c'.db
  reject_body-ok s c c' h =
      let (row, c₁, ran, rest) =
        >>=-ok (exec (process_row k.payout_id (as_rejected k note_of))) (reversed k) c h in
      let (is_row, facts) = reversed-ok row s c₁ c' rest in
      let (q, is_s, moved) =
        process_row-some k.payout_id (as_rejected k note_of) c.db c₁.db s
          (exec-ok _ c {a = some s} {c' = c₁} (rw (is_row) at ran)) in
      (q, is_s, Rejects-of c.db c₁.db c'.db s q is_s moved facts)

  -- `Reject` that ended well has made one payout that was requested `rejected`, with the admin, the
  -- time and the trimmed reason, has returned its amount to its merchant's ledger, and has changed
  -- nothing else; it returns the rejected payout.
  pub reject-ok : (s : Payout) (c c' : Conn) → reject go k c ≡ (ok s, c') → RejectsSome s c.db c'.db
  unfolding reject reject_transaction
  reject-ok s c c' h =
      let (_, h₁) = guard-ok (str_eq note_of "") reason_required _ c c' h in
      let (_, h₂) =
        guard-ok (ltb max_payout_reason_len (go.rune_count note_of)) text_too_long _ c c' h₁ in
      let (row, c₁, ran, rest) =
        >>=-ok (reject_transaction k note_of) (or_unprocessed k.payout_id) c h₂ in
      let (is_row, same) = or_unprocessed-ok k.payout_id row s c₁ c' rest in
      rw (same) (transaction-keeps (RejectsSome s) _ c c₁ s (reject_body-ok s) (rw (is_row) at ran))

  rejected-err :
      (row : Option Payout) (c c₁ c' : Conn) (e : Error)
      → reject_transaction k note_of c ≡ (ok row, c₁)
      → or_unprocessed k.payout_id row c₁ ≡ (err e, c')
      → c'.db ≡ c.db
  unfolding reject_transaction
  rejected-err row c c₁ c' e ran rest =
      let (is_none, same) = or_unprocessed-err k.payout_id row c₁ c' e rest in
      same ∙ transaction-none _ c (rw (is_none) at ran)

  pub reject-Atomic : Atomic (reject go k)
  unfolding reject reject_transaction
  reject-Atomic = guard-Atomic (str_eq note_of "") reason_required _ (
      guard-Atomic (ltb max_payout_reason_len (go.rune_count note_of)) text_too_long _ (
        >>=-Atomic (reject_transaction k note_of) (or_unprocessed k.payout_id)
          (transaction-Atomic _) rejected-err))
