-- ===== src/Repository/Balances/Effect.antt =====
-- What `Adjust` has done when it ended well, and that it has done nothing otherwise.
use text.Mathlib.Text.{◌==◌ as str_eq}
use pg_aggregator_back.Common.{
  String, Bool, false, ◌||◌, ◌∷◌, ◌≡◌, ℤ, pos, negsuc, ltb_ℤ, eqb_ℤ, ltb,
}
use pg_aggregator_back.Errors.{Result, ok, err, invalid_adjustment, reason_required, text_too_long}
use pg_aggregator_back.Payment.Request.{Strings}
use pg_aggregator_back.Ledger.{Entry, max_adjustment, max_reason_len}
use pg_aggregator_back.Store.{Db, Conn}
use pg_aggregator_back.Store.Inversion.{exec-ok, Atomic, guard-ok, guard-Atomic, exec-Atomic}
use pg_aggregator_back.Repository.Insert.{insert_entry}
use pg_aggregator_back.Repository.Insert.Effect.{insert_entry-ok}
use pg_aggregator_back.Repository.Balances.{Adjustment, adjustment_entry, adjusted, adjust}

abbrev out_of_range : ℤ → Bool
out_of_range a = eqb_ℤ a (pos 0) || ltb_ℤ max_adjustment a || ltb_ℤ a (negsuc 999999999999)

-- A committed adjustment with the entry `e`.
pub record Adjusts (a : Adjustment) (reason : String) (e : Entry) (d d' : Db) : Type 0 where
  pub entry : e ≡ adjustment_entry a reason
  pub in_range : out_of_range a.amount ≡ false
  pub books : d' ≡ record d { ledger = adjustment_entry a reason ∷ d.ledger }

adjusted-ok :
    (x e : Entry) (d' : Db) (r : Result (Unit {0} × Db))
    → adjusted x r ≡ ok (e, d')
    → (e ≡ x) × (r ≡ ok (tt, d'))
adjusted-ok x e d' (ok (u, d)) h = (cc, cc)
adjusted-ok x e d' (err y) h = cc

module _ (go : Strings) (a : Adjustment) where
  abbrev reason_of : String
  reason_of = go.trim_space a.reason

  -- An adjustment that ended well.
  pub adjust-ok :
      (e : Entry) (c c' : Conn) → adjust go a c ≡ (ok e, c') → Adjusts a reason_of e c.db c'.db
  unfolding adjust
  adjust-ok e c c' h =
      let (range, h₁) = guard-ok (out_of_range a.amount) invalid_adjustment _ c c' h in
      let (_, h₂) = guard-ok (str_eq reason_of "") reason_required _ c c' h₁ in
      let (_, h₃) =
        guard-ok (ltb max_reason_len (go.rune_count reason_of)) text_too_long _ c c' h₂ in
      let (is_e, inserted) =
        adjusted-ok (adjustment_entry a reason_of) e c'.db
          (insert_entry (adjustment_entry a reason_of) c.db) (exec-ok _ c h₃) in
      let (books, _, _) = insert_entry-ok (adjustment_entry a reason_of) c.db inserted in
      record { entry = is_e; in_range = range; books = books }

  pub adjust-Atomic : Atomic (adjust go a)
  unfolding adjust
  adjust-Atomic = guard-Atomic (out_of_range a.amount) invalid_adjustment _ (
      guard-Atomic (str_eq reason_of "") reason_required _ (
        guard-Atomic (ltb max_reason_len (go.rune_count reason_of)) text_too_long _
          (exec-Atomic _)))
