-- ===== src/Accounting/Total.antt =====
-- The sum of a weight over a table, and what an update of one row does to it.
use pg_aggregator_back.Common.{
  ℕ, Bool, false, some, List, [], ◌∷◌, ◌≡◌, ℤ, pos, ◌+ℤ◌, ◌-ℤ◌, ◌≤ℤ◌, +ℤ_parts, int_laws, arith,
  ◌==◌, Bool-cases, inl, inr,
}
use pg_aggregator_back.Ledger.{EntryType, Entry}
use pg_aggregator_back.Repository.Balances.{sum_of}
use pg_aggregator_back.Store.Table.{find, modify, find-key}

replaced : (a b t : ℤ) → b +ℤ t ≡ a +ℤ t -ℤ a +ℤ b
replaced a b t = grind int_laws

restored : (t x : ℤ) → t -ℤ x +ℤ x ≡ t
restored t x = grind int_laws

carried : (a t x y : ℤ) → a +ℤ (t -ℤ x +ℤ y) ≡ a +ℤ t -ℤ x +ℤ y
carried a t x y = grind int_laws

module _ {A : Type 0} (w : A → ℤ) where
  abbrev pub total : List A → ℤ
  total [] = pos 0
  total (x ∷ xs) = w x +ℤ total xs

  -- The update of a row changes the sum by the change of that row's weight.
  pub total-modify :
      (key : A → ℕ) (k : ℕ) (f : A → A) (xs : List A) {x : A}
      → find key k xs ≡ some x
      → total (modify key k f xs) ≡ total xs -ℤ w x +ℤ w (f x)
  total-modify key k f [] h = cc
  total-modify key k f (y ∷ xs) {x} h = elim (Bool-cases (key y == k)) [
    | inl same ↦
        let is_x : y ≡ x = cc (rw same at h) in
        rw (same, ← is_x) (replaced (w y) (w (f y)) (total xs))
    | inr other ↦
        let below = total-modify key k f xs (rw other at h) in
        rw (other, below) (carried (w y) (total xs) (w x) (w (f x)))
  ]

  pub total-nonneg : ((x : A) → pos 0 ≤ℤ w x) → (xs : List A) → pos 0 ≤ℤ total xs
  total-nonneg h [] = omega arith
  total-nonneg h (x ∷ xs) = grind (arith, +ℤ_parts, h x, total-nonneg h xs)

-- A row that is found is found again under its own key.
pub find_again :
    {A : Type 0} (key : A → ℕ) (k : ℕ) (xs : List A) {x : A}
    → find key k xs ≡ some x
    → find key (key x) xs ≡ some x
find_again key k xs h = rw (find-key key k xs h) h

-- An update after which the row weighs the same.
pub total-modify_same :
    {A : Type 0} (w : A → ℤ) (key : A → ℕ) (k : ℕ) (f : A → A) (xs : List A) {x : A}
    → find key k xs ≡ some x
    → w (f x) ≡ w x
    → total w (modify key (key x) f xs) ≡ total w xs
total-modify_same w key k f xs {x} h e =
    rw (total-modify w key (key x) f xs (find_again key k xs h), e) (restored (total w xs) (w x))

-- An entry that the filter leaves out does not count.
pub sum_skip :
    (f : EntryType → Bool) (m : ℕ) (e : Entry) (es : List Entry)
    → f e.entry_type ≡ false
    → sum_of f m (e ∷ es) ≡ sum_of f m es
sum_skip f m e es h = ground arith
