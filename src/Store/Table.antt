-- ===== src/Store/Table.antt =====
-- Tables as lists of rows with a numeric primary key: lookup, update of the row with a key, and
-- what they do to one another.
use pg_aggregator_back.Common.{
  ℕ, Option, none, some, List, [], ◌∷◌, ◌≡◌, arith, ◌==◌, if◌then◌else◌,
}

module _ {A : Type 0} (key : A → ℕ) where
  abbrev pub find : ℕ → List A → Option A
  find k [] = none
  find k (x ∷ xs) = if key x == k then some x else find k xs

  abbrev pub modify : ℕ → (A → A) → List A → List A
  modify k f [] = []
  modify k f (x ∷ xs) = if key x == k then f x ∷ xs else x ∷ modify k f xs

module _ {A : Type 0} (key : A → ℕ) where
  pub find-key : (k : ℕ) (xs : List A) {x : A} → find key k xs ≡ some x → key x ≡ k
  find-key k [] h = cc
  find-key k (y ∷ xs) {x} h = ground (arith, find-key k xs {x = x})

  -- An update that keeps the key is seen by a lookup of that key alone.
  pub find-modify :
      (k j : ℕ) (f : A → A) (xs : List A) {x : A}
      → find key k xs ≡ some x
      → key (f x) ≡ key x
      → find key j (modify key k f xs) ≡ (if k == j then some (f x) else find key j xs)
  find-modify k j f [] h e = cc
  find-modify k j f (y ∷ xs) {x} h e = ground (arith, find-modify k j f xs {x = x})
