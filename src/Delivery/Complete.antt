-- ===== src/Delivery/Complete.antt =====
-- A SELECT whose LIMIT is large enough picks every row that passes its test.
use pg_aggregator_back.Common.{
  ℕ, zero, suc, Bool, true, ◌+◌, ◌≤◌, ◌||◌, List, [], ◌∷◌, ◌≡◌, refl, ◌∙◌, arith, leb, length, take,
  filter, map, insert_by, sort_by, elem, ◌==◌, Bool-cases, inl, inr,
}
use pg_aggregator_back.Delivery.Selection.{Member}

module _ {A : Type 0} (key : A → ℕ) where
  length-insert :
      (order : A → ℕ) (x : A) (ys : List A) → length (insert_by order x ys) ≡ length ys + 1
  length-insert order x [] = omega arith
  length-insert order x (y ∷ ys) = elim (Bool-cases (leb (order x) (order y))) [
    | inl t ↦ rw (t) omega arith
    | inr f ↦ let e = length-insert order x ys in rw (f) omega arith
  ]

  length-sort : (order : A → ℕ) (xs : List A) → length (sort_by order xs) ≡ length xs
  length-sort order [] = refl
  length-sort order (x ∷ xs) =
      let a = length-insert order x (sort_by order xs) in
      let b = length-sort order xs in omega arith

  take-all : (n : ℕ) (xs : List A) → length xs ≤ n → take n xs ≡ xs
  take-all zero [] h = refl
  take-all zero (x ∷ xs) h = absurd (omega arith)
  take-all (suc n) [] h = refl
  take-all (suc n) (x ∷ xs) h = rw (take-all n xs (omega arith)) refl

  insert-elem :
      (k : ℕ) (order : A → ℕ) (x : A) (ys : List A)
      → elem k (map key (insert_by order x ys)) ≡ (key x == k || elem k (map key ys))
  insert-elem k order x [] = refl
  insert-elem k order x (y ∷ ys) = ground (arith, insert-elem k order x ys)

  sort-elem :
      (k : ℕ) (order : A → ℕ) (xs : List A)
      → elem k (map key (sort_by order xs)) ≡ elem k (map key xs)
  sort-elem k order [] = refl
  sort-elem k order (x ∷ xs) =
      insert-elem k order x (sort_by order xs) ∙ (rw (sort-elem k order xs) refl)

  filter-elem :
      (x : A) (p : A → Bool) (xs : List A)
      → Member x xs
      → p x ≡ true
      → elem (key x) (map key (filter p xs)) ≡ true
  filter-elem x p [] m h = absurd m
  filter-elem x p (y ∷ ys) (inl e) h = rw (e, h) ground arith
  filter-elem x p (y ∷ ys) (inr m) h =
      let later = filter-elem x p ys m h in
      elim (Bool-cases (p y)) [ inl t ↦ rw (t, later) ground arith | inr f ↦ rw (f) later ]

  pub all_picked :
      (x : A) (n : ℕ) (order : A → ℕ) (p : A → Bool) (xs : List A)
      → Member x xs
      → p x ≡ true
      → length (filter p xs) ≤ n
      → elem (key x) (map key (take n (sort_by order (filter p xs)))) ≡ true
  all_picked x n order p xs m h enough =
      let short : length (sort_by order (filter p xs)) ≤ n =
        rw (length-sort order (filter p xs)) enough in
      rw (take-all n (sort_by order (filter p xs)) short, sort-elem (key x) order (filter p xs))
        (filter-elem x p xs m h)
