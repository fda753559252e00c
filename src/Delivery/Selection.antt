-- ===== src/Delivery/Selection.antt =====
-- The rows that a SELECT with WHERE, ORDER BY and LIMIT picks, and what holds for one row for each
-- key.
use pg_aggregator_back.Common.{
  ℕ, zero, suc, Bool, true, false, ◌&&◌, ◌||◌, List, [], ◌∷◌, ◌≡◌, refl, sym, ap, subst, ◌∙◌, arith,
  take, filter, map, insert_by, sort_by, elem, ◌==◌, Bool-cases, ◌⊎◌, inl, inr,
}
use pg_aggregator_back.Delivery.{CallbackDelivery, delivery_key}
use pg_aggregator_back.Delivery.Queue.{distinct_keys}

module _ {A : Type 0} where
  abbrev pub Member : A → List A → Type 0
  Member x [] = ⊥
  Member x (y ∷ ys) = (y ≡ x) ⊎ Member x ys

module _ {A : Type 0} (key : A → ℕ) where
  elem-insert :
      (k : ℕ) (order : A → ℕ) (x : A) (ys : List A)
      → elem k (map key (insert_by order x ys)) ≡ true
      → (key x == k || elem k (map key ys)) ≡ true
  elem-insert k order x [] h = h
  elem-insert k order x (y ∷ ys) h = ground (arith, elem-insert k order x ys)

  elem-sort :
      (k : ℕ) (order : A → ℕ) (xs : List A)
      → elem k (map key (sort_by order xs)) ≡ true
      → elem k (map key xs) ≡ true
  elem-sort k order [] h = h
  elem-sort k order (x ∷ xs) h =
      let step = elem-insert k order x (sort_by order xs) h in ground (arith, elem-sort k order xs)

  elem-take :
      (k n : ℕ) (xs : List A) → elem k (map key (take n xs)) ≡ true → elem k (map key xs) ≡ true
  elem-take k zero xs h = cc
  elem-take k (suc n) [] h = h
  elem-take k (suc n) (x ∷ xs) h = ground (arith, elem-take k n xs)

  elem-filter :
      (k : ℕ) (p : A → Bool) (xs : List A)
      → elem k (map key (filter p xs)) ≡ true
      → (x : A) × Member x xs × (key x ≡ k) × (p x ≡ true)
  elem-filter k p [] h = cc
  elem-filter k p (x ∷ xs) h = elim (Bool-cases (p x)) [
    | inl t ↦ elim (Bool-cases (key x == k)) [
      | inl e ↦ (x, inl refl, ground arith, t)
      | inr n ↦
          let (y, there, own, py) = elem-filter k p xs (rw (t, n) at h) in (y, inr there, own, py)
    ]
    | inr f ↦ let (y, there, own, py) = elem-filter k p xs (rw f at h) in (y, inr there, own, py)
  ]

  -- A picked key is the key of a row that passes the test.
  pub picked :
      (k n : ℕ) (order : A → ℕ) (p : A → Bool) (xs : List A)
      → elem k (map key (take n (sort_by order (filter p xs)))) ≡ true
      → (x : A) × Member x xs × (key x ≡ k) × (p x ≡ true)
  picked k n order p xs h =
      elem-filter k p xs
        (elem-sort k order (filter p xs) (elem-take k n (sort_by order (filter p xs)) h))

  pub Member-elem : (x : A) (xs : List A) → Member x xs → elem (key x) (map key xs) ≡ true
  Member-elem x [] m = absurd m
  Member-elem x (y ∷ ys) (inl e) = rw (e) ground arith
  Member-elem x (y ∷ ys) (inr m) = let later = Member-elem x ys m in ground arith

pub apart :
    (r : CallbackDelivery) (rs : List CallbackDelivery) (k : ℕ)
    → distinct_keys (r ∷ rs) ≡ true
    → elem k (map delivery_key rs) ≡ true
    → r.id ≡ k
    → ⊥
apart r rs k d there e = elim (Bool-cases (elem r.id (map delivery_key rs))) [
  | inl t ↦ cc (rw t at d)
  | inr f ↦ cc (rw e at f, there)
]

pub later_distinct :
    (r : CallbackDelivery) (rs : List CallbackDelivery)
    → distinct_keys (r ∷ rs) ≡ true
    → distinct_keys rs ≡ true
later_distinct r rs d = elim (Bool-cases (elem r.id (map delivery_key rs))) [
  | inl t ↦ absurd (cc (rw t at d))
  | inr f ↦ rw f at d
]

-- Two rows of one key are one row.
pub one_row :
    (x y : CallbackDelivery) (rs : List CallbackDelivery)
    → distinct_keys rs ≡ true
    → Member x rs
    → Member y rs
    → x.id ≡ y.id
    → x ≡ y
one_row x y [] d mx my e = absurd mx
one_row x y (r ∷ rs) d (inl a) (inl b) e = sym a ∙ b
one_row x y (r ∷ rs) d (inl a) (inr b) e =
    absurd (apart r rs y.id d (Member-elem delivery_key y rs b) (ap (λ q. q.id) a ∙ e))
one_row x y (r ∷ rs) d (inr a) (inl b) e =
    absurd (apart r rs x.id d (Member-elem delivery_key x rs a) (ap (λ q. q.id) b ∙ sym e))
one_row x y (r ∷ rs) d (inr a) (inr b) e = one_row x y rs (later_distinct r rs d) a b e

pub head_alone :
    (r : CallbackDelivery) (rs : List CallbackDelivery) (k : ℕ)
    → distinct_keys (r ∷ rs) ≡ true
    → r.id ≡ k
    → elem k (map delivery_key rs) ≡ false
head_alone r rs k d e = elim (Bool-cases (elem k (map delivery_key rs))) [
  | inl t ↦ absurd (apart r rs k d t e)
  | inr f ↦ f
]

-- The rows of a picked key pass the test.
pub picked_row :
    (r : CallbackDelivery) (n : ℕ) (order : CallbackDelivery → ℕ) (p : CallbackDelivery → Bool)
    (rs : List CallbackDelivery)
    → distinct_keys rs ≡ true
    → Member r rs
    → elem r.id (map delivery_key (take n (sort_by order (filter p rs)))) ≡ true
    → p r ≡ true
picked_row r n order p rs d m h =
    let (x, there, own, good) = picked delivery_key r.id n order p rs h in
    subst (λ q. p q ≡ true) (one_row x r rs d there m own) good

-- A conjunction that is true.
pub and-both : {a b : Bool} → (a && b) ≡ true → (a ≡ true) × (b ≡ true)
and-both {a = true} h = (refl, h)
and-both {a = false} h = cc
