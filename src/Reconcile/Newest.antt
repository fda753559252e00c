-- ===== src/Reconcile/Newest.antt =====
-- ORDER BY created_at DESC, id DESC over rows with different ids.
use pg_aggregator_back.Common.{
  ℕ, Bool, true, false, ◌||◌, List, [], ◌∷◌, ◌≡◌, refl, sym, ◌∙◌, arith, map, filter, elem, ◌==◌,
  Bool-cases, inl, inr, if◌then◌else◌,
}
use pg_aggregator_back.Payment.{Payment}
use pg_aggregator_back.Repository.Payments.{payment_key}
use pg_aggregator_back.Repository.Scans.{row_less, insert_newest, newest_first}

-- `x` comes after `y`.
abbrev pub older : Payment → Payment → Bool
older x y = row_less x.created_at x.id y.created_at y.id

abbrev pub leads : Payment → List Payment → Bool
leads x [] = true
leads x (y ∷ ys) = if older y x then leads x ys else false

abbrev pub ordered : List Payment → Bool
ordered [] = true
ordered (x ∷ xs) = if leads x xs then ordered xs else false

-- The primary key.
abbrev pub distinct_ids : List Payment → Bool
distinct_ids [] = true
distinct_ids (x ∷ xs) = if elem x.id (map payment_key xs) then false else distinct_ids xs

row_less_trans :
    (a i b j c k : ℕ) → row_less a i b j ≡ true → row_less b j c k ≡ true → row_less a i c k ≡ true
row_less_trans a i b j c k h h' = ground arith

pub row_less_asym : (a i b j : ℕ) → row_less a i b j ≡ true → row_less b j a i ≡ false
row_less_asym a i b j h = ground arith

row_less_total : (a i b j : ℕ) → row_less a i b j ≡ false → j == i ≡ false → row_less b j a i ≡ true
row_less_total a i b j h n = ground arith

pub row_less_irrefl : (a i : ℕ) → row_less a i a i ≡ false
row_less_irrefl a i = ground arith

pub leads-head :
    (x y : Payment) (ys : List Payment)
    → leads x (y ∷ ys) ≡ true
    → (older y x ≡ true) × (leads x ys ≡ true)
leads-head x y ys h = elim (Bool-cases (older y x)) [
  | inl t ↦ (t, rw t at h)
  | inr f ↦ absurd (cc (rw f at h))
]

pub ordered-head :
    (x : Payment) (xs : List Payment)
    → ordered (x ∷ xs) ≡ true
    → (leads x xs ≡ true) × (ordered xs ≡ true)
ordered-head x xs h = elim (Bool-cases (leads x xs)) [
  | inl t ↦ (t, rw t at h)
  | inr f ↦ absurd (cc (rw f at h))
]

pub distinct-head :
    (x : Payment) (xs : List Payment)
    → distinct_ids (x ∷ xs) ≡ true
    → (elem x.id (map payment_key xs) ≡ false) × (distinct_ids xs ≡ true)
distinct-head x xs h = elim (Bool-cases (elem x.id (map payment_key xs))) [
  | inl t ↦ absurd (cc (rw t at h))
  | inr f ↦ (f, rw f at h)
]

-- A key that is not among those of a list: not its head's, nor later.
absent-head :
    (k : ℕ) (y : Payment) (ys : List Payment)
    → elem k (map payment_key (y ∷ ys)) ≡ false
    → (y.id == k ≡ false) × (elem k (map payment_key ys) ≡ false)
absent-head k y ys h = elim (Bool-cases (y.id == k)) [
  | inl t ↦ absurd (cc (rw t at h))
  | inr f ↦ (f, rw f at h)
]

leads-older :
    (x y : Payment) (ys : List Payment) → older y x ≡ true → leads y ys ≡ true → leads x ys ≡ true
leads-older x y [] h l = refl
leads-older x y (z ∷ zs) h l =
    let (zy, rest) = leads-head y z zs l in
    let zx = row_less_trans z.created_at z.id y.created_at y.id x.created_at x.id zy h in
    rw (zx) (leads-older x y zs h rest)

leads-filter :
    (q : Payment → Bool) (x : Payment) (ys : List Payment)
    → leads x ys ≡ true
    → leads x (filter q ys) ≡ true
leads-filter q x [] l = refl
leads-filter q x (y ∷ ys) l =
    let (yx, rest) = leads-head x y ys l in
    elim (Bool-cases (q y)) [
      | inl t ↦ rw (t, yx) (leads-filter q x ys rest)
      | inr f ↦ rw (f) (leads-filter q x ys rest)
    ]

insert-leads : (x : Payment) (ys : List Payment) → leads x ys ≡ true → insert_newest x ys ≡ x ∷ ys
insert-leads x [] l = refl
insert-leads x (y ∷ ys) l =
    let (yx, rest) = leads-head x y ys l in
    let xy = row_less_asym y.created_at y.id x.created_at x.id yx in rw (xy) refl

-- A row that is not older than the head leads the list.
leads_or_older :
    (x y : Payment) (ys : List Payment)
    → ordered (y ∷ ys) ≡ true
    → elem x.id (map payment_key (y ∷ ys)) ≡ false
    → older x y ≡ false
    → leads x (y ∷ ys) ≡ true
leads_or_older x y ys o n f =
    let (yl, rest) = ordered-head y ys o in
    let (ne, m) = absent-head x.id y ys n in
    let yx = row_less_total x.created_at x.id y.created_at y.id f ne in
    rw (yx) (leads-older x y ys yx yl)

insert-elem :
    (k : ℕ) (x : Payment) (ys : List Payment)
    → elem k (map payment_key (insert_newest x ys)) ≡ (x.id == k || elem k (map payment_key ys))
insert-elem k x [] = refl
insert-elem k x (y ∷ ys) =
    let rest = insert-elem k x ys in
    elim (Bool-cases (older x y)) [ inl t ↦ rw (t, rest) ground arith | inr f ↦ rw (f) refl ]

newest_first-elem :
    (k : ℕ) (xs : List Payment)
    → elem k (map payment_key (newest_first xs)) ≡ elem k (map payment_key xs)
newest_first-elem k [] = refl
newest_first-elem k (x ∷ xs) =
    insert-elem k x (newest_first xs) ∙ (rw (newest_first-elem k xs) refl)

leads-insert :
    (y x : Payment) (ys : List Payment)
    → older x y ≡ true
    → leads y ys ≡ true
    → leads y (insert_newest x ys) ≡ true
leads-insert y x [] h l = rw (h) refl
leads-insert y x (z ∷ zs) h l =
    let (zy, rest) = leads-head y z zs l in
    elim (Bool-cases (older x z)) [
      | inl t ↦ rw (t, zy) (leads-insert y x zs h rest)
      | inr f ↦ rw (f, h, zy) rest
    ]

insert-ordered :
    (x : Payment) (ys : List Payment)
    → ordered ys ≡ true
    → elem x.id (map payment_key ys) ≡ false
    → ordered (insert_newest x ys) ≡ true
insert-ordered x [] o n = refl
insert-ordered x (y ∷ ys) o n = elim (Bool-cases (older x y)) [
  | inl t ↦
      let (l, rest) = ordered-head y ys o in
      let (ne, m) = absent-head x.id y ys n in
      rw (t, leads-insert y x ys t l) (insert-ordered x ys rest m)
  | inr f ↦ rw (f, leads_or_older x y ys o n f) o
]

pub newest_first-ordered :
    (xs : List Payment) → distinct_ids xs ≡ true → ordered (newest_first xs) ≡ true
newest_first-ordered [] d = refl
newest_first-ordered (x ∷ xs) d =
    let (n, rest) = distinct-head x xs d in
    insert-ordered x (newest_first xs) (newest_first-ordered xs rest)
      (newest_first-elem x.id xs ∙ n)

filter-insert :
    (q : Payment → Bool) (x : Payment) (ys : List Payment)
    → ordered ys ≡ true
    → elem x.id (map payment_key ys) ≡ false
    → filter q (insert_newest x ys) ≡ (if q x then insert_newest x (filter q ys) else filter q ys)
filter-insert q x [] o n = refl
filter-insert q x (y ∷ ys) o n = elim (Bool-cases (older x y)) [
  | inl t ↦
      let (l, rest) = ordered-head y ys o in
      let (ne, m) = absent-head x.id y ys n in
      let ih = filter-insert q x ys rest m in
      elim (Bool-cases (q x)) [
        | inl a ↦
            let ih_a = rw a at ih in
            elim (Bool-cases (q y)) [
              | inl b ↦ rw (t, b, a, t, ih_a) refl
              | inr b ↦ rw (t, b, a, ih_a) refl
            ]
        | inr a ↦
            let ih_a = rw a at ih in
            elim (Bool-cases (q y)) [
              | inl b ↦ rw (t, b, a, ih_a) refl
              | inr b ↦ rw (t, b, a, ih_a) refl
            ]
      ]
  | inr f ↦
      let l = leads_or_older x y ys o n f in
      let front = insert-leads x (filter q (y ∷ ys)) (leads-filter q x (y ∷ ys) l) in
      elim (Bool-cases (q x)) [ inl a ↦ rw (f, a) (sym front) | inr a ↦ rw (f, a) refl ]
]

-- The order of a selection is the selection of the order.
pub filter-newest_first :
    (q : Payment → Bool) (xs : List Payment)
    → distinct_ids xs ≡ true
    → filter q (newest_first xs) ≡ newest_first (filter q xs)
filter-newest_first q [] d = refl
filter-newest_first q (x ∷ xs) d =
    let (n, rest) = distinct-head x xs d in
    let here =
      filter-insert q x (newest_first xs) (newest_first-ordered xs rest)
        (newest_first-elem x.id xs ∙ n) in
    let ih = filter-newest_first q xs rest in
    elim (Bool-cases (q x)) [ inl a ↦ here ∙ (rw (a, ih) refl) | inr a ↦ here ∙ (rw (a, ih) refl) ]
