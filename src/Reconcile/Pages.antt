-- ===== src/Reconcile/Pages.antt =====
-- The batches of ReconcileRecentPayments, one after the other, go through the whole window.
use pg_aggregator_back.Common.{
  ℕ, zero, suc, Bool, true, false, ◌<◌, ◌≤◌, ◌&&◌, Option, none, some, List, [], ◌∷◌, ◌++◌, ◌≡◌,
  refl, sym, ap, subst, ◌∙◌, arith, ltb, length, take, map, filter, elem, ◌==◌, Bool-cases, inl,
  inr,
}
use pg_aggregator_back.Payment.{Payment}
use pg_aggregator_back.Repository.Payments.{payment_key}
use pg_aggregator_back.Repository.Scans.{
  ReconcileCursor, after_cursor, newest_first, reconcile_page,
}
use pg_aggregator_back.Reconcile.{last_cursor, cursor_of, next_cursor}
use pg_aggregator_back.Reconcile.Newest.{
  older, leads, ordered, distinct_ids, leads-head, ordered-head, distinct-head, row_less_irrefl,
  row_less_asym, newest_first-ordered, filter-newest_first,
}

abbrev pub at_payment : Payment → ReconcileCursor
at_payment p = record { created_at = p.created_at; id = p.id }

-- The rest of the scan after a batch: none if the position has wrapped.
abbrev pub unless_wrapped :
    Option ReconcileCursor → (Option ReconcileCursor → List Payment) → List Payment
unless_wrapped none rest = []
unless_wrapped (some k) rest = rest (some k)

-- The payments of one pass of the scan over a table that stays the same, from a position on, as
-- the runs of the job take them; at most `fuel` runs.
unfoldable pub scan :
    (Payment → Bool) → ℕ → ℕ → Option ReconcileCursor → List Payment → List Payment
scan candidate batch zero k ps = []
scan candidate batch (suc fuel) k ps =
    let page = reconcile_page candidate batch k ps in
    page ++ unless_wrapped (next_cursor batch page) (λ k'. scan candidate batch fuel k' ps)

append_nil : (xs : List Payment) → xs ++ [] ≡ xs
append_nil [] = refl
append_nil (x ∷ xs) = rw (append_nil xs) refl

append_assoc : (xs ys zs : List Payment) → (xs ++ ys) ++ zs ≡ xs ++ (ys ++ zs)
append_assoc [] ys zs = refl
append_assoc (x ∷ xs) ys zs = rw (append_assoc xs ys zs) refl

all_older : (x : Payment) (ys : List Payment) → leads x ys ≡ true → filter (λ e. older e x) ys ≡ ys
all_older x [] l = refl
all_older x (y ∷ ys) l = let (yx, rest) = leads-head x y ys l in rw (yx, all_older x ys rest) refl

leads-append :
    (e x : Payment) (pre post : List Payment) → leads e (pre ++ x ∷ post) ≡ true → older x e ≡ true
leads-append e x [] post l = (leads-head e x post l).0
leads-append e x (y ∷ pre) post l = leads-append e x pre post (leads-head e y (pre ++ x ∷ post) l).1

-- After the row `x` of an ordered list come exactly the rows that stand behind it.
behind :
    (x : Payment) (pre post : List Payment)
    → ordered (pre ++ x ∷ post) ≡ true
    → filter (λ e. older e x) (pre ++ x ∷ post) ≡ post
behind x [] post o =
    let (l, rest) = ordered-head x post o in
    rw (row_less_irrefl x.created_at x.id) (all_older x post l)
behind x (e ∷ pre) post o =
    let (l, rest) = ordered-head e (pre ++ x ∷ post) o in
    let xe = leads-append e x pre post l in
    rw (row_less_asym x.created_at x.id e.created_at e.id xe) (behind x pre post rest)

filter-filter :
    (q r : Payment → Bool) (xs : List Payment)
    → filter (λ p. q p && r p) xs ≡ filter r (filter q xs)
filter-filter q r [] = refl
filter-filter q r (x ∷ xs) = elim (Bool-cases (q x)) [
  | inl a ↦ elim (Bool-cases (r x)) [
    | inl b ↦ rw (a, b, filter-filter q r xs) refl
    | inr b ↦ rw (a, b, filter-filter q r xs) refl
  ]
  | inr a ↦ rw (a, filter-filter q r xs) refl
]

filter-absent :
    (q : Payment → Bool) (k : ℕ) (xs : List Payment)
    → elem k (map payment_key xs) ≡ false
    → elem k (map payment_key (filter q xs)) ≡ false
filter-absent q k [] n = refl
filter-absent q k (x ∷ xs) n = ground (arith, filter-absent q k xs)

filter-distinct :
    (q : Payment → Bool) (xs : List Payment)
    → distinct_ids xs ≡ true
    → distinct_ids (filter q xs) ≡ true
filter-distinct q [] d = refl
filter-distinct q (x ∷ xs) d =
    let (n, rest) = distinct-head x xs d in
    elim (Bool-cases (q x)) [
      | inl t ↦ rw (t, filter-absent q x.id xs n) (filter-distinct q xs rest)
      | inr f ↦ rw (f) (filter-distinct q xs rest)
    ]

filter_all : (xs : List Payment) → filter (λ p. true) xs ≡ xs
filter_all [] = refl
filter_all (x ∷ xs) = rw (filter_all xs) refl

-- A page: the first rows behind the cursor.
page-behind :
    (candidate : Payment → Bool) (n : ℕ) (k : Option ReconcileCursor) (ps : List Payment)
    → distinct_ids ps ≡ true
    → reconcile_page candidate (suc n) k ps
      ≡ take (suc n) (filter (after_cursor k) (newest_first (filter candidate ps)))
unfolding reconcile_page
page-behind candidate n k ps d =
    let positive : suc n == 0 ≡ false = ground arith in
    let inner =
      filter-newest_first (after_cursor k) (filter candidate ps) (filter-distinct candidate ps d) in
    rw (positive, filter-filter candidate (after_cursor k) ps, ← inner) refl

-- A list that is longer than a batch ends its first batch in some row.
cut_batch :
    (n : ℕ) (rest : List Payment)
    → suc n ≤ length rest
    → (pre : List Payment) × (y : Payment) × (post : List Payment) × (rest ≡ pre ++ y ∷ post)
      × (take (suc n) rest ≡ pre ++ y ∷ [])
cut_batch n [] h = absurd (omega arith)
cut_batch zero (y ∷ ys) h = ([], y, ys, refl, refl)
cut_batch (suc n) (x ∷ xs) h =
    let (pre, y, post, e, t) = cut_batch n xs (omega arith) in
    (x ∷ pre, y, post, ap (λ zs. x ∷ zs) e, ap (λ zs. x ∷ zs) t)

last-append :
    (x : Payment) (pre : List Payment) (y : Payment) → last_cursor x (pre ++ y ∷ []) ≡ at_payment y
last-append x [] y = refl
last-append x (z ∷ pre) y = last-append z pre y

cursor-append : (pre : List Payment) (y : Payment) → cursor_of (pre ++ y ∷ []) ≡ some (at_payment y)
cursor-append [] y = refl
cursor-append (x ∷ pre) y = rw (last-append x pre y) refl

length-append : (pre post : List Payment) (y : Payment) → length post < length (pre ++ y ∷ post)
length-append [] post y = omega arith
length-append (x ∷ pre) post y = let h = length-append pre post y in omega arith

take-short : (n : ℕ) (xs : List Payment) → length xs < n → take n xs ≡ xs
take-short zero xs h = absurd (omega arith)
take-short (suc n) [] h = refl
take-short (suc n) (x ∷ xs) h = rw (take-short n xs (omega arith)) refl

length-take : (n : ℕ) (xs : List Payment) → n ≤ length xs → length (take n xs) ≡ n
length-take zero xs h = refl
length-take (suc n) [] h = absurd (omega arith)
length-take (suc n) (x ∷ xs) h = rw (length-take n xs (omega arith)) refl

-- A full batch and what comes behind its last row.
full_batch :
    (n : ℕ) (page pre post rest : List Payment) (y : Payment)
    (next : Option ReconcileCursor → List Payment)
    → page ≡ pre ++ y ∷ []
    → ltb (length page) (suc n) ≡ false
    → next (some (at_payment y)) ≡ post
    → rest ≡ pre ++ y ∷ post
    → page ++ unless_wrapped (next_cursor (suc n) page) next ≡ rest
unfolding next_cursor
full_batch n page pre post rest y next e full ih cut =
    rw (full, e, cursor-append pre y, ih) (append_assoc pre (y ∷ []) post ∙ sym cut)

module _ (candidate : Payment → Bool) (n : ℕ) (ps : List Payment)
    (keyed : distinct_ids ps ≡ true) where
  abbrev window : List Payment
  window = newest_first (filter candidate ps)

  window-ordered : ordered window ≡ true
  window-ordered = newest_first-ordered (filter candidate ps) (filter-distinct candidate ps keyed)

  behind_row :
      (y : Payment) (pre post : List Payment)
      → window ≡ pre ++ y ∷ post
      → filter (after_cursor (some (at_payment y))) window ≡ post
  behind_row y pre post e =
      ap (filter (λ p. older p y)) e
      ∙ behind y pre post (subst (λ zs. ordered zs ≡ true) e window-ordered)

  -- From a position behind which `rest` stands, the scan goes through `rest`.
  scan-rest :
      (fuel : ℕ) (k : Option ReconcileCursor) (front rest : List Payment)
      → window ≡ front ++ rest
      → filter (after_cursor k) window ≡ rest
      → length rest < fuel
      → scan candidate (suc n) fuel k ps ≡ rest
  unfolding scan next_cursor
  scan-rest zero k front rest e p enough = absurd (omega arith)
  scan-rest (suc fuel) k front rest e p enough =
      let page = page-behind candidate n k ps keyed ∙ ap (take (suc n)) p in
      elim (Bool-cases (ltb (length rest) (suc n))) [
        | inl short ↦
            let all_of = take-short (suc n) rest (ground arith) in
            rw (page, all_of, short) (append_nil rest)
        | inr long ↦
            let enough_rows : suc n ≤ length rest = ground arith in
            let (pre, y, post, cut, first) = cut_batch n rest enough_rows in
            let full : ltb (length (reconcile_page candidate (suc n) k ps)) (suc n) ≡ false =
              rw (page, length-take (suc n) rest enough_rows) ground arith in
            let whole : window ≡ (front ++ pre) ++ (y ∷ post) =
              e ∙ ap (λ zs. front ++ zs) cut ∙ sym (append_assoc front pre (y ∷ post)) in
            let later = behind_row y (front ++ pre) post whole in
            let fewer : length post < length rest =
              subst (λ zs. length post < length zs) (sym cut) (length-append pre post y) in
            let ih =
              scan-rest fuel (some (at_payment y)) ((front ++ pre) ++ y ∷ []) post
                (whole ∙ sym (append_assoc (front ++ pre) (y ∷ []) post)) later (omega arith) in
            full_batch n (reconcile_page candidate (suc n) k ps) pre post rest y
              (λ k'. scan candidate (suc n) fuel k' ps) (page ∙ first) full ih cut
      ]

-- However large the batches are (at least one row), over a table that stays the same, with one
-- row for each id, the runs of the job from the start until the position wraps check exactly the
-- candidates, each once, newest first; one more run than there are candidates is enough.
pub scan-newest_first :
    (candidate : Payment → Bool) (n fuel : ℕ) (ps : List Payment)
    → distinct_ids ps ≡ true
    → length (newest_first (filter candidate ps)) < fuel
    → scan candidate (suc n) fuel none ps ≡ newest_first (filter candidate ps)
scan-newest_first candidate n fuel ps keyed enough =
    scan-rest candidate n ps keyed fuel none [] (newest_first (filter candidate ps)) refl
      (filter_all (newest_first (filter candidate ps))) enough
