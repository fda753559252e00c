-- ===== src/Webhook/Named.antt =====
-- The payment that a provider's reference names, among rows with distinct keys.
use text.Mathlib.TextEquality.{eq_iff}
use pg_aggregator_back.Common.{
  String, Bool, true, not, ◌&&◌, Option, none, some, List, [], ◌∷◌, ◌≡◌, refl, ap, inl, inr, map,
  elem, ◌==◌, ==_iff, arith, Bool-cases,
}
use pg_aggregator_back.Errors.{ok}
use pg_aggregator_back.Payment.{Payment}
use pg_aggregator_back.Store.{Conn}
use pg_aggregator_back.Store.Table.{find}
use pg_aggregator_back.Store.Inversion.{query-ok, ok-injective}
use pg_aggregator_back.Delivery.Selection.{Member, and-both}
use pg_aggregator_back.Repository.Payments.{
  payment_key, has_reference, find_by_reference, or_not_found, get_by_provider_reference,
}

-- The primary key of `payments`.
abbrev pub distinct_payments : List Payment → Bool
distinct_payments [] = true
distinct_payments (p ∷ ps) = not (elem p.id (map payment_key ps)) && distinct_payments ps

has_reference-some : (r : String) (o : Option String) → has_reference r o ≡ true → o ≡ some r
has_reference-some r none h = cc
has_reference-some r (some s) h = ap some ((eq_iff s r).0 h)

found_row :
    (r : String) (ps : List Payment) (p : Payment)
    → or_not_found (find_by_reference r ps) ≡ ok p
    → Member p ps × (p.provider_reference ≡ some r)
found_row r [] p h = cc
found_row r (x ∷ ps) p h = elim (Bool-cases (has_reference r x.provider_reference)) [
  | inl mine ↦
      let is_p : x ≡ p = ok-injective (rw mine at h) in
      (inl is_p, rw (← is_p) (has_reference-some r x.provider_reference mine))
  | inr other ↦ let (m, e) = found_row r ps p (rw other at h) in (inr m, e)
]

pub get_by_provider_reference-ok :
    (r : String) (c : Conn) (p : Payment)
    → (get_by_provider_reference r c).0 ≡ ok p
    → Member p c.db.payments × (p.provider_reference ≡ some r)
unfolding get_by_provider_reference
get_by_provider_reference-ok r c p h =
    let (found, _) =
      query-ok (λ d. or_not_found (find_by_reference r d.payments)) c
        (ap (λ x. (x, (get_by_provider_reference r c).1)) h) in
    found_row r c.db.payments p found

elem_of : (p : Payment) (ps : List Payment) → Member p ps → elem p.id (map payment_key ps) ≡ true
elem_of p [] m = absurd m
elem_of p (x ∷ ps) (inl e) =
    let same : x.id == p.id ≡ true = (==_iff x.id p.id).1 (ap (λ y. y.id) e) in rw (same) refl
elem_of p (x ∷ ps) (inr m) = let rest = elem_of p ps m in ground arith

-- A row is found by its key.
pub find-Member :
    (ps : List Payment) (p : Payment)
    → distinct_payments ps ≡ true
    → Member p ps
    → find payment_key p.id ps ≡ some p
find-Member [] p d m = absurd m
find-Member (x ∷ ps) p d (inl e) =
    let same : x.id == p.id ≡ true = (==_iff x.id p.id).1 (ap (λ y. y.id) e) in
    rw (same) (ap some e)
find-Member (x ∷ ps) p d (inr m) =
    let (apart, rest) =
      and-both {a = not (elem x.id (map payment_key ps))} {b = distinct_payments ps} d in
    elim (Bool-cases (x.id == p.id)) [
      | inl same ↦
          let e : x.id ≡ p.id = (==_iff x.id p.id).0 same in
          absurd (cc (rw (e, elem_of p ps m) at apart))
      | inr other ↦ rw (other) (find-Member ps p rest m)
    ]
