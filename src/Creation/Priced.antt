-- ===== src/Creation/Priced.antt =====
-- The total of a new payment is what its provider charged.
use pg_aggregator_back.Common.{
  true, false, ◌≡◌, ◌⊎◌, ℤ, pos, ◌+ℤ◌, ◌-ℤ◌, ◌≤ℤ◌, int64, int64_in_range, ltb_ℤ, leb_ℤ, pos_part,
  ◌<◌, ◌^◌, int_laws, arith, Bool-cases, inl, inr,
}
use pg_aggregator_back.Errors.{ok}
use pg_aggregator_back.Store.Inversion.{ok-injective}
use pg_aggregator_back.Payment.{Payment, total_amount}
use pg_aggregator_back.Creation.{
  ProviderPaymentResponse, FeeBearer, merchant_bears, customer_bears, charged_amount, priced,
}

exact_total :
    (a z : ℤ)
    → pos 0 ≤ℤ a
    → ltb_ℤ z a ≡ false
    → pos_part z < 2 ^ 63
    → int64 (a +ℤ int64 (z -ℤ a)) ≡ z
exact_total a z n le h =
    let inner : int64 (z -ℤ a) ≡ z -ℤ a =
      int64_in_range (z -ℤ a) (grind int_laws) (grind int_laws) in
    let sum : a +ℤ (z -ℤ a) ≡ z = grind int_laws in
    rw (inner, sum) (int64_in_range z (omega arith) (grind int_laws))

plus_zero : (a : ℤ) → pos 0 ≤ℤ a → pos_part a < 2 ^ 63 → int64 (a +ℤ pos 0) ≡ a
plus_zero a n h =
    let same : a +ℤ pos 0 ≡ a = grind int_laws in rw (same) (int64_in_range a h (omega arith))

-- A payment of 0 or more without a fee, priced by a response: its total is what the provider
-- charged, which is the reported amount if there is one and the requested one otherwise. When the
-- merchant bears the fee, the requested amount is the payment's own.
pub total_amount-priced :
    (b : FeeBearer) (r : ProviderPaymentResponse) (requested : ℤ) (p p' : Payment)
    → p.fee_amount ≡ pos 0
    → pos 0 ≤ℤ p.amount
    → pos_part (charged_amount r requested) < 2 ^ 63
    → (b ≡ customer_bears) ⊎ (requested ≡ p.amount)
    → priced b r requested p ≡ ok p'
    → total_amount p' ≡ charged_amount r requested
unfolding priced total_amount
total_amount-priced customer_bears r requested p p' zero_fee n fits asked h =
    elim (Bool-cases (ltb_ℤ (charged_amount r requested) p.amount)) [
      | inl below ↦ absurd (cc (rw below at h))
      | inr enough ↦
          let is_p' : record p { fee_amount = int64 (charged_amount r requested -ℤ p.amount) }
              ≡ p' =
            ok-injective (rw enough at h) in
          rw (← is_p') (exact_total p.amount (charged_amount r requested) n enough fits)
    ]
total_amount-priced merchant_bears r requested p p' zero_fee n fits (inl clash) h =
    absurd (cc clash)
total_amount-priced merchant_bears r requested p p' zero_fee n fits (inr asked) h =
    elim (Bool-cases (ltb_ℤ (pos 0) r.amount)) [
      | inl reported ↦
          let is_p' : record p { amount = r.amount } ≡ p' = ok-injective (rw reported at h) in
          let positive : leb_ℤ r.amount (pos 0) ≡ false = ground arith in
          let bound : pos_part r.amount < 2 ^ 63 = rw (positive) at fits in
          rw (← is_p', zero_fee, positive) (plus_zero r.amount (ground arith) bound)
      | inr silent ↦
          let is_p' : p ≡ p' = ok-injective (rw silent at h) in
          let nothing : leb_ℤ r.amount (pos 0) ≡ true = ground arith in
          let bound : pos_part requested < 2 ^ 63 = rw (nothing) at fits in
          rw (← is_p', zero_fee, nothing, asked) (plus_zero p.amount n (rw (asked) at bound))
    ]
