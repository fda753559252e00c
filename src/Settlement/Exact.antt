-- ===== src/Settlement/Exact.antt =====
-- A settlement is confirmed exactly when the provider, and the webhook if it says so, report the
-- amount that the customer was asked for; and what the merchant then keeps is covered by it.
use pg_aggregator_back.Common.{
  ℕ, true, false, ◌+◌, ◌*◌, ◌≤◌, ◌<◌, Option, none, some, ◌≡◌, refl, ap, ◌↔◌, ◌⊎◌, inl, inr, ℤ, pos,
  ◌+ℤ◌, int64_in_range, eqb_ℤ→eq, eqb_ℤ_refl, int_laws, arith,
}
use pg_aggregator_back.Errors.{ok}
use pg_aggregator_back.Fee.{quote_total_basis_points, provider_basis_points}
use pg_aggregator_back.Fee.Range.{ceil_div, ceil_div_upper}
use pg_aggregator_back.Fee.Quote.{quote-Nets}
use pg_aggregator_back.Fee.Net.{net_splits}
use pg_aggregator_back.Payment.{paid, Payment, status_eq, total_amount}
use pg_aggregator_back.Settlement.{
  NormalizedPaymentStatus, differs, unconfirmed, verify_provider_payment, merchant_net_for,
}

-- The provider reports the payment paid with its total, and the webhook has no other amount.
abbrev pub Confirmed : Payment → Option NormalizedPaymentStatus → Option ℤ → Type 0
Confirmed p report webhook_amount =
    (s : NormalizedPaymentStatus) × (report ≡ some s)
    × (status_eq s.status paid ≡ true)
    × (s.amount ≡ some (total_amount p))
    × ((webhook_amount ≡ none) ⊎ (webhook_amount ≡ some (total_amount p)))

unconfirmed_no : (z : ℤ) (o : Option ℤ) → unconfirmed z o ≡ false → o ≡ some z
unconfirmed_no z none h = cc
unconfirmed_no z (some a) h = ap some (eqb_ℤ→eq a z (ground arith))

differs_no : (z : ℤ) (o : Option ℤ) → differs z o ≡ false → (o ≡ none) ⊎ (o ≡ some z)
differs_no z none h = inl refl
differs_no z (some a) h = inr (ap some (eqb_ℤ→eq a z (ground arith)))

confirmed :
    (p : Payment) (report : Option NormalizedPaymentStatus) (webhook_amount : Option ℤ)
    → verify_provider_payment p report webhook_amount ≡ none
    → Confirmed p report webhook_amount
unfolding verify_provider_payment
confirmed p none w h = cc
confirmed p (some s) w h =
    let settled : status_eq s.status paid ≡ true = ground arith in
    let amount : unconfirmed (total_amount p) s.amount ≡ false = ground arith in
    let webhook : differs (total_amount p) w ≡ false = ground arith in
    (
      s,
      refl,
      settled,
      unconfirmed_no (total_amount p) s.amount amount,
      differs_no (total_amount p) w webhook,
    )

passes :
    (p : Payment) (report : Option NormalizedPaymentStatus) (webhook_amount : Option ℤ)
    → Confirmed p report webhook_amount
    → verify_provider_payment p report webhook_amount ≡ none
unfolding verify_provider_payment
passes p report w (s, is_s, settled, amount, inl nil) =
    let same = eqb_ℤ_refl (total_amount p) in rw (is_s, settled, amount, nil, same) refl
passes p report w (s, is_s, settled, amount, inr equal) =
    let same = eqb_ℤ_refl (total_amount p) in rw (is_s, settled, amount, equal, same) refl

-- `verifyProviderPayment` accepts a report exactly if the provider reports the payment paid with the
-- amount that the customer was asked for, and the webhook has that amount or none.
pub verify_provider_payment_iff :
    (p : Payment) (report : Option NormalizedPaymentStatus) (webhook_amount : Option ℤ)
    → (verify_provider_payment p report webhook_amount ≡ none) ↔ Confirmed p report webhook_amount
verify_provider_payment_iff p report w = (confirmed p report w, passes p report w)

fee_kept :
    (p : Payment) (f : ℕ) → 0 < f → merchant_net_for (record p { fee_amount = pos f }) ≡ ok p.amount
unfolding merchant_net_for
fee_kept p f h = ground arith

total_of :
    (p : Payment) (n f g : ℕ)
    → p.amount ≡ pos n
    → g ≡ n + f
    → g ≤ 10000000000000000
    → total_amount (record p { fee_amount = pos f }) ≡ pos g
unfolding total_amount
total_of p n f g e sum cap =
    let exact : p.amount +ℤ pos f ≡ pos g = rw (e) (grind int_laws) in
    rw (exact) (int64_in_range (pos g) (omega arith) (omega arith))

-- A payment whose fee the customer bears, at the quoted total: the merchant keeps the nominal, and
-- what the provider leaves of the total covers it.
pub merchant_net_for-quote :
    (p : Payment) (n : ℕ)
    → p.amount ≡ pos n
    → 1 ≤ n
    → n ≤ 1000000000000
    → (g : ℕ) × (f : ℕ) × (quote_total_basis_points p.amount provider_basis_points
        ≡ ok (pos g, pos f))
      × (merchant_net_for (record p { fee_amount = pos f }) ≡ ok p.amount)
      × (total_amount (record p { fee_amount = pos f }) ≡ pos g)
      × (n + ceil_div (g * 70) 10000 ≤ g)
unfolding merchant_net_for total_amount
merchant_net_for-quote p n e h k =
    let (g, f, quoted, sum, nets, cap, near) = quote-Nets n 70 h k (omega arith) in
    (
      g,
      f,
      rw (e) quoted,
      fee_kept p f (omega (arith, ceil_div_upper (g * 70) 10000)),
      total_of p n f g e sum cap,
      nets,
    )

-- A payment whose fee the merchant bears: it keeps the nominal less the provider's fee, rounded up.
pub merchant_net_for-net :
    (p : Payment) (n : ℕ)
    → p.amount ≡ pos n
    → p.fee_amount ≡ pos 0
    → 1 ≤ n
    → n ≤ 1000000000000
    → (net : ℕ) × (f : ℕ) × (merchant_net_for p ≡ ok (pos net))
      × (net + f ≡ n)
      × (n * 70 ≤ f * 10000)
      × (f * 10000 < n * 70 + 10000)
unfolding merchant_net_for
merchant_net_for-net p n e z h k =
    let (net, f, computed, sum, up, low) = net_splits n 70 h k (omega arith) in
    (net, f, rw (e, z, computed) refl, sum, up, low)
