-- ===== src/Tests/Money.antt =====
-- The theorems on fees, statuses and requests, at concrete amounts and texts.
use pg_aggregator_back.Common.{
  ℕ, ◌+◌, ◌*◌, ◌/◌, ◌<◌, ◌≤◌, ◌≡◌, refl, pos, int64, ◌+ℤ◌, ◌-ℤ◌, arith, none, true, ◌↔◌,
}
use pg_aggregator_back.Errors.{ok}
use pg_aggregator_back.Fee.{◌*ℤ◌, ◌/ℤ◌, quote_total_basis_points, merchant_net_basis_points}
use pg_aggregator_back.Fee.Quote.{Nets, quote-Nets, quote_least}
use pg_aggregator_back.Fee.Net.{net_splits, merchant_net-quote}
use pg_aggregator_back.Payment.{
  production, pending, paid, refunded, expired, cancelled, can_transition_to,
}
use pg_aggregator_back.Payment.Transitions.{
  ◌⟶◌, can_transition_to_iff, ◌⟶*◌, here, more, steps, steps-le, steps_of_return,
}
use pg_aggregator_back.Payment.Request.{
  filled, validate, field_error, parse_environment, check_callback,
}
use pg_aggregator_back.Payment.Request.Validated.{
  IsAcceptable, Accepted, validate-IsAcceptable, StringLaws, validate-validate,
}
use pg_aggregator_back.Tests.Shop.{plain, any_url, asked_payment}

quote_of_10000 : quote_total_basis_points (pos 10000) (pos 70) ≡ ok (pos 10071, pos 71)
unfolding quote_total_basis_points int64 ◌+ℤ◌ ◌-ℤ◌ ◌*ℤ◌ ◌/ℤ◌
quote_of_10000 = refl

merchant_net-quote_example : merchant_net_basis_points (pos 10071) (pos 70) ≡ ok (pos 10000, pos 71)
merchant_net-quote_example =
    merchant_net-quote 10000 70 10071 71 (omega arith) (omega arith) (omega arith) quote_of_10000
      (omega arith)

quote_least_example : 10071 ≤ 10072
quote_least_example =
    quote_least 10000 70 10071 71 10072 (omega arith) (omega arith) (omega arith) quote_of_10000
      (omega arith)

quote-Nets_example :
    (g : ℕ) × (f : ℕ) × (quote_total_basis_points (pos 10000) (pos 70) ≡ ok (pos g, pos f))
    × (g ≡ 10000 + f)
    × Nets 10000 70 g
    × (g ≤ 10000000000000000)
    × (g ≤ 10000 + 1 + g * 70 / 10000)
quote-Nets_example = quote-Nets 10000 70 (omega arith) (omega arith) (omega arith)

net_splits_example :
    (net : ℕ) × (f : ℕ) × (merchant_net_basis_points (pos 10000) (pos 70) ≡ ok (pos net, pos f))
    × (net + f ≡ 10000)
    × (10000 * 70 ≤ f * 10000)
    × (f * 10000 < 10000 * 70 + 10000)
net_splits_example = net_splits 10000 70 (omega arith) (omega arith) (omega arith)

can_transition_to_iff_example : (can_transition_to expired paid ≡ true) ↔ (expired ⟶ paid)
can_transition_to_iff_example = can_transition_to_iff expired paid

late_life : pending ⟶* refunded
unfolding can_transition_to
late_life = more {t = expired} refl (more {t = paid} refl (more refl here))

steps-le_example : steps late_life ≤ 3
steps-le_example = steps-le late_life

cancelled_ends : cancelled ⟶* cancelled
cancelled_ends = here

steps_of_return_example : steps cancelled_ends ≡ 0
steps_of_return_example = steps_of_return cancelled_ends

accepted_payment : validate plain any_url asked_payment ≡ ok (filled asked_payment production none)
unfolding validate field_error parse_environment check_callback
accepted_payment = refl

validate-IsAcceptable_example :
    IsAcceptable (filled asked_payment production none) × Accepted any_url production none
validate-IsAcceptable_example =
    validate-IsAcceptable plain any_url asked_payment (filled asked_payment production none)
      accepted_payment

plain-StringLaws : StringLaws plain
plain-StringLaws = record { trim_trim = λ s. refl; sandbox_kept = refl; production_kept = refl }

validate-validate_example :
    validate plain any_url (filled asked_payment production none).request
    ≡ ok (filled asked_payment production none)
validate-validate_example =
    validate-validate plain plain-StringLaws any_url asked_payment
      (filled asked_payment production none) accepted_payment
