-- ===== src/Payment/Transitions.antt =====
-- The transition diagram of docs/payment-state-machine.md, and the code's agreement with it.
use pg_aggregator_back.Common.{
  ℕ, suc, ◌+◌, ◌≤◌, ◌<◌, ◌≡◌, ◌≢◌, refl, ◌⊎◌, inl, inr, ◌↔◌, true, arith,
}
use pg_aggregator_back.Payment.{
  Status, pending, paid, expired, failed, cancelled, refunded, other_status, is_terminal_status,
  can_transition_to,
}

-- The arrows of the diagram.
infix 40 ◌⟶◌ ◌⟶*◌
pub data ◌⟶◌ : Status → Status → Type 0 where
  settle : pending ⟶ paid
  settle_late : expired ⟶ paid
  expire : pending ⟶ expired
  fail : pending ⟶ failed
  cancel : pending ⟶ cancelled
  refund : paid ⟶ refunded

ruleset arrows = (settle, settle_late, expire, fail, cancel, refund)

pub arrow_of_allowed : (current new : Status) → can_transition_to current new ≡ true → current ⟶ new
unfolding can_transition_to
arrow_of_allowed current new h = grind (arith, arrows)

allowed_of_arrow : {current new : Status} → current ⟶ new → can_transition_to current new ≡ true
unfolding can_transition_to
allowed_of_arrow settle = refl
allowed_of_arrow settle_late = refl
allowed_of_arrow expire = refl
allowed_of_arrow fail = refl
allowed_of_arrow cancel = refl
allowed_of_arrow refund = refl

-- `CanTransitionTo` allows exactly the arrows of the diagram.
pub can_transition_to_iff :
    (current new : Status) → (can_transition_to current new ≡ true) ↔ (current ⟶ new)
can_transition_to_iff current new = (arrow_of_allowed current new, allowed_of_arrow)

-- A life of a payment: any number of changes that `CanTransitionTo` allows.
pub data ◌⟶*◌ : Status → Status → Type 0 where
  here : {s : Status} → s ⟶* s
  more : {s t u : Status} → can_transition_to s t ≡ true → t ⟶* u → s ⟶* u

abbrev pub steps : {s t : Status} → s ⟶* t → ℕ
steps here = 0
steps (more a r) = suc (steps r)

-- Every arrow leads further along.
abbrev pub rank : Status → ℕ
rank pending = 0
rank expired = 1
rank paid = 2
rank (other_status s) = 0
rank _ = 3

rank-⟶ : {s t : Status} → s ⟶ t → rank s < rank t
rank-⟶ settle = omega arith
rank-⟶ settle_late = omega arith
rank-⟶ expire = omega arith
rank-⟶ fail = omega arith
rank-⟶ cancel = omega arith
rank-⟶ refund = omega arith

rank-⟶* : {s t : Status} (life : s ⟶* t) → rank s + steps life ≤ rank t
rank-⟶* here = omega arith
rank-⟶* (more {s} {t} a r) = omega (arith, rank-⟶ (arrow_of_allowed s t a), rank-⟶* r)

rank-le : (s : Status) → rank s ≤ 3
rank-le pending = omega arith
rank-le _ = omega arith

-- No payment changes its status more than three times, whatever status it starts with.
pub steps-le : {s t : Status} (life : s ⟶* t) → steps life ≤ 3
steps-le {t} life = omega (arith, rank-⟶* life, rank-le t)

-- A status that is left never comes back: a life that returns to its first status is empty. In
-- particular a payment is settled, and refunded, at most once.
pub steps_of_return : {s : Status} (life : s ⟶* s) → steps life ≡ 0
steps_of_return life = omega (arith, rank-⟶* life)

no_arrow : {s t : Status} → s ⟶ t → is_terminal_status s ≡ true → (s ≡ expired) ⊎ (s ≡ paid)
unfolding is_terminal_status
no_arrow settle h = cc
no_arrow settle_late h = inl refl
no_arrow expire h = cc
no_arrow fail h = cc
no_arrow cancel h = cc
no_arrow refund h = inr refl

-- `IsTerminalStatus` means what docs/payment-state-machine.md says: only `expired` and `paid` among the
-- terminal statuses have a way on, so from any other the status never changes.
pub terminal_absorbs :
    {s t : Status} → is_terminal_status s ≡ true → s ≢ expired → s ≢ paid → s ⟶* t → t ≡ s
terminal_absorbs h ne np here = refl
terminal_absorbs {s} h ne np (more {t = t'} a r) = elim (no_arrow (arrow_of_allowed s t' a) h) [
  | inl e ↦ absurd (ne e)
  | inr e ↦ absurd (np e)
]
