-- ===== src/Creation/Failover.antt =====
-- Which provider's answer a creation uses.
use pg_aggregator_back.Common.{
  true, Option, some, List, [], ◌∷◌, ◌≡◌, refl, ◌∙◌, ◌↔◌, ◌⊎◌, inl, inr, ℤ, Bool-cases,
}
use pg_aggregator_back.Errors.{Error, Result, ok, err}
use pg_aggregator_back.Creation.{ProviderPaymentResponse, Candidate, Order, attempt, attempts}

-- The first candidate that succeeds, each one before it having failed with failover enabled.
pub data Wins (o : Order) (r : ProviderPaymentResponse × ℤ) : List Candidate → Type 0 where
  here : {c : Candidate} {cs : List Candidate} → attempt o c.provider ≡ ok r → Wins o r (c ∷ cs)
  next :
      {c : Candidate} {cs : List Candidate} (e : Error)
      → attempt o c.provider ≡ err e
      → c.failover_enabled ≡ true
      → Wins o r cs
      → Wins o r (c ∷ cs)

Result-cases : {A : Type 0} (r : Result A) → ((a : A) × (r ≡ ok a)) ⊎ ((e : Error) × (r ≡ err e))
Result-cases (ok a) = inl (a, refl)
Result-cases (err e) = inr (e, refl)

module _ (o : Order) (r : ProviderPaymentResponse × ℤ) where
  wins : (cs : List Candidate) (last : Option Error) → attempts o cs last ≡ ok r → Wins o r cs
  unfolding attempts
  wins [] last h = cc
  wins (c ∷ cs) last h = elim (Result-cases (attempt o c.provider)) [
    | inl (a, done) ↦ here (done ∙ rw done at h)
    | inr (e, failed) ↦ elim (Bool-cases c.failover_enabled) [
      | inl on ↦ next e failed on (wins cs (some e) (rw (failed, on) at h))
      | inr off ↦ absurd (cc (rw (failed, off) at h))
    ]
  ]

  used : (cs : List Candidate) (last : Option Error) → Wins o r cs → attempts o cs last ≡ ok r
  unfolding attempts
  used [] last w = elim w [ ]
  used (c ∷ cs) last (here done) = rw (done) refl
  used (c ∷ cs) last (next e failed on w) = rw (failed, on) (used cs (some e) w)

-- The attempts end with the response of a provider exactly if that provider is the first to
-- succeed and failover was enabled for every candidate that failed before it.
pub attempts_iff :
    (o : Order) (r : ProviderPaymentResponse × ℤ) (cs : List Candidate) (last : Option Error)
    → (attempts o cs last ≡ ok r) ↔ Wins o r cs
attempts_iff o r cs last = (wins o r cs last, used o r cs last)
