-- ===== src/Creation/Routed.antt =====
-- Which provider may charge a production payment.
use pg_aggregator_back.Common.{String, true, false, some, List, [], ◌∷◌, ◌≡◌, ℤ}
use pg_aggregator_back.Errors.{ok}
use pg_aggregator_back.Payment.Request.{Strings}
use pg_aggregator_back.Creation.{ProviderPaymentResponse, Provider, Candidate, Order, attempt}
use pg_aggregator_back.Creation.Router.{
  ProviderRouter, is_sandbox_provider, get_provider, is_provider_available,
}

module _ (go : Strings) (r : ProviderRouter) where
  -- A provider that is registered under a name that is not marked unhealthy.
  abbrev pub Registered : Provider → Type 0
  Registered p =
      (name : String) × ((get_provider go name r ≡ some p)
        × (is_provider_available go name r ≡ true))

  -- A registered provider other than the sandbox.
  abbrev pub Servable : Provider → Type 0
  Servable p = (is_sandbox_provider go p ≡ false) × Registered p

  data EachRegistered : List Provider → Type 0 where
    no_more : EachRegistered []
    one_more :
        {p : Provider} {ps : List Provider}
        → Registered p
        → EachRegistered ps
        → EachRegistered (p ∷ ps)

  data EachServable : List Candidate → Type 0 where
    no_more : EachServable []
    one_more :
        {c : Candidate} {cs : List Candidate}
        → Servable c.provider
        → EachServable cs
        → EachServable (c ∷ cs)

  -- The candidate whose provider answered.
  pub record Served (o : Order) (a : ProviderPaymentResponse × ℤ) : Type 0 where
    pub candidate : Candidate
    pub answers : attempt o candidate.provider ≡ ok a
    pub servable : Servable candidate.provider
