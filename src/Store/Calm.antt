-- ===== src/Store/Calm.antt =====
-- Actions that leave a part of the tables as it is, and add no failure to a schedule without one.
use pg_aggregator_back.Common.{[], ◌≡◌, refl, ◌∙◌, false, Bool-cases, inl, inr}
use pg_aggregator_back.Errors.{Result, ok, err}
use pg_aggregator_back.Store.{Db, Conn}
use pg_aggregator_back.Store.Action.{Sql, ◌>>=◌, after, query, exec, written, tick}

pub tick-quiet : (c : Conn) → c.faults ≡ [] → (tick c).1.faults ≡ []
tick-quiet c q = rw (q) refl

pub tick-fine : (c : Conn) → c.faults ≡ [] → (tick c).0 ≡ false
tick-fine c q = rw (q) refl

module _ {T : Type 0} (part : Db → T) where
  abbrev pub Calm : Conn → Conn → Type 0
  Calm c c' = (part c'.db ≡ part c.db) × (c.faults ≡ [] → c'.faults ≡ [])

  -- An action that leaves the part alone.
  abbrev pub Calms : {A : Type 0} → Sql A → Type 0
  Calms m = (c : Conn) → Calm c (m c).1

  pub still_Calm : (c : Conn) → Calm c c
  still_Calm c = (refl, λ q. q)

  pub Calm-Calm : (c c₁ c₂ : Conn) → Calm c c₁ → Calm c₁ c₂ → Calm c c₂
  Calm-Calm c c₁ c₂ (s, q) (s', q') = (s' ∙ s, λ h. q' (q h))

  module _ {A : Type 0} where
    pub query-Calm : (f : Db → Result A) (c : Conn) → Calm c (query f c).1
    unfolding query
    query-Calm f c = elim (Bool-cases (tick c).0) [
      | inl bad ↦ rw (bad) (refl, tick-quiet c)
      | inr fine ↦ rw (fine) (refl, tick-quiet c)
    ]

    written-Calm :
        (c : Conn) (r : Result (A × Db))
        → ((a : A) (d : Db) → r ≡ ok (a, d) → part d ≡ part c.db)
        → Calm c (written c r).1
    written-Calm c (ok (a, d)) h = (h a d refl, λ q. q)
    written-Calm c (err e) h = still_Calm c

    pub exec-Calm :
        (f : Db → Result (A × Db))
        → ((d d' : Db) (a : A) → f d ≡ ok (a, d') → part d' ≡ part d)
        → Calms (exec f)
    unfolding exec
    exec-Calm f h c = elim (Bool-cases (tick c).0) [
      | inl bad ↦ rw (bad) (refl, tick-quiet c)
      | inr fine ↦
          let w = written-Calm (tick c).1 (f c.db) (λ a d e. h c.db d a e) in
          rw (fine) (w.0, λ q. w.1 (tick-quiet c q))
    ]

  module _ {A B : Type 0} where
    pub after-Calm :
        (r : Result A × Conn) (f : A → Sql B) → ((a : A) → Calms (f a)) → Calm r.1 (after f r).1
    after-Calm (ok a, c) f h = h a c
    after-Calm (err e, c) f h = still_Calm c

    pub >>=-Calm : (m : Sql A) (f : A → Sql B) → Calms m → ((a : A) → Calms (f a)) → Calms (m >>= f)
    >>=-Calm m f hm hf c = Calm-Calm c (m c).1 ((m >>= f) c).1 (hm c) (after-Calm (m c) f hf)
