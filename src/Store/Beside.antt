-- ===== src/Store/Beside.antt =====
-- What a transaction beside others has done when it ended well, and that it is the plain
-- transaction when nothing commits beside it.
use pg_aggregator_back.Common.{Option, some, ◌≡◌, refl, inl, inr, Bool-cases}
use pg_aggregator_back.Errors.{Result, ok, err}
use pg_aggregator_back.Store.{Db, Conn}
use pg_aggregator_back.Store.Action.{
  Sql, ◌>>=◌, after, finish, tick, beside, transaction, transaction_beside,
}
use pg_aggregator_back.Store.Inversion.{ReadsOnly, finish-some}

module _ {A B : Type 0} (others : Db → Db) (reads : Sql B) (writes : B → Sql (Option A)) where
  -- The reads, then the writes on the tables that the others left.
  pub record RanBeside (a : A) (d d' : Db) : Type 0 where
    pub read : B
    pub c₀ : Conn
    pub c₁ : Conn
    pub c₂ : Conn
    pub began : c₀.db ≡ d
    pub reading : reads c₀ ≡ (ok read, c₁)
    pub writing : writes read (record c₁ { db = others c₁.db }) ≡ (ok (some a), c₂)
    pub kept : d' ≡ c₂.db

  beside-some :
      (r : Result B × Conn) (c₀ : Conn) (a : A) (c' : Conn)
      → reads c₀ ≡ r
      → beside others writes r ≡ (ok (some a), c')
      → RanBeside a c₀.db c'.db
  beside-some (err e, c) c₀ a c' was h = cc
  beside-some (ok b, c) c₀ a c' was h =
      let (c₂, e, d) = finish-some (others c.db) (writes b (record c { db = others c.db })) h in
      record {
        read = b;
        c₀ = c₀;
        c₁ = c;
        c₂ = c₂;
        began = refl;
        reading = was;
        writing = e;
        kept = d;
      }

  pub transaction_beside-ok :
      (c : Conn) (a : A) (c' : Conn)
      → transaction_beside others reads writes c ≡ (ok (some a), c')
      → RanBeside a c.db c'.db
  unfolding transaction_beside
  transaction_beside-ok c a c' h = elim (Bool-cases (tick c).0) [
    | inl bad ↦ absurd (cc (rw bad at h))
    | inr fine ↦ beside-some (reads (tick c).1) (tick c).1 a c' refl (rw fine at h)
  ]

module _ {A B : Type 0} (reads : Sql B) (writes : B → Sql (Option A)) where
  alone :
      (r : Result B × Conn) (saved : Db)
      → r.1.db ≡ saved
      → beside (λ d. d) writes r ≡ finish saved (after writes r)
  alone (ok b, c) saved h = rw (h) refl
  alone (err e, c) saved h = rw (← h) refl

  pub transaction_beside-transaction :
      ReadsOnly reads
      → (c : Conn) → transaction_beside (λ d. d) reads writes c ≡ transaction (reads >>= writes) c
  unfolding transaction transaction_beside
  transaction_beside-transaction quiet c = elim (Bool-cases (tick c).0) [
    | inl bad ↦ rw (bad) refl
    | inr fine ↦ rw (fine) (alone (reads (tick c).1) c.db (quiet (tick c).1))
  ]
