-- ===== src/Store/Action.antt =====
-- `QueryRow`, `Exec` and transactions: actions on the tables that may fail.
use pg_aggregator_back.Common.{Bool, false, Option, none, some, List, [], ◌∷◌, if◌then◌else◌}
use pg_aggregator_back.Errors.{Error, Result, ok, err, db_failure}
use pg_aggregator_back.Store.{Db, Conn}

abbrev pub Sql : Type 0 → Type 0
Sql A = Conn → Result A × Conn

module _ {A : Type 0} where
  abbrev pub pure : A → Sql A
  pure a c = (ok a, c)

  abbrev pub raise : Error → Sql A
  raise e c = (err e, c)

abbrev pub after : {A B : Type 0} → (A → Sql B) → Result A × Conn → Result B × Conn
after f (ok a, c) = f a c
after f (err e, c) = (err e, c)

infixl 5 ◌>>=◌ ◌>>◌
abbrev pub ◌>>=◌ : {A B : Type 0} → Sql A → (A → Sql B) → Sql B
◌>>=◌ m f c = after f (m c)

abbrev pub ◌>>◌ : {A B : Type 0} → Sql A → Sql B → Sql B
m >> k = m >>= λ _. k

abbrev pub raise_if : Bool → Error → Sql (Unit {0})
raise_if b e c = (if b then err e else ok tt, c)

-- The result of a call as a value.
abbrev pub caught : {A : Type 0} → Sql A → Sql (Result A)
caught m c = (ok (m c).0, (m c).1)

-- Whether the next statement fails, and the schedule after it.
abbrev pub draw : List Bool → Bool × List Bool
draw [] = (false, [])
draw (b ∷ bs) = (b, bs)

abbrev pub tick : Conn → Bool × Conn
tick c = ((draw c.faults).0, record c { faults = (draw c.faults).1 })

module _ {A : Type 0} where
  -- A statement that reads.
  unfoldable pub query : (Db → Result A) → Sql A
  query f c = let (bad, c') = tick c in if bad then (err db_failure, c') else (f c'.db, c')

  abbrev pub written : Conn → Result (A × Db) → Result A × Conn
  written c (ok (a, d)) = (ok a, record c { db = d })
  written c (err e) = (err e, c)

  -- A statement that writes; one that is refused writes nothing.
  unfoldable pub exec : (Db → Result (A × Db)) → Sql A
  exec f c = let (bad, c') = tick c in if bad then (err db_failure, c') else written c' (f c'.db)

  abbrev pub rolled_back : Db → Result (Option A) → Conn → Result (Option A) × Conn
  rolled_back saved r c = (r, record c { db = saved })

  abbrev pub commit : Db → A → Conn → Result (Option A) × Conn
  commit saved a c =
      let (bad, c') = tick c in
      if bad then rolled_back saved (err db_failure) c' else (ok (some a), c')

  abbrev pub finish : Db → Result (Option A) × Conn → Result (Option A) × Conn
  finish saved (err e, c) = rolled_back saved (err e) c
  finish saved (ok none, c) = rolled_back saved (ok none) c
  finish saved (ok (some a), c) = commit saved a c

  -- `BeginTx`, the body, `Commit`, with the deferred `Rollback`. A body that ends in `none` has
  -- found no row (`sql.ErrNoRows`) and is rolled back.
  unfoldable pub transaction : Sql (Option A) → Sql (Option A)
  transaction m c =
      let (bad, c') = tick c in if bad then (err db_failure, c') else finish c'.db (m c')

module _ {A B : Type 0} where
  abbrev pub beside : (Db → Db) → (B → Sql (Option A)) → Result B × Conn → Result (Option A) × Conn
  beside others writes (err e, c) = (err e, c)
  beside others writes (ok b, c) = finish (others c.db) (writes b (record c { db = others c.db }))

  -- A READ COMMITTED transaction that first reads and then writes, where other transactions commit
  -- `others` in between: a rollback leaves what they committed.
  unfoldable pub transaction_beside : (Db → Db) → Sql B → (B → Sql (Option A)) → Sql (Option A)
  transaction_beside others reads writes c =
      let (bad, c') = tick c in
      if bad then (err db_failure, c') else beside others writes (reads c')
