-- ===== src/Store/Inversion.antt =====
-- What a statement, a sequence or a transaction that ended well has done, whatever the schedule
-- of failures was; and that one which ended in an error has done nothing.
use pg_aggregator_back.Common.{
  Bool, false, Option, none, some, ◌≡◌, refl, sym, ap, subst, ◌∙◌, ◌⊎◌, arith, Bool-cases, inl, inr,
}
use pg_aggregator_back.Errors.{Error, Result, ok, err}
use pg_aggregator_back.Store.{Db, Conn}
use pg_aggregator_back.Store.Action.{
  Sql, pure, raise_if, ◌>>=◌, ◌>>◌, after, query, exec, written, transaction, commit, finish, tick,
}

err_ne_ok : {A : Type 0} {e : Error} {a : A} → err e ≡ ok a → ⊥
err_ne_ok h = cc

-- A guard that did not stop the code: its condition is false, and nothing has changed.
pub raise_if-ok :
    (b : Bool) (e : Error) {c c' : Conn} {u : Unit {0}}
    → raise_if b e c ≡ (ok u, c')
    → (b ≡ false) × (c ≡ c')
raise_if-ok b e {c} {c'} h = ground arith

-- A guard that stopped the code has changed nothing.
pub raise_if-err :
    (b : Bool) (e : Error) {c c' : Conn} {x : Error} → raise_if b e c ≡ (err x, c') → c' ≡ c
raise_if-err b e {c} {c'} h = ground arith

module _ {A B : Type 0} where
  after-ok :
      (r : Result A × Conn) (f : A → Sql B) {b : B} {c' : Conn}
      → after f r ≡ (ok b, c')
      → (a : A) × (c₁ : Conn) × (r ≡ (ok a, c₁)) × (f a c₁ ≡ (ok b, c'))
  after-ok (ok a, c₁) f h = (a, c₁, refl, h)
  after-ok (err e, c₁) f h = cc

  -- A sequence that ended well: its first part did, and the rest went on from there.
  pub >>=-ok :
      (m : Sql A) (f : A → Sql B) (c : Conn) {b : B} {c' : Conn}
      → (m >>= f) c ≡ (ok b, c')
      → (a : A) × (c₁ : Conn) × (m c ≡ (ok a, c₁)) × (f a c₁ ≡ (ok b, c'))
  >>=-ok m f c h = after-ok (m c) f h

-- An action that reads only.
abbrev pub ReadsOnly : {A : Type 0} → Sql A → Type 0
ReadsOnly m = (c : Conn) → (m c).1.db ≡ c.db

module _ {A B : Type 0} where
  after-err :
      (r : Result A × Conn) (f : A → Sql B) {e : Error} {c' : Conn}
      → after f r ≡ (err e, c')
      → (r ≡ (err e, c')) ⊎ ((a : A) × (c₁ : Conn) × (r ≡ (ok a, c₁)) × (f a c₁ ≡ (err e, c')))
  after-err (ok a, c₁) f h = inr (a, c₁, refl, h)
  after-err (err x, c₁) f h = inl (cc h)

  -- A sequence that ended in an error: its first part did, or the rest.
  pub >>=-err :
      (m : Sql A) (f : A → Sql B) (c : Conn) {e : Error} {c' : Conn}
      → (m >>= f) c ≡ (err e, c')
      → (m c ≡ (err e, c')) ⊎ ((a : A) × (c₁ : Conn) × (m c ≡ (ok a, c₁)) × (f a c₁ ≡ (err e, c')))
  >>=-err m f c h = after-err (m c) f h

  after-ReadsOnly :
      (r : Result A × Conn) (f : A → Sql B)
      → ((a : A) → ReadsOnly (f a))
      → (after f r).1.db ≡ r.1.db
  after-ReadsOnly (ok a, c₁) f h = h a c₁
  after-ReadsOnly (err x, c₁) f h = refl

  pub >>=-ReadsOnly :
      (m : Sql A) (f : A → Sql B) → ReadsOnly m → ((a : A) → ReadsOnly (f a)) → ReadsOnly (m >>= f)
  >>=-ReadsOnly m f hm hf c = after-ReadsOnly (m c) f hf ∙ hm c

module _ {A : Type 0} where
  -- A query that ended well has read the tables as they are.
  pub query-ok :
      (f : Db → Result A) (c : Conn) {a : A} {c' : Conn}
      → query f c ≡ (ok a, c')
      → (f c.db ≡ ok a) × (c'.db ≡ c.db)
  unfolding query
  query-ok f c {a} {c'} h = ground arith

  pub query-ReadsOnly : (f : Db → Result A) → ReadsOnly (query f)
  unfolding query
  query-ReadsOnly f c = ground arith

  written-ok :
      (c : Conn) (r : Result (A × Db)) {a : A} {c' : Conn}
      → written c r ≡ (ok a, c')
      → r ≡ ok (a, c'.db)
  written-ok c (ok (x, d)) h = ground arith
  written-ok c (err e) h = cc

  written-err :
      (c : Conn) (r : Result (A × Db)) {e : Error} {c' : Conn}
      → written c r ≡ (err e, c')
      → c'.db ≡ c.db
  written-err c (ok (x, d)) h = cc
  written-err c (err e) h = ground arith

  -- A write that ended well has made the change; one that was refused has made none.
  pub exec-ok :
      (f : Db → Result (A × Db)) (c : Conn) {a : A} {c' : Conn}
      → exec f c ≡ (ok a, c')
      → f c.db ≡ ok (a, c'.db)
  unfolding exec
  exec-ok f c {a} {c'} h = elim (Bool-cases (tick c).0) [
    | inl bad ↦ absurd (err_ne_ok (ap (λ r. r.0) (rw bad at h)))
    | inr fine ↦ written-ok (tick c).1 (f c.db) (rw fine at h)
  ]

  pub exec-err :
      (f : Db → Result (A × Db)) (c : Conn) {e : Error} {c' : Conn}
      → exec f c ≡ (err e, c')
      → c'.db ≡ c.db
  unfolding exec
  exec-err f c {e} {c'} h = elim (Bool-cases (tick c).0) [
    | inl bad ↦ ap (λ r. r.1.db) (sym (rw bad at h))
    | inr fine ↦ written-err (tick c).1 (f c.db) (rw fine at h)
  ]

  commit-err :
      (saved : Db) (a : A) (c : Conn) {e : Error} {c' : Conn}
      → commit saved a c ≡ (err e, c')
      → c'.db ≡ saved
  commit-err saved a c {e} {c'} h = ground arith

  commit-some :
      (saved : Db) (a : A) (c : Conn) {b : A} {c' : Conn}
      → commit saved a c ≡ (ok (some b), c')
      → (a ≡ b) × (c'.db ≡ c.db)
  commit-some saved a c {b} {c'} h = ground arith

  commit-none : (saved : Db) (a : A) (c : Conn) {c' : Conn} → commit saved a c ≡ (ok none, c') → ⊥
  commit-none saved a c {c'} h = ground arith

  finish-err :
      (saved : Db) (r : Result (Option A) × Conn) {e : Error} {c' : Conn}
      → finish saved r ≡ (err e, c')
      → c'.db ≡ saved
  finish-err saved (err x, c) h = ground arith
  finish-err saved (ok none, c) h = cc
  finish-err saved (ok (some a), c) h = commit-err saved a c h

  finish-none :
      (saved : Db) (r : Result (Option A) × Conn) {c' : Conn}
      → finish saved r ≡ (ok none, c')
      → c'.db ≡ saved
  finish-none saved (err x, c) h = cc
  finish-none saved (ok none, c) h = ground arith
  finish-none saved (ok (some a), c) h = absurd (commit-none saved a c h)

  pub finish-some :
      (saved : Db) (r : Result (Option A) × Conn) {b : A} {c' : Conn}
      → finish saved r ≡ (ok (some b), c')
      → (c₁ : Conn) × (r ≡ (ok (some b), c₁)) × (c'.db ≡ c₁.db)
  finish-some saved (err x, c) h = cc
  finish-some saved (ok none, c) h = cc
  finish-some saved (ok (some a), c) h = let (e, d) = commit-some saved a c h in (c, rw e refl, d)

  -- A transaction that ended in an error, a failed commit included, has changed no table.
  pub transaction-err :
      (m : Sql (Option A)) (c : Conn) {e : Error} {c' : Conn}
      → transaction m c ≡ (err e, c')
      → c'.db ≡ c.db
  unfolding transaction
  transaction-err m c {e} {c'} h = elim (Bool-cases (tick c).0) [
    | inl bad ↦ ap (λ r. r.1.db) (sym (rw bad at h))
    | inr fine ↦ finish-err c.db (m (tick c).1) (rw fine at h)
  ]

  -- Nor has one that found no row.
  pub transaction-none :
      (m : Sql (Option A)) (c : Conn) {c' : Conn} → transaction m c ≡ (ok none, c') → c'.db ≡ c.db
  unfolding transaction
  transaction-none m c {c'} h = elim (Bool-cases (tick c).0) [
    | inl bad ↦ ap (λ r. r.1.db) (sym (rw bad at h))
    | inr fine ↦ finish-none c.db (m (tick c).1) (rw fine at h)
  ]

  -- A transaction that committed: its body ran on these tables, and what it left is kept.
  pub transaction-some :
      (m : Sql (Option A)) (c : Conn) {a : A} {c' : Conn}
      → transaction m c ≡ (ok (some a), c')
      → (c₀ : Conn) × (c₁ : Conn) × (c₀.db ≡ c.db) × (m c₀ ≡ (ok (some a), c₁)) × (c'.db ≡ c₁.db)
  unfolding transaction
  transaction-some m c {a} {c'} h = elim (Bool-cases (tick c).0) [
    | inl bad ↦ absurd (err_ne_ok (ap (λ r. r.0) (rw bad at h)))
    | inr fine ↦
        let (c₁, e, d) = finish-some c.db (m (tick c).1) (rw fine at h) in
        ((tick c).1, c₁, refl, e, d)
  ]

  -- What the body has done to the tables is what a committed transaction has done.
  pub transaction-keeps :
      (P : Db → Db → Type 0) (m : Sql (Option A)) (c c' : Conn) (a : A)
      → ((c₀ c₁ : Conn) → m c₀ ≡ (ok (some a), c₁) → P c₀.db c₁.db)
      → transaction m c ≡ (ok (some a), c')
      → P c.db c'.db
  transaction-keeps P m c c' a body h =
      let (c₀, c₁, before, ran, kept) = transaction-some m c h in
      subst (λ d. P c.db d) (sym kept) (subst (λ d. P d c₁.db) before (body c₀ c₁ ran))

pub pure-ok :
    {A : Type 0} (a b : A) (c c' : Conn) → pure a c ≡ (ok b, c') → (a ≡ b) × (c'.db ≡ c.db)
pure-ok a b c c' h = (cc, ap (λ r. r.1.db) (sym h))

pub some-injective : {A : Type 0} {a b : A} → some a ≡ some b → a ≡ b
some-injective h = cc

pub ok-injective : {A : Type 0} {a b : A} → ok a ≡ ok b → a ≡ b
ok-injective h = cc

-- An action that has changed no table when it ends in an error.
abbrev pub Atomic : {A : Type 0} → Sql A → Type 0
Atomic m = (c c' : Conn) (e : Error) → m c ≡ (err e, c') → c'.db ≡ c.db

module _ {A : Type 0} (b : Bool) (e : Error) (m : Sql A) where
  -- A guarded action that ended well: the guard let it through.
  pub guard-ok :
      (c c' : Conn) {a : A} → (raise_if b e >> m) c ≡ (ok a, c') → (b ≡ false) × (m c ≡ (ok a, c'))
  guard-ok c c' {a} h = elim (Bool-cases b) [
    | inl t ↦ absurd (err_ne_ok (ap (λ r. r.0) (rw t at h)))
    | inr f ↦ (f, rw f at h)
  ]

  pub guard-Atomic : Atomic m → Atomic (raise_if b e >> m)
  guard-Atomic keeps c c' x h = elim (Bool-cases b) [
    | inl t ↦ ap (λ r. r.1.db) (sym (rw t at h))
    | inr f ↦ keeps c c' x (rw f at h)
  ]

module _ {A : Type 0} where
  pub transaction-Atomic : (m : Sql (Option A)) → Atomic (transaction m)
  transaction-Atomic m c c' e h = transaction-err m c h

  pub exec-Atomic : (f : Db → Result (A × Db)) → Atomic (exec f)
  exec-Atomic f c c' e h = exec-err f c h

module _ {A B : Type 0} where
  -- What follows an atomic action must not fail after a change.
  pub >>=-Atomic :
      (m : Sql A) (f : A → Sql B)
      → Atomic m
      → ((a : A) (c c₁ c' : Conn) (e : Error)
          → m c ≡ (ok a, c₁)
          → f a c₁ ≡ (err e, c')
          → c'.db ≡ c.db)
      → Atomic (m >>= f)
  >>=-Atomic m f first next c c' e h = elim (>>=-err m f c h) [
    | inl failed ↦ first c c' e failed
    | inr (a, c₁, ran, rest) ↦ next a c c₁ c' e ran rest
  ]

module _ {A B : Type 0} where
  -- An action that only reads, before one that is atomic.
  pub >>=-Atomic_read :
      (m : Sql A) (f : A → Sql B) → ReadsOnly m → ((a : A) → Atomic (f a)) → Atomic (m >>= f)
  >>=-Atomic_read m f reads rest =
      >>=-Atomic m f (λ c c' e h. ap (λ r. r.1.db) (sym h) ∙ reads c)
        (λ a c c₁ c' e ran h. rest a c₁ c' e h ∙ ap (λ r. r.1.db) (sym ran) ∙ reads c)
