-- ===== src/Idempotency/Exclusive.antt =====
-- While a claim is young enough nobody else wins its key, whatever else happens to the table.
use text.Mathlib.Text.{◌==◌ as str_eq}
use text.Mathlib.TextEquality.{eq_iff}
use pg_aggregator_back.Common.{
  ◌∙◌, ℕ, Bool, true, false, not, ◌+◌, ◌≤◌, ◌&&◌, none, some, List, [], ◌∷◌, ◌≡◌, refl, sym, leb,
  ◌==◌, arith, Option-cases, Bool-cases, inl, inr,
}
use pg_aggregator_back.Idempotency.{
  Record, Scope, same_bytes, in_scope, find_scope, Attempt, fresh, may_take_over, replace_scope,
  claim, complete, release, purge_older_than, take_over, with_payment,
}

-- One call on the table.
pub data Use : Type 0 where
  claims : Attempt → Use
  completes : ℕ → ℕ → Use
  releases : ℕ → Use
  purges : ℕ → Use

unfoldable pub use_table : Use → List Record → List Record
use_table (claims a) rs = (claim a rs).1
use_table (completes id payment_id) rs = (complete id payment_id rs).1
use_table (releases id) rs = release id rs
use_table (purges cutoff) rs = purge_older_than cutoff rs

unfoldable pub use_all : List Use → List Record → List Record
unfolding use_table
use_all [] rs = rs
use_all (u ∷ us) rs = use_all us (use_table u rs)

-- A call that leaves a claim made at `t` with id `i` alone: a claim within two minutes of `t`, any
-- completion, the release of another claim, a purge of what is older than `t`.
abbrev pub leaves : ℕ → ℕ → Use → Bool
leaves i t (claims a) = leb a.now (t + 120)
leaves i t (completes id payment_id) = true
leaves i t (releases id) = not (id == i)
leaves i t (purges cutoff) = leb cutoff t

abbrev pub all_leave : ℕ → ℕ → List Use → Bool
all_leave i t [] = true
all_leave i t (u ∷ us) = leaves i t u && all_leave i t us

-- The key of `s` is held by the claim `i` made at `t`.
pub record Held (s : Scope) (i t : ℕ) (rs : List Record) : Type 0 where
  pub holder : Record
  pub found : find_scope s rs ≡ some holder
  pub own_id : holder.id ≡ i
  pub made_at : holder.created_at ≡ t

same_bytes_refl : (b : List ℕ) → same_bytes b b ≡ true
same_bytes_refl [] = refl
same_bytes_refl (x ∷ xs) = ground (arith, same_bytes_refl xs)

module _ (s : Scope) where
  find-complete :
      (id payment_id : ℕ) (rs : List Record) {r : Record}
      → find_scope s rs ≡ some r
      → (q : Record) × (find_scope s (complete id payment_id rs).1 ≡ some q)
        × (q.id ≡ r.id)
        × (q.created_at ≡ r.created_at)
  unfolding complete
  find-complete id payment_id [] h = cc
  find-complete id payment_id (x ∷ rs) {r} h = elim (Bool-cases (in_scope s x)) [
    | inl mine ↦ elim (Bool-cases (x.id == id)) [
      | inl done ↦
          let is_x : x ≡ r = cc (rw mine at h) in
          (with_payment payment_id x, rw (done, mine) refl, rw (is_x) refl, rw (is_x) refl)
      | inr other ↦ (r, rw (other, mine) (rw mine at h), refl, refl)
    ]
    | inr foreign ↦
        let (q, found, own, made) = find-complete id payment_id rs (rw foreign at h) in
        elim (Bool-cases (x.id == id)) [
          | inl done ↦ (q, rw (done, foreign) found, own, made)
          | inr other ↦ (q, rw (other, foreign) found, own, made)
        ]
  ]

  find-release :
      (id : ℕ) (rs : List Record) {r : Record}
      → find_scope s rs ≡ some r
      → id == r.id ≡ false
      → find_scope s (release id rs) ≡ some r
  unfolding release
  find-release id [] h ne = cc
  find-release id (x ∷ rs) {r} h ne = ground (arith, find-release id rs {r = r})

  find-purge :
      (cutoff : ℕ) (rs : List Record) {r : Record}
      → find_scope s rs ≡ some r
      → cutoff ≤ r.created_at
      → find_scope s (purge_older_than cutoff rs) ≡ some r
  unfolding purge_older_than
  find-purge cutoff [] h le = cc
  find-purge cutoff (x ∷ rs) {r} h le = ground (arith, find-purge cutoff rs {r = r})

same_bytes→eq : (b d : List ℕ) → same_bytes b d ≡ true → b ≡ d
same_bytes→eq [] [] h = refl
same_bytes→eq [] (y ∷ ys) h = cc
same_bytes→eq (x ∷ xs) [] h = cc
same_bytes→eq (x ∷ xs) (y ∷ ys) h = ground (arith, same_bytes→eq xs ys)

-- A record in a scope has the scope's three columns.
in_scope→eq :
    (s : Scope) (r : Record)
    → in_scope s r ≡ true
    → (r.merchant_id ≡ s.merchant_id) × (r.environment ≡ s.environment) × (r.key ≡ s.key)
in_scope→eq s r h =
    let mine : r.merchant_id ≡ s.merchant_id = ground arith in
    let env : str_eq r.environment s.environment ≡ true = ground arith in
    let bytes : same_bytes r.key s.key ≡ true = ground arith in
    (mine, (eq_iff r.environment s.environment).0 env, same_bytes→eq r.key s.key bytes)

pub eq→in_scope :
    (s : Scope) (r : Record)
    → r.merchant_id ≡ s.merchant_id
    → r.environment ≡ s.environment
    → r.key ≡ s.key
    → in_scope s r ≡ true
eq→in_scope s r m e k =
    let mine : r.merchant_id == s.merchant_id ≡ true = ground arith in
    let env : str_eq r.environment s.environment ≡ true =
      (eq_iff r.environment s.environment).1 e in
    let bytes : same_bytes r.key s.key ≡ true = rw (k) (same_bytes_refl s.key) in
    rw (mine, env, bytes) refl

module _ (a : Attempt) (s : Scope) where
  -- A record of both scopes: the scopes are one.
  same_scope :
      (r : Record) → in_scope s (fresh a) ≡ true → in_scope s r ≡ true → in_scope a.scope r ≡ true
  same_scope r ha hr =
      let (m, e, k) = in_scope→eq s (fresh a) ha in
      let (m', e', k') = in_scope→eq s r hr in
      eq→in_scope a.scope r (m' ∙ sym m) (e' ∙ sym e) (k' ∙ sym k)

  absent_scope :
      (rs : List Record) {r : Record}
      → find_scope a.scope rs ≡ none
      → find_scope s rs ≡ some r
      → (in_scope a.scope r ≡ false) × (in_scope s r ≡ true)
  absent_scope [] none_there h = cc
  absent_scope (x ∷ rs) {r} none_there h = ground (arith, absent_scope rs {r = r})

  find-replace :
      (rs : List Record) {r y : Record}
      → find_scope s rs ≡ some r
      → find_scope a.scope rs ≡ some y
      → may_take_over a.now y ≡ true
      → may_take_over a.now r ≡ false
      → find_scope s (replace_scope a rs) ≡ some r
  find-replace [] h k old young = cc
  find-replace (x ∷ rs) {r} {y} h k old young = elim (Bool-cases (in_scope a.scope x)) [
    | inl theirs ↦ ground arith
    | inr other ↦ ground (arith, find-replace rs {r = r} {y = y})
  ]

  -- A claim does not touch a key that another claim holds and may still keep.
  find-claim :
      (rs : List Record) {r : Record}
      → find_scope s rs ≡ some r
      → may_take_over a.now r ≡ false
      → find_scope s (claim a rs).1 ≡ some r
  unfolding claim
  find-claim rs {r} h young = elim (Option-cases (find_scope a.scope rs)) [
    | inl none_there ↦
        let (not_theirs, own) = absent_scope rs none_there h in
        let foreign : in_scope s (fresh a) ≡ false = elim (Bool-cases (in_scope s (fresh a))) [
          | inl shared ↦ absurd (cc (same_scope r shared own, not_theirs))
          | inr f ↦ f
        ] in
        rw (none_there, foreign) h
    | inr (y, there) ↦ elim (Bool-cases (may_take_over a.now y)) [
      | inl old ↦ rw (there, old) (find-replace rs h there old young)
      | inr new ↦ rw (there, new) h
    ]
  ]

-- A claim that is at most two minutes old is not taken over.
young_claim :
    (now t : ℕ) (r : Record)
    → r.created_at ≡ t
    → leb now (t + 120) ≡ true
    → may_take_over now r ≡ false
young_claim now t r e h = ground arith

module _ (s : Scope) (i t : ℕ) where
  use-Held :
      (u : Use) (rs : List Record)
      → leaves i t u ≡ true
      → Held s i t rs
      → Held s i t (use_table u rs)
  unfolding use_table
  use-Held (claims a) rs l h = record {
    holder = h.holder;
    found = find-claim a s rs h.found (young_claim a.now t h.holder h.made_at l);
    own_id = h.own_id;
    made_at = h.made_at;
  }
  use-Held (completes id payment_id) rs l h =
      let (q, found, own, made) = find-complete s id payment_id rs h.found in
      record { holder = q; found = found; own_id = own ∙ h.own_id; made_at = made ∙ h.made_at }
  use-Held (releases id) rs l h =
      let own = h.own_id in
      record {
        holder = h.holder;
        found = find-release s id rs h.found (ground arith);
        own_id = h.own_id;
        made_at = h.made_at;
      }
  use-Held (purges cutoff) rs l h =
      let made = h.made_at in
      record {
        holder = h.holder;
        found = find-purge s cutoff rs h.found (ground arith);
        own_id = h.own_id;
        made_at = h.made_at;
      }

  use_all-Held :
      (us : List Use) (rs : List Record)
      → all_leave i t us ≡ true
      → Held s i t rs
      → Held s i t (use_all us rs)
  unfolding use_all
  use_all-Held [] rs l h = h
  use_all-Held (u ∷ us) rs l h =
      use_all-Held us (use_table u rs) (ground arith) (use-Held u rs (ground arith) h)

pub find-replaced :
    (a : Attempt) (rs : List Record) {y : Record}
    → find_scope a.scope rs ≡ some y
    → find_scope a.scope (replace_scope a rs) ≡ some (take_over a y)
find-replaced a [] h = cc
find-replaced a (x ∷ rs) {y} h = ground (arith, find-replaced a rs {y = y})

pub won_Held :
    (a : Attempt) (rs : List Record)
    → (claim a rs).0.1 ≡ true
    → Held a.scope a.id a.now (claim a rs).1
unfolding claim
won_Held a rs h = elim (Option-cases (find_scope a.scope rs)) [
  | inl none_there ↦
      let own : in_scope a.scope (fresh a) ≡ true = eq→in_scope a.scope (fresh a) refl refl refl in
      record { holder = fresh a; found = rw (none_there, own) refl; own_id = refl; made_at = refl }
  | inr (y, there) ↦ elim (Bool-cases (may_take_over a.now y)) [
    | inl old ↦ record {
      holder = take_over a y;
      found = rw (there, old) (find-replaced a rs there);
      own_id = refl;
      made_at = refl;
    }
    | inr new ↦ absurd (cc (rw (there, new) at h))
  ]
]

-- Once a claim has won its key, no other claim of that key made within two minutes wins it,
-- whatever claims of that age, completions, releases of other claims and purges of older rows
-- come between: it is given the record that holds the key.
pub claim-claim :
    (a b : Attempt) (us : List Use) (rs : List Record)
    → (claim a rs).0.1 ≡ true
    → all_leave a.id a.now us ≡ true
    → leb b.now (a.now + 120) ≡ true
    → b.scope ≡ a.scope
    → (r : Record) × ((claim b (use_all us (claim a rs).1)).0 ≡ (some r, false)) × (r.id ≡ a.id)
unfolding claim
claim-claim a b us rs won l young same =
    let held = use_all-Held a.scope a.id a.now us (claim a rs).1 l (won_Held a rs won) in
    let kept = young_claim b.now a.now held.holder held.made_at young in
    (held.holder, rw (same, held.found, kept) refl, held.own_id)
