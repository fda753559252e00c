-- ===== src/Repository/Payouts/Effect.antt =====
-- What `Request`, `MarkPaid` and `Reject` of payout_repository.go have done when they ended well,
-- and that they have done nothing otherwise.
use pg_aggregator_back.Common.{
  true, false, ◌||◌, Option, none, some, ◌∷◌, ◌≡◌, refl, sym, ap, ◌∙◌, ℤ, pos, neg, int64, fits64,
  ltb_ℤ, leb_ℤ, arith,
}
use pg_aggregator_back.Errors.{
  Error, Result, ok, err, open_payout_exists, insufficient_balance, below_minimum_payout,
}
use pg_aggregator_back.Ledger.{Payout}
use pg_aggregator_back.Store.{Db, Conn}
use pg_aggregator_back.Store.Table.{find}
use pg_aggregator_back.Store.Action.{◌>>=◌, query, exec}
use pg_aggregator_back.Store.Inversion.{
  pure-ok, some-injective, ok-injective, >>=-ok, query-ok, exec-ok, transaction-keeps,
  transaction-none, Atomic, guard-ok, guard-Atomic, transaction-Atomic, >>=-Atomic,
}
use pg_aggregator_back.Repository.Insert.{
  insert_entry, insert_payout, has_open_payout, sum_ledger, scan_int64,
}
use pg_aggregator_back.Repository.Insert.Effect.{insert_entry-ok, insert_payout-ok}
use pg_aggregator_back.Repository.Refunds.{or_failure}
use pg_aggregator_back.Repository.Payouts.{
  payout_key, merchant_key, PayoutRequest, Account, account, payout_row, payout_entry, mapped,
  request_checked, request_written, request_transaction, request,
}

-- A committed request for the payout `q`.
pub record Requests (r : PayoutRequest) (q : Payout) (d d' : Db) : Type 0 where
  pub destination : Account
  pub row : q ≡ payout_row r destination
  pub none_open : has_open_payout r.merchant_id d.payouts ≡ false
  pub balance_fits : fits64 (sum_ledger r.merchant_id d.ledger) ≡ true
  pub covered : ltb_ℤ (sum_ledger r.merchant_id d.ledger) r.amount ≡ false
  pub amount_pos : ltb_ℤ (pos 0) r.amount ≡ true
  pub entry_neg : ltb_ℤ (int64 (neg r.amount)) (pos 0) ≡ true
  pub fresh : find payout_key r.payout_id d.payouts ≡ none
  pub books : d' ≡ record d {
    payouts = payout_row r destination ∷ d.payouts;
    ledger = payout_entry r ∷ d.ledger;
  }

mapped-ok : {A : Type 0} (x : Result A) {a : A} → mapped x ≡ ok a → x ≡ ok a
mapped-ok (ok b) h = ground arith
mapped-ok (err e) h = cc

scanned : (z : ℤ) {n : ℤ} → scan_int64 z ≡ ok n → (fits64 z ≡ true) × (n ≡ z)
scanned z {n} h = ground arith

-- What the reads have found in the tables `d`.
pub record Checked (r : PayoutRequest) (d : Db) : Type 0 where
  pub none_open : has_open_payout r.merchant_id d.payouts ≡ false
  pub balance_fits : fits64 (sum_ledger r.merchant_id d.ledger) ≡ true
  pub covered : ltb_ℤ (sum_ledger r.merchant_id d.ledger) r.amount ≡ false

-- What the writes have done to the tables.
pub record Written (r : PayoutRequest) (a : Account) (q : Payout) (d d' : Db) : Type 0 where
  pub row : q ≡ payout_row r a
  pub amount_pos : ltb_ℤ (pos 0) r.amount ≡ true
  pub entry_neg : ltb_ℤ (int64 (neg r.amount)) (pos 0) ≡ true
  pub fresh : find payout_key r.payout_id d.payouts ≡ none
  pub books :
      d' ≡ record d { payouts = payout_row r a ∷ d.payouts; ledger = payout_entry r ∷ d.ledger }

pub request_checked-ok :
    (r : PayoutRequest) (a : Account) (c c' : Conn)
    → request_checked r c ≡ (ok a, c')
    → Checked r c.db × (c'.db ≡ c.db)
request_checked-ok r a c c' h =
    let (x, c₀, e₀, h₀) =
      >>=-ok (query (λ d. account (find merchant_key r.merchant_id d.merchants))) _ c h in
    let (_, s₀) = query-ok (λ d. account (find merchant_key r.merchant_id d.merchants)) c e₀ in
    let (open_exists, c₁, e₁, h₁) =
      >>=-ok (query (λ d. ok (has_open_payout r.merchant_id d.payouts))) _ c₀ h₀ in
    let (read, s₁) = query-ok (λ d. ok (has_open_payout r.merchant_id d.payouts)) c₀ e₁ in
    let (closed, h₂) = guard-ok open_exists open_payout_exists _ c₁ c' h₁ in
    let (balance, c₂, e₂, h₃) =
      >>=-ok (query (λ d. scan_int64 (sum_ledger r.merchant_id d.ledger))) _ c₁ h₂ in
    let (read_sum, s₂) = query-ok (λ d. scan_int64 (sum_ledger r.merchant_id d.ledger)) c₁ e₂ in
    let (fits, is_sum) = scanned (sum_ledger r.merchant_id c₁.db.ledger) read_sum in
    let (enough, h₄) = guard-ok (ltb_ℤ balance r.amount) insufficient_balance _ c₂ c' h₃ in
    let (_, last) = pure-ok x a c₂ c' h₄ in
    let same : c₁.db ≡ c.db = s₁ ∙ s₀ in
    let balance_is : balance ≡ sum_ledger r.merchant_id c.db.ledger =
      is_sum ∙ ap (λ d. sum_ledger r.merchant_id d.ledger) same in
    (
      record {
        none_open =
            ap (λ d. has_open_payout r.merchant_id d.payouts) (sym s₀) ∙ ok-injective read ∙ closed;
        balance_fits = rw (← same) fits;
        covered = rw (← balance_is) enough;
      },
      last ∙ s₂ ∙ same,
    )

pub request_written-ok :
    (r : PayoutRequest) (a : Account) (q : Payout) (c c' : Conn)
    → request_written r a c ≡ (ok (some q), c')
    → Written r a q c.db c'.db
request_written-ok r a q c c' h =
    let (u, c₃, e₃, h₅) = >>=-ok (exec (λ d. mapped (insert_payout (payout_row r a) d))) _ c h in
    let (v, c₄, e₄, h₆) = >>=-ok (exec (insert_entry (payout_entry r))) _ c₃ h₅ in
    let (d₃, positive, fresh, _) =
      insert_payout-ok (payout_row r a) c.db (mapped-ok _ (exec-ok _ c e₃)) in
    let (d₄, sign, _) = insert_entry-ok (payout_entry r) c₃.db (exec-ok _ c₃ e₄) in
    let (is_q, last) = pure-ok (some (payout_row r a)) (some q) c₄ c' h₆ in
    record {
      row = some-injective (sym is_q);
      amount_pos = positive;
      entry_neg = sign;
      fresh = fresh;
      books = last ∙ d₄ ∙ rw (d₃) refl;
    }

request_body-ok :
    (r : PayoutRequest) (q : Payout) (c c' : Conn)
    → (request_checked r >>= request_written r) c ≡ (ok (some q), c')
    → Requests r q c.db c'.db
request_body-ok r q c c' h =
    let (a, c₁, e, rest) = >>=-ok (request_checked r) (request_written r) c h in
    let (checks, same) = request_checked-ok r a c c₁ e in
    let writes = request_written-ok r a q c₁ c' rest in
    record {
      destination = a;
      row = writes.row;
      none_open = checks.none_open;
      balance_fits = checks.balance_fits;
      covered = checks.covered;
      amount_pos = writes.amount_pos;
      entry_neg = writes.entry_neg;
      fresh = rw (← same) writes.fresh;
      books = rw (← same) writes.books;
    }

pub or_failure-ok :
    (row : Option Payout) (q : Payout) (c c' : Conn)
    → or_failure row c ≡ (ok q, c')
    → (row ≡ some q) × (c ≡ c')
or_failure-ok none q c c' h = cc
or_failure-ok (some x) q c c' h = (cc, cc)

module _ (r : PayoutRequest) where
  -- A payout request that ended well.
  pub request-ok : (q : Payout) (c c' : Conn) → request r c ≡ (ok q, c') → Requests r q c.db c'.db
  unfolding request request_transaction
  request-ok q c c' h =
      let (_, h₁) =
        guard-ok (leb_ℤ r.amount (pos 0) || ltb_ℤ r.amount r.min_amount) below_minimum_payout _ c c'
          h in
      let (row, c₁, ran, rest) = >>=-ok (request_transaction r) or_failure c h₁ in
      let (is_q, same) = or_failure-ok row q c₁ c' rest in
      rw (← same)
        (transaction-keeps (Requests r q) _ c c₁ q (request_body-ok r q) (rw (is_q) at ran))

  or_failure-err :
      (row : Option Payout) (c c₁ c' : Conn) (e : Error)
      → request_transaction r c ≡ (ok row, c₁)
      → or_failure row c₁ ≡ (err e, c')
      → c'.db ≡ c.db
  unfolding request_transaction
  or_failure-err none c c₁ c' e ran rest = ap (λ x. x.1.db) (sym rest) ∙ transaction-none _ c ran
  or_failure-err (some q) c c₁ c' e ran rest = cc

  -- A request that ended in an error has changed nothing.
  pub request-Atomic : Atomic (request r)
  unfolding request request_transaction
  request-Atomic =
      guard-Atomic (leb_ℤ r.amount (pos 0) || ltb_ℤ r.amount r.min_amount) below_minimum_payout _
        (>>=-Atomic (request_transaction r) or_failure (transaction-Atomic _) or_failure-err)
