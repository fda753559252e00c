-- ===== src/Repository/Payouts/Beside.antt =====
-- A payout request while refunds and adjustments commit.
use pg_aggregator_back.Common.{
  Bool-cases, inl, inr, ◌||◌, ◌≡◌, refl, sym, ap, subst, ◌∙◌, pos, ltb_ℤ, leb_ℤ,
}
use pg_aggregator_back.Errors.{ok, below_minimum_payout}
use pg_aggregator_back.Ledger.{Payout}
use pg_aggregator_back.Store.{Db, Conn}
use pg_aggregator_back.Store.Action.{query, raise_if, after, transaction_beside}
use pg_aggregator_back.Store.Beside.{transaction_beside-ok, transaction_beside-transaction}
use pg_aggregator_back.Store.Inversion.{ReadsOnly, >>=-ok, guard-ok, >>=-ReadsOnly, query-ReadsOnly}
use pg_aggregator_back.Repository.Refunds.{or_failure}
use pg_aggregator_back.Repository.Payouts.{
  PayoutRequest, Account, request_checked, request_written, request_transaction, request,
  request_beside,
}
use pg_aggregator_back.Repository.Payouts.Effect.{
  Checked, Written, request_checked-ok, request_written-ok, or_failure-ok,
}

-- The reads covered the request before the others, and the writes followed them.
pub record RequestsBeside (others : Db → Db) (r : PayoutRequest) (q : Payout) (d d' : Db)
    : Type 0 where
  pub destination : Account
  pub checks : Checked r d
  pub writes : Written r destination q (others d) d'

module _ (others : Db → Db) (r : PayoutRequest) where
  pub request_beside-ok :
      (q : Payout) (c c' : Conn)
      → request_beside others r c ≡ (ok q, c')
      → RequestsBeside others r q c.db c'.db
  unfolding request_beside
  request_beside-ok q c c' h =
      let (_, h₁) =
        guard-ok (leb_ℤ r.amount (pos 0) || ltb_ℤ r.amount r.min_amount) below_minimum_payout _ c c'
          h in
      let (row, c₁, ran, rest) =
        >>=-ok (transaction_beside others (request_checked r) (request_written r)) or_failure c
          h₁ in
      let (is_q, same) = or_failure-ok row q c₁ c' rest in
      let run =
        transaction_beside-ok others (request_checked r) (request_written r) c q c₁
          (rw (is_q) at ran) in
      let (checks, kept) = request_checked-ok r run.read run.c₀ run.c₁ run.reading in
      let writes = request_written-ok r run.read q _ run.c₂ run.writing in
      let before : run.c₁.db ≡ c.db = kept ∙ run.began in
      let ended : c'.db ≡ run.c₂.db = ap (λ x. x.db) (sym same) ∙ run.kept in
      record {
        destination = run.read;
        checks = subst (λ d. Checked r d) run.began checks;
        writes =
            subst (λ d. Written r run.read q (others c.db) d) (sym ended)
              (subst (λ d. Written r run.read q (others d) run.c₂.db) before writes);
      }

checked-ReadsOnly : (r : PayoutRequest) → ReadsOnly (request_checked r)
checked-ReadsOnly r = >>=-ReadsOnly (query _) _ (query-ReadsOnly _) λ a.
    >>=-ReadsOnly (query _) _ (query-ReadsOnly _) λ b.
      >>=-ReadsOnly (raise_if _ _) _ (λ c. refl)
        λ u.
          >>=-ReadsOnly (query _) _ (query-ReadsOnly _)
            λ z. >>=-ReadsOnly (raise_if _ _) _ (λ c. refl) λ v c. refl

-- With nothing committed beside it, the request is the plain transaction.
pub request_beside-request :
    (r : PayoutRequest) (c : Conn) → request_beside (λ d. d) r c ≡ request r c
unfolding request_beside request request_transaction
request_beside-request r c =
    let same =
      transaction_beside-transaction (request_checked r) (request_written r) (checked-ReadsOnly r)
        c in
    elim (Bool-cases (leb_ℤ r.amount (pos 0) || ltb_ℤ r.amount r.min_amount)) [
      | inl small ↦ rw (small) refl
      | inr enough ↦ rw (enough) (ap (after or_failure) same)
    ]
