-- ===== src/Repository/Insert/Effect.antt =====
-- What an INSERT that was accepted has done, and what its constraints had checked.
use pg_aggregator_back.Common.{true, false, ◌&&◌, none, ◌∷◌, ◌≡◌, pos, ltb_ℤ, arith}
use pg_aggregator_back.Errors.{ok}
use pg_aggregator_back.Ledger.{Entry, Payout, Refund, is_requested}
use pg_aggregator_back.Store.{Db}
use pg_aggregator_back.Store.Table.{find}
use pg_aggregator_back.Repository.Insert.{
  sign_matches, clashes, insert_entry, insert_refund, has_open_payout, insert_payout,
}

module _ (e : Entry) (d : Db) {d' : Db} where
  pub insert_entry-ok :
      insert_entry e d ≡ ok (tt, d')
      → (d' ≡ record d { ledger = e ∷ d.ledger })
        × (sign_matches e.entry_type e.amount ≡ true)
        × (clashes e d.ledger ≡ false)
  unfolding insert_entry
  insert_entry-ok h = ground arith

module _ (r : Refund) (d : Db) {d' : Db} where
  pub insert_refund-ok :
      insert_refund r d ≡ ok (tt, d')
      → (d' ≡ record d { refunds = r ∷ d.refunds }) × (ltb_ℤ (pos 0) r.amount ≡ true)
  unfolding insert_refund
  insert_refund-ok h = ground arith

module _ (p : Payout) (d : Db) {d' : Db} where
  pub insert_payout-ok :
      insert_payout p d ≡ ok (tt, d')
      → (d' ≡ record d { payouts = p ∷ d.payouts })
        × (ltb_ℤ (pos 0) p.amount ≡ true)
        × (find (λ (x : Payout). x.id) p.id d.payouts ≡ none)
        × (is_requested p.status && has_open_payout p.merchant_id d.payouts ≡ false)
  unfolding insert_payout
  insert_payout-ok h = ground arith
