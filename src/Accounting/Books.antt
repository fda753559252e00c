-- ===== src/Accounting/Books.antt =====
-- The books after any sequence of calls that starts from empty tables, whatever the arguments of
-- the calls and whichever statements fail.
use pg_aggregator_back.Common.{
  ℕ, Bool, List, [], ◌∷◌, ◌≡◌, refl, ℤ, neg, ◌+ℤ◌, ◌-ℤ◌, int_laws, arith, ◌==◌, if◌then◌else◌,
  Bool-cases, inl, inr,
}
use pg_aggregator_back.Payment.Request.{Strings}
use pg_aggregator_back.Ledger.{
  EntryType, payment_credit, refund_debit, payout_debit, payout_reversal, adjustment, Entry,
  Summary,
}
use pg_aggregator_back.Store.{Merchant, Db, Conn}
use pg_aggregator_back.Repository.Insert.{sum_ledger}
use pg_aggregator_back.Repository.Balances.{
  sum_of, is_credit, is_payout, is_refund, is_adjustment, aggregate,
}
use pg_aggregator_back.Accounting.{Call, run, run_all}
use pg_aggregator_back.Accounting.Effect.{Effect, run-Effect}
use pg_aggregator_back.Accounting.Total.{total}
use pg_aggregator_back.Accounting.Earned.{earned, Earns, Effect-Earns}
use pg_aggregator_back.Accounting.Returned.{returned, Returns, Effect-Returns}
use pg_aggregator_back.Accounting.Withdrawn.{withdrawn, Withdraws, Effect-Withdraws}
use pg_aggregator_back.Accounting.OpenPayouts.{OneOpen, Effect-OneOpen}
use pg_aggregator_back.Accounting.Refundable.{Covered}
use pg_aggregator_back.Accounting.Refundable.Preserved.{Effect-Covered}

-- Merchants, and nothing else yet.
abbrev pub opened : List Merchant → List Bool → Conn
opened ms faults = record {
  db = record {
    merchants = ms;
    payments = [];
    ledger = [];
    payouts = [];
    refunds = [];
    callbacks = [];
    idempotency_keys = [];
  };
  faults = faults;
}

-- What every change keeps, every sequence of calls keeps.
run_all-keeps :
    (go : Strings) (P : Db → Type 0)
    → ((d d' : Db) → Effect d d' → P d → P d')
    → (xs : List Call) (c : Conn) → P c.db
    → P (run_all go xs c).db
unfolding run_all
run_all-keeps go P step [] c h = h
run_all-keeps go P step (x ∷ xs) c h =
    run_all-keeps go P step xs (run go x c) (step c.db (run go x c).db (run-Effect go x c) h)

by_kind :
    (k : EntryType) (a c p r j : ℤ)
    → a +ℤ (c +ℤ p +ℤ r +ℤ j)
      ≡ (if is_credit k then a +ℤ c else c)
        +ℤ (if is_payout k then a +ℤ p else p)
        +ℤ (if is_refund k then a +ℤ r else r)
        +ℤ (if is_adjustment k then a +ℤ j else j)
by_kind payment_credit a c p r j = grind int_laws
by_kind refund_debit a c p r j = grind int_laws
by_kind payout_debit a c p r j = grind int_laws
by_kind payout_reversal a c p r j = grind int_laws
by_kind adjustment a c p r j = grind int_laws

-- The four kinds of entry make up the balance.
sum_ledger_split :
    (m : ℕ) (es : List Entry)
    → sum_ledger m es
      ≡ sum_of is_credit m es
        +ℤ sum_of is_payout m es
        +ℤ sum_of is_refund m es
        +ℤ sum_of is_adjustment m es
sum_ledger_split m [] = grind int_laws
sum_ledger_split m (e ∷ es) = elim (Bool-cases (e.merchant_id == m)) [
  | inl mine ↦ rw (mine, sum_ledger_split m es) (by_kind e.entry_type e.amount _ _ _ _)
  | inr foreign ↦ rw (foreign, sum_ledger_split m es) refl
]

-- The summary of `m` that its payments, payouts, refunds and adjustments call for.
abbrev pub expected : ℕ → Db → Summary
expected m d =
    let c = total (earned m) d.payments in
    let p = total (withdrawn m) d.payouts in
    let r = total (returned m) d.refunds in
    record {
      balance = c -ℤ p -ℤ r +ℤ sum_of is_adjustment m d.ledger;
      total_credited = c;
      total_paid_out = p;
      total_refunded = r;
    }

neg-neg : (z : ℤ) → neg (neg z) ≡ z
neg-neg z = grind int_laws

signs : (c p r j : ℤ) → c +ℤ neg p +ℤ neg r +ℤ j ≡ c -ℤ p -ℤ r +ℤ j
signs c p r j = grind int_laws

module _ (m : ℕ) (d : Db) where
  summary_of : Earns m d → Withdraws m d → Returns m d → aggregate m d.ledger ≡ expected m d
  summary_of e w r =
      rw
        (
          sum_ledger_split m d.ledger,
          e,
          w,
          r,
          neg-neg (total (withdrawn m) d.payouts),
          neg-neg (total (returned m) d.refunds),
          signs (total (earned m) d.payments) (total (withdrawn m) d.payouts)
              (total (returned m) d.refunds) (sum_of is_adjustment m d.ledger),
        )
        refl

-- After any calls from empty tables, under any schedule of failures, the four aggregates of every
-- merchant's ledger are the ones its payments, payouts, refunds and adjustments call for.
pub run_all-aggregate :
    (go : Strings) (m : ℕ) (ms : List Merchant) (xs : List Call) (faults : List Bool)
    → aggregate m (run_all go xs (opened ms faults)).db.ledger
      ≡ expected m (run_all go xs (opened ms faults)).db
run_all-aggregate go m ms xs faults =
    let c = opened ms faults in
    summary_of m (run_all go xs c).db (run_all-keeps go (Earns m) (Effect-Earns m) xs c refl)
      (run_all-keeps go (Withdraws m) (Effect-Withdraws m) xs c (grind int_laws))
      (run_all-keeps go (Returns m) (Effect-Returns m) xs c (grind int_laws))

-- After any calls from empty tables, under any schedule of failures, a merchant has at most one
-- open payout.
pub run_all-OneOpen :
    (go : Strings) (m : ℕ) (ms : List Merchant) (xs : List Call) (faults : List Bool)
    → OneOpen m (run_all go xs (opened ms faults)).db
run_all-OneOpen go m ms xs faults =
    run_all-keeps go (OneOpen m) (Effect-OneOpen m) xs (opened ms faults) (omega arith)

-- After any calls from empty tables, under any schedule of failures, the refunds of every payment
-- are within its net: they are zero before it is paid, never more than the net, and all of it once
-- the payment is `refunded`; a payment that does not exist has none.
pub run_all-Covered :
    (go : Strings) (id : ℕ) (ms : List Merchant) (xs : List Call) (faults : List Bool)
    → Covered id (run_all go xs (opened ms faults)).db
run_all-Covered go id ms xs faults =
    run_all-keeps go (Covered id) (Effect-Covered id) xs (opened ms faults) refl
