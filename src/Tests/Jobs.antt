-- ===== src/Tests/Jobs.antt =====
-- The jobs at concrete payments.
use pg_aggregator_back.Common.{
  ℕ, Bool, true, false, none, some, List, [], ◌∷◌, ◌≡◌, refl, ◌⊎◌, arith, pos,
}
use pg_aggregator_back.Errors.{ok}
use pg_aggregator_back.Payment.{Payment, paid}
use pg_aggregator_back.Settlement.{NormalizedPaymentStatus}
use pg_aggregator_back.Webhook.{WebhookProvider}
use pg_aggregator_back.Repository.Scans.{is_candidate}
use pg_aggregator_back.Reconcile.{Check, reconcile_windows, reconcile_payment_data}
use pg_aggregator_back.Reconcile.Confirmed.{
  Same, Expires, SettlesChecked, reconcile_payment_data-Checked,
}
use pg_aggregator_back.Reconcile.Pages.{scan, scan-newest_first}
use pg_aggregator_back.Tests.Shop.{plain, order, created_order}

abbrev settled : NormalizedPaymentStatus
settled = record { status = paid; amount = some (pos 10000); paid_at = none }

abbrev gateway : WebhookProvider
gateway = record {
  name = "cashi";
  validate_webhook = λ raw signature. true;
  parse_webhook = λ raw.
      ok (record { provider_reference = "C-7"; status = paid; paid_at = none; amount = none });
  get_payment_status = λ ref. ok (some settled);
}

abbrev check_at : ℕ → Check
check_at now = record {
  go = plain;
  registry = record { provider_by_name = λ name. ok gateway; equal_fold = λ a b. true };
  entry_id = 101;
  delivery_id = 301;
  now = now;
}

reconcile_payment_data-Checked_example :
    Same created_order.db (reconcile_payment_data (check_at 500) order created_order).1.db
    ⊎ (Expires
          (check_at 500)
          order
          created_order.db
          (reconcile_payment_data (check_at 500) order created_order).1.db
        ⊎ SettlesChecked
            (check_at 500)
            order
            created_order.db
            (reconcile_payment_data (check_at 500) order created_order).1.db)
reconcile_payment_data-Checked_example =
    reconcile_payment_data-Checked (check_at 500) order created_order

-- An order like the first, made at some time.
abbrev order_at : ℕ → ℕ → Payment
order_at id t = record order { id = id; created_at = t }

abbrev orders : List Payment
orders = order_at 1 100 ∷ order_at 2 300 ∷ order_at 3 200 ∷ order_at 4 300 ∷ order_at 5 50 ∷ []

abbrev wanted : Payment → Bool
wanted p = is_candidate (λ id. false) reconcile_windows 1000 p

scan-newest_first_example :
    scan wanted 2 6 none orders
    ≡ order_at 4 300 ∷ order_at 2 300 ∷ order_at 3 200 ∷ order_at 1 100 ∷ order_at 5 50 ∷ []
scan-newest_first_example = scan-newest_first wanted 1 6 orders refl (omega arith)
