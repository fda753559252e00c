-- ===== src/Tests/Shop.antt =====
-- A merchant, a payment of 10 000, and one call of each kind.
use pg_aggregator_back.Common.{String, Bool, true, Option, none, some, List, [], ◌∷◌, pos, negsuc}
use pg_aggregator_back.Errors.{Error}
use pg_aggregator_back.Payment.{Payment, pending, production}
use pg_aggregator_back.Payment.Request.{Strings, CreatePaymentRequest}
use pg_aggregator_back.Store.{Merchant, Conn}
use pg_aggregator_back.Repository.Refunds.{RefundRequest}
use pg_aggregator_back.Repository.Payouts.{PayoutRequest, Decision}
use pg_aggregator_back.Repository.Balances.{Adjustment}
use pg_aggregator_back.Accounting.{
  Call, create_payment, settle_payment, refund_payment, request_payout, reject_payout,
  adjust_ledger,
}
use pg_aggregator_back.Accounting.Books.{opened}

-- Texts without surrounding spaces and in lower case already.
abbrev pub plain : Strings
plain = record { trim_space = λ s. s; to_lower = λ s. s; rune_count = λ _. 12 }

abbrev pub any_url : String → Bool → Option Error
any_url url allow_http = none

abbrev pub shop : Merchant
shop = record {
  id = 1;
  is_active = true;
  fee_bearer = "merchant";
  webhook_url = none;
  webhook_secret = none;
  payout_bank_name = some "BCA";
  payout_account_number = some "123";
  payout_account_holder = some "Shop";
}

abbrev pub order : Payment
order = record {
  id = 7;
  reference = "PAY-7";
  merchant_id = 1;
  amount = pos 10000;
  fee_amount = pos 0;
  merchant_net_amount = pos 0;
  currency = "IDR";
  payment_method = "qris";
  provider_name = "cashi";
  provider_reference = some "C-7";
  status = pending;
  description = "order";
  customer_name = none;
  customer_email = none;
  qris_data = none;
  callback_url = none;
  environment = production;
  payment_link_id = none;
  expires_at = 1800;
  paid_at = none;
  created_at = 0;
  updated_at = 0;
}

abbrev pub asked_payment : CreatePaymentRequest
asked_payment = record {
  merchant_id = 1;
  amount = pos 10000;
  currency = "";
  payment_method = "qris";
  description = "order";
  customer_name = none;
  customer_email = none;
  callback_url = none;
  expires_in_minutes = pos 0;
  environment_text = "live";
  use_custom_merchant_name = true;
  payment_link_id = none;
}

abbrev pub give_back : RefundRequest
give_back = record {
  payment_id = 7;
  amount = pos 4000;
  reason = "wrong size";
  admin_id = none;
  refund_id = 21;
  entry_id = 102;
  now = 200;
}

abbrev pub withdrawal : PayoutRequest
withdrawal = record {
  merchant_id = 1;
  amount = pos 5000;
  min_amount = pos 1000;
  requested_by = none;
  payout_id = 31;
  entry_id = 103;
  now = 300;
}

abbrev pub refusal : Decision
refusal = record { payout_id = 31; note = "closed"; admin_id = none; entry_id = 104; now = 400 }

abbrev pub correction : Adjustment
correction = record {
  merchant_id = 1;
  amount = negsuc 99;
  reason = "chargeback";
  admin_id = none;
  entry_id = 105;
  now = 500;
}

-- A life of the shop's books, in order.
abbrev pub day : List Call
day =
    create_payment order
    ∷ settle_payment 101 7 (some 100) (pos 9930) 100
    ∷ refund_payment give_back
    ∷ request_payout withdrawal
    ∷ reject_payout refusal
    ∷ adjust_ledger correction
    ∷ []

abbrev pub morning : Conn
morning = opened (shop ∷ []) []

-- The order is created.
abbrev pub created_order : Conn
created_order = record { db = record morning.db { payments = order ∷ [] }; faults = [] }
