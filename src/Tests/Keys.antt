-- ===== src/Tests/Keys.antt =====
-- A creation under a key, and the same call again.
use pg_aggregator_back.Common.{true, false, ◌+◌, none, some, [], ◌∷◌, ◌≡◌, refl, pos}
use pg_aggregator_back.Errors.{ok}
use pg_aggregator_back.Payment.{pending, production, is_valid_status}
use pg_aggregator_back.Payment.Request.{
  filled, validate, field_error, parse_environment, check_callback,
}
use pg_aggregator_back.Idempotency.{claim, complete, validate_key}
use pg_aggregator_back.Store.{Conn}
use pg_aggregator_back.Store.Action.{query, exec}
use pg_aggregator_back.Repository.Payments.{create, insert_payment}
use pg_aggregator_back.Repository.Keys.{claim_key, complete_key}
use pg_aggregator_back.Creation.{
  ProviderPaymentResponse, Provider, Service, create_payment, check_merchant_for_create,
  charged_payment, chosen, from_response, new_payment, attempts, attempt, charge_for, priced,
}
use pg_aggregator_back.Creation.Idempotent.{
  IdempotentPayment, Surroundings, create_claimed, claim_loop, create_payment_idempotent,
}
use pg_aggregator_back.Creation.Replayed.{again, create_payment_idempotent-replays}
use pg_aggregator_back.Tests.Shop.{plain, any_url, asked_payment, morning}

abbrev bill : ProviderPaymentResponse
bill = record {
  provider_reference = "C-9";
  provider_name = "cashi";
  status = pending;
  amount = pos 10000;
  qris_data = some "000201";
  expires_at = none;
}

abbrev cashier : Provider
cashier = record { name = "cashi"; quote_total = none; create_payment = λ r. ok (some bill) }

abbrev one_service : Service
one_service = record {
  sandbox_provider = none;
  resolve_providers = λ m method. ok (record { provider = cashier; failover_enabled = true } ∷ []);
  build_callback_url = λ name. name;
}

abbrev first_call : Surroundings
first_call = record {
  go = plain;
  validate_url = any_url;
  service = one_service;
  draws = record { id = 9; reference = "PAY-9"; now = 1000 };
  request_hash = λ r. r.description;
  claim_id = λ i. 500 + i;
  clock = λ i. 1000;
  meanwhile = λ i rs. rs;
}

abbrev first_run : Conn
first_run = (create_payment_idempotent first_call asked_payment (75 ∷ []) morning).1

abbrev first_payment : IdempotentPayment
first_payment = record {
  payment =
      from_response bill (new_payment first_call.draws (filled asked_payment production none));
  replayed = false;
}

creates :
    create_payment_idempotent first_call asked_payment (75 ∷ []) morning
    ≡ (ok first_payment, first_run)
unfolding create_payment_idempotent claim_loop create_claimed create_payment validate field_error
    parse_environment check_callback check_merchant_for_create charged_payment chosen attempts
    attempt charge_for priced query exec create insert_payment claim_key complete_key claim complete
    validate_key is_valid_status
creates = refl

create_payment_idempotent-replays_example :
    (q : IdempotentPayment) × (c'' : Conn) × (create_payment_idempotent
        (again first_call one_service first_call.draws (λ i. 600) (λ i. 80000))
        asked_payment
        (75 ∷ [])
        first_run
      ≡ (ok q, c''))
    × (q.replayed ≡ true)
    × (q.payment.id ≡ 9)
    × (c''.db ≡ first_run.db)
create_payment_idempotent-replays_example =
    create_payment_idempotent-replays first_call one_service first_call.draws (λ i. 600)
      (λ i. 80000) asked_payment 75 [] morning first_run first_payment refl creates refl (λ i. refl)
