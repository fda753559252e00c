-- ===== src/Creation/Failed.antt =====
-- A creation that failed has stored nothing.
use pg_aggregator_back.Common.{ℕ, String, Bool, Option, ◌≡◌, refl}
use pg_aggregator_back.Errors.{Error, Result, err}
use pg_aggregator_back.Payment.{Payment}
use pg_aggregator_back.Payment.Request.{Strings, CreatePaymentRequest, validate}
use pg_aggregator_back.Store.{Conn}
use pg_aggregator_back.Store.Action.{pure, ◌>>◌}
use pg_aggregator_back.Store.Inversion.{
  ReadsOnly, Atomic, query-ReadsOnly, exec-Atomic, >>=-Atomic, >>=-Atomic_read,
}
use pg_aggregator_back.Repository.Payments.{create, insert_payment}
use pg_aggregator_back.Creation.{
  Service, Draws, check_merchant_for_create, charged_payment, lift, create_payment,
}

lift-ReadsOnly : {A : Type 0} (r : Result A) → ReadsOnly (lift r)
lift-ReadsOnly r c = refl

check_merchant-ReadsOnly : (id : ℕ) → ReadsOnly (check_merchant_for_create id)
unfolding check_merchant_for_create
check_merchant-ReadsOnly id = query-ReadsOnly _

stored-Atomic : (p : Payment) → Atomic (create p >> pure p)
unfolding create
stored-Atomic p =
    >>=-Atomic (create p) (λ _. pure p) (exec-Atomic (insert_payment p)) (λ u c c₁ c' e ran h. cc h)

-- If `CreatePayment` returns an error, whether of the validation, the merchant, every provider that
-- was tried, the price or the INSERT, no table has changed.
pub create_payment-err :
    (go : Strings) (validate_url : String → Bool → Option Error) (s : Service) (k : Draws)
    (req : CreatePaymentRequest) (c c' : Conn) (e : Error)
    → create_payment go validate_url s k req c ≡ (err e, c')
    → c'.db ≡ c.db
unfolding create_payment
create_payment-err go validate_url s k req c c' e h =
    >>=-Atomic_read (lift (validate go validate_url req)) _
      (lift-ReadsOnly (validate go validate_url req))
      (λ v.
        >>=-Atomic_read (check_merchant_for_create v.request.merchant_id) _
          (check_merchant-ReadsOnly v.request.merchant_id)
          (λ b.
            >>=-Atomic_read (lift (charged_payment s k v b)) (λ p. create p >> pure p)
              (lift-ReadsOnly (charged_payment s k v b)) stored-Atomic))
      c c' e h
