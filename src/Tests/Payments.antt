-- ===== src/Tests/Payments.antt =====
-- The theorems about payments and the webhook at concrete inputs.
use sieshka.Prelude.{
  ℕ, List, ◌++◌, ◌≡◌, ◌≢◌, ◌⊎◌, refl, true, Option, none, some, [], ◌∷◌, ◌==◌, nat_eq, string_eq,
  if◌then◌else◌,
}
use sieshka.Prelude.Dict.{lookup}
use sieshka.Orders.{confirmed, paid, cooking}
use sieshka.Fsm.{moved, skipped}
use sieshka.Database.{pending, success, failed, Db, ok}
use sieshka.Services.Idempotency.{TraceEvent, get_by_trace_id, is_recorded}
use sieshka.Services.Payment.{
  RemotePayment, get_by_provider_id, amount_matches, verify_provider_payment, confirm_payment,
  fail_payment,
}
use sieshka.Services.Payment.Confirmed.{Settled, confirm_payment-Settled, fail_payment-Settled}
use sieshka.Services.Payment.Creation.{create_payment, pending_payment, create_payment_requests}
use sieshka.Services.Order.Transition.{MovedOne}
use sieshka.Orders.{payment_pending}
use sieshka.Services.Payment.Once.{confirm_payment_once}
use sieshka.Webhooks.Yookassa.{accepted, is_handled, yookassa_webhook}
use sieshka.Webhooks.Yookassa.Paid.{paid_remote, created_then_paid}
use sieshka.Webhooks.Yookassa.Gate.{Genuine, yookassa_webhook-Genuine}
use sieshka.Webhooks.Yookassa.Settles.{succeeded, yookassa_webhook-Settled}
use sieshka.Tests.{reserved_2, reserved_5, platform_test, shop, payment}

-- A provider that knows payment 77 only.
abbrev remote : RemotePayment
remote = record {
  status = "succeeded";
  paid = true;
  amount = some (record { value = some 49900; currency = "RUB" });
}

abbrev api : ℕ → Option RemotePayment
api n = if n == 77 then some remote else none

abbrev traced : TraceEvent
traced = record { trace_id = 8; entity_id = 5 }

not_success : pending ≢ success
not_success e = cc

confirm_payment-Settled_example :
    (db' : Db) × (confirm_payment platform_test 5 77 8 shop ≡ (ok (moved paid), db'))
    × Settled platform_test "payment_confirmation" success cooking 5 8 payment shop db'
unfolding lookup get_by_provider_id is_recorded
confirm_payment-Settled_example =
    confirm_payment-Settled platform_test 5 77 8 shop true refl refl reserved_5 refl not_success
      refl

fail_payment-Settled_example :
    (db' : Db) × (fail_payment platform_test 5 77 8 shop ≡ (ok (moved confirmed), db'))
    × Settled platform_test "payment_failure" failed confirmed 5 8 payment shop db'
unfolding lookup get_by_provider_id is_recorded
fail_payment-Settled_example =
    fail_payment-Settled platform_test 5 77 8 shop refl refl refl refl refl

confirm_payment_once_example :
    confirm_payment platform_test 2 78 8 (confirm_payment platform_test 5 77 8 shop).1
    ≡ (ok skipped, (confirm_payment platform_test 5 77 8 shop).1)
confirm_payment_once_example = confirm_payment_once platform_test 5 77 8 2 78 shop

yookassa_webhook-Genuine_example :
    ((yookassa_webhook platform_test api (traced ∷ []) (some (succeeded 8 77)) shop).1 ≡ shop)
    ⊎ ((is_handled "payment.succeeded" ≡ true)
        × Genuine api (traced ∷ []) "payment.succeeded" (some 8) (some 77) shop)
yookassa_webhook-Genuine_example =
    yookassa_webhook-Genuine platform_test api (traced ∷ []) (succeeded 8 77) shop

yookassa_webhook-Settled_example :
    (db' : Db) × (yookassa_webhook platform_test api (traced ∷ []) (some (succeeded 8 77)) shop
      ≡ (ok accepted, db'))
    × Settled platform_test "payment_confirmation" success cooking 5 8 payment shop db'
unfolding lookup get_by_provider_id is_recorded get_by_trace_id verify_provider_payment
    amount_matches
yookassa_webhook-Settled_example =
    yookassa_webhook-Settled platform_test api (traced ∷ []) 8 77 shop true refl refl refl refl refl
      reserved_5 refl not_success refl

create_payment_requests_example :
    (traces' : List TraceEvent) × (db' : Db) × (create_payment platform_test
        (some 78)
        9
        51
        2
        39900
        "RUB"
        (some "sbp")
        (traced ∷ [])
        shop
      ≡ (traces', ok (record { payment_id = 78; trace_id = 9 }), db'))
    × (db'.payments ≡ shop.payments ++ pending_payment 51 2 78 39900 "RUB" ∷ [])
    × MovedOne 2 payment_pending shop db'
    × (get_by_trace_id 9 traces' ≡ some (record { trace_id = 9; entity_id = 2 }))
unfolding lookup get_by_trace_id
create_payment_requests_example =
    create_payment_requests platform_test 78 9 51 2 39900 "RUB" (some "sbp") (traced ∷ []) shop refl
      refl refl refl

-- A provider that knows payment 78 only.
abbrev api_78 : ℕ → Option RemotePayment
api_78 n = if n == 78 then some (paid_remote 39900 "RUB") else none

created_then_paid_example :
    (traces' : List TraceEvent) × (waiting : Db) × (db' : Db) × (create_payment platform_test
        (some 78)
        9
        51
        2
        39900
        "RUB"
        (some "sbp")
        (traced ∷ [])
        shop
      ≡ (traces', ok (record { payment_id = 78; trace_id = 9 }), waiting))
    × (yookassa_webhook platform_test api_78 traces' (some (succeeded 9 78)) waiting
        ≡ (ok accepted, db'))
    × MovedOne 2 cooking shop db'
unfolding lookup get_by_trace_id is_recorded
created_then_paid_example =
    created_then_paid platform_test api_78 78 9 51 2 39900 "RUB" (some "sbp") (traced ∷ []) shop
      true refl refl refl refl reserved_2 refl refl refl
