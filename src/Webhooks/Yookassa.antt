-- ===== src/Webhooks/Yookassa.antt =====
-- app/webhooks/yookassa.py: a notification is acted on only after the provider has confirmed it.
pub mod Gate
pub mod Settles
pub mod Paid
use sieshka.Prelude.{
  ℕ, Bool, true, false, not, ◌||◌, String, Option, none, some, List, ◌==◌, nat_eq, string_eq,
  if◌then◌else◌,
}
use sieshka.Database.{Db, Result, ok, Session, pure, ◌>>=◌, ◌>>◌}
use sieshka.Vm.{Platform}
use sieshka.Services.Idempotency.{TraceEvent, get_by_trace_id}
use sieshka.Services.Payment.{RemotePayment, verify_provider_payment, confirm_payment, fail_payment}

-- The parts of the body that the handler reads. A missing or empty id is `none`.
pub record Notification : Type 0 where
  pub event : String
  pub trace_id : Option ℕ
  pub payment_id : Option ℕ

-- Status 200 with {"ok": true}, and status 502, after which the provider tries again.
pub data Response : Type 0 where
  accepted unavailable : Response

abbrev pub expected_status : String → String
expected_status event = if event == "payment.succeeded" then "succeeded" else "canceled"

abbrev pub is_handled : String → Bool
is_handled event = event == "payment.succeeded" || event == "payment.canceled"

module _ (platform : Platform) where
  -- The transition of a verified notification; its answer is only logged.
  unfoldable pub settle_notification : String → ℕ → ℕ → ℕ → Session Response
  settle_notification event order_id payment_id trace_id =
      if event == "payment.succeeded"
      then confirm_payment platform order_id payment_id trace_id >> pure accepted
      else (fail_payment platform order_id payment_id trace_id >> pure accepted)

  -- `none` is an API that cannot be reached.
  unfoldable pub check_provider : Option RemotePayment → String → ℕ → ℕ → ℕ → Session Response
  check_provider none event order_id payment_id trace_id db = pure unavailable db
  check_provider (some remote) event order_id payment_id trace_id db =
      if verify_provider_payment remote payment_id (expected_status event) db
      then settle_notification event order_id payment_id trace_id db
      else pure accepted db

  -- The order is the one that the trace id was recorded for.
  unfoldable pub with_order :
      (ℕ → Option RemotePayment) → Option TraceEvent → String → ℕ → ℕ → Session Response
  with_order get_payment none event payment_id trace_id = pure accepted
  with_order get_payment (some traced) event payment_id trace_id =
      check_provider (get_payment payment_id) event traced.entity_id payment_id trace_id

  unfoldable pub with_ids :
      (ℕ → Option RemotePayment) → List TraceEvent → String → Option ℕ → Option ℕ → Session Response
  with_ids get_payment traces event (some trace_id) (some payment_id) =
      with_order get_payment (get_by_trace_id trace_id traces) event payment_id trace_id
  with_ids get_payment traces event _ _ = pure accepted

  -- `none` is a body that is no JSON, or whose "object" or "metadata" is no object.
  unfoldable pub yookassa_webhook :
      (ℕ → Option RemotePayment) → List TraceEvent → Option Notification → Session Response
  yookassa_webhook get_payment traces none = pure accepted
  yookassa_webhook get_payment traces (some n) =
      if is_handled n.event
      then with_ids get_payment traces n.event n.trace_id n.payment_id
      else pure accepted
