-- ===== src/Services/Payment.antt =====
-- app/services/payment_service.py and app/repositories/payment_repo.py: the payment of an order, how
-- it is requested, verified against the provider, confirmed and failed. YooKassa is a parameter.
pub mod Resume
pub mod Creation
pub mod Confirmed
pub mod Once
use mathlib.Core.Option
use sieshka.Prelude.{
  ℕ, Bool, true, false, not, ◌&&◌, ◌||◌, String, Option, none, some, List, [], ◌∷◌, ◌++◌, ◌≡◌, ◌↔◌,
  Eq, nat_beq, arith, ◌==◌, string_eq, nat_eq, if◌then◌else◌,
}
use sieshka.Prelude.Dict.{lookup}
use sieshka.Orders.{
  OrderState, OrderEvent, order_transitions, request_payment, payment_confirmed, payment_failed,
  start_cooking,
}
use sieshka.Fsm.{TransitionResult, rejected, skipped, moved}
use sieshka.Database.{
  PaymentState, pending, success, failed, PaymentRow, OrderRow, Db, no_result, Result, ok, err,
  Session, continue, pure, ◌>>=◌,
}
use sieshka.Vm.{Values, ident, Trace, Platform}
use sieshka.Programs.{build_simple_program, event_name}
use sieshka.Services.Order.{governed_tools, transition_order}
use sieshka.Services.Idempotency.{TraceEvent, check_and_record, record_event}

abbrev pub with_provider : ℕ → List PaymentRow → List PaymentRow
with_provider provider_id [] = []
with_provider provider_id (p ∷ payments) =
    let rest = with_provider provider_id payments in
    if p.provider_id == provider_id then p ∷ rest else rest

abbrev pub only : List PaymentRow → Option PaymentRow
only (p ∷ []) = some p
only _ = none

-- `result.one()`: it raises, here `none`, unless exactly one payment has the id.
unfoldable pub get_by_provider_id : ℕ → List PaymentRow → Option PaymentRow
get_by_provider_id provider_id payments = only (with_provider provider_id payments)

-- `UPDATE payments SET state = :state WHERE id = :id`.
unfoldable pub set_state : ℕ → PaymentState → List PaymentRow → List PaymentRow
set_state id s [] = []
set_state id s (p ∷ payments) =
    (if p.id == id then record p { state = s } else p) ∷ set_state id s payments

abbrev pub write_state : ℕ → PaymentState → Db → Db
write_state id s db = record db { payments = set_state id s db.payments }

-- What YooKassa's API says of a payment: "value" is `none` where it is no decimal number, and a
-- missing object or entry is `none` or the empty text. Amounts are whole kopecks.
pub record RemoteAmount : Type 0 where
  pub value : Option ℕ
  pub currency : String

pub record RemotePayment : Type 0 where
  pub status : String
  pub paid : Bool
  pub amount : Option RemoteAmount

unfoldable pub amount_matches : Option RemoteAmount → PaymentRow → Bool
amount_matches none local = false
amount_matches (some remote) local = elim remote.value [
  | none ↦ false
  | some charged ↦ (charged == local.amount) && (remote.currency == local.currency)
]

-- `verify_provider_payment`, after the API has answered.
unfoldable pub verify_provider_payment : RemotePayment → ℕ → String → Db → Bool
unfolding amount_matches
verify_provider_payment remote provider_id expected_status db =
    elim (get_by_provider_id provider_id db.payments) [
      | none ↦ false
      | some local ↦
          if not (remote.status == expected_status)
          then false
          else if (expected_status == "succeeded") && not remote.paid
          then false
          else amount_matches remote.amount local
    ]

abbrev pub is_success : PaymentState → Bool
is_success success = true
is_success _ = false

abbrev pub is_closed : PaymentState → Bool
is_closed pending = false
is_closed _ = true

module _ (platform : Platform) where
  -- How a run of a simple program is reported. The caller commits what it has written.
  abbrev pub report :
      OrderEvent → OrderState → Trace × Db → TransitionResult OrderState OrderEvent × Db
  report event new_state (trace, db) = elim trace.status [
    | ok _ ↦ (moved new_state, db)
    | err _ ↦ (rejected event, db)
  ]

  -- `_run_simple_transition`.
  unfoldable pub run_simple_transition :
      ℕ → OrderEvent → OrderState → Db → TransitionResult OrderState OrderEvent × Db
  run_simple_transition order_id event current db = elim (order_transitions current event) [
    | none ↦ (rejected event, db)
    | some new_state ↦ report event new_state (
        platform.run (governed_tools platform)
          (build_simple_program (event_name event) current new_state)
          (("order_id", ident order_id) ∷ []) db)
  ]

  -- `OrderRepository.get_state`, which raises where there is no such order: the session is closed
  -- without a commit, and the database is the one `before`.
  unfoldable pub resume :
      ℕ → OrderEvent → Db → Db → Result (TransitionResult OrderState OrderEvent) × Db
  resume order_id event before db = elim (lookup order_id db.orders) [
    | none ↦ (err no_result, before)
    | some o ↦
        let (result, db') = run_simple_transition order_id event o.state db in (ok result, db')
  ]

  -- The order goes on to the kitchen if it is paid; the answer of that transition is only logged.
  unfoldable pub advance :
      ℕ
      → Result (TransitionResult OrderState OrderEvent)
      → Session (TransitionResult OrderState OrderEvent)
  advance order_id (err f) db = (err f, db)
  advance order_id (ok result) db =
      if result.success
      then (let (cooking, db') = transition_order platform order_id start_cooking db in
          continue cooking (λ _ d. (ok result, d)) db')
      else (ok result, db)

  -- After the resume point has been recorded: the payment is known and not in one of the states
  -- `closed`, or nothing more is done.
  unfoldable pub settle_new :
      (PaymentState → Bool)
      → PaymentState
      → OrderEvent
      → ℕ
      → ℕ
      → Session (TransitionResult OrderState OrderEvent)
  settle_new closed target event order_id provider_id db =
      elim (get_by_provider_id provider_id db.payments) [
        | none ↦ (ok skipped, db)
        | some p ↦
            if closed p.state
            then (ok skipped, db)
            else resume order_id event db (write_state p.id target db)
      ]

  -- The body that the two resume points share: at most once for a key.
  unfoldable pub settle_payment :
      String
      → (PaymentState → Bool)
      → PaymentState
      → OrderEvent
      → ℕ
      → ℕ
      → ℕ
      → Session (TransitionResult OrderState OrderEvent)
  settle_payment step closed target event order_id provider_id trace_id =
      check_and_record trace_id step >>= λ first.
      if first then settle_new closed target event order_id provider_id else pure skipped

  unfoldable pub confirm_payment : ℕ → ℕ → ℕ → Session (TransitionResult OrderState OrderEvent)
  confirm_payment order_id provider_id trace_id db =
      let (result, db') =
        settle_payment "payment_confirmation" is_success success payment_confirmed order_id
          provider_id trace_id db in
      advance order_id result db'

  unfoldable pub fail_payment : ℕ → ℕ → ℕ → Session (TransitionResult OrderState OrderEvent)
  fail_payment order_id provider_id trace_id db =
      settle_payment "payment_failure" is_closed failed payment_failed order_id provider_id trace_id
        db
