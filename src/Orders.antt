-- ===== src/Orders.antt =====
-- app/domains/orders: the states and events of an order and the graph of its transitions.
pub mod Lifecycle
use sieshka.Prelude.{ℕ, Option, none, some, List, [], ◌∷◌, Bool, true, ◌≡◌, ◌↔◌, Eq, nat_beq, arith}

pub data OrderState : Type 0 where
  draft confirmed payment_pending paid cooking packing courier_assigned delivering delivered closed
        cancelled :
      OrderState

pub data OrderEvent : Type 0 where
  confirm request_payment payment_confirmed payment_failed start_cooking start_packing
        assign_courier pickup deliver close cancel :
      OrderEvent

-- The members of the enumeration in order, for the comparison of two states.
abbrev pub index : OrderState → ℕ
index draft = 0
index confirmed = 1
index payment_pending = 2
index paid = 3
index cooking = 4
index packing = 5
index courier_assigned = 6
index delivering = 7
index delivered = 8
index closed = 9
index cancelled = 10

abbrev pub state_beq : OrderState → OrderState → Bool
state_beq s t = nat_beq (index s) (index t)

pub state_beq_iff : (s t : OrderState) → (state_beq s t ≡ true) ↔ (s ≡ t)
state_beq_iff s t = (λ h. ground arith, λ h. ground arith)

instance abbrev pub order_state_eq : Eq OrderState
order_state_eq = record { same = state_beq; same_iff = state_beq_iff }

-- `ORDER_TRANSITIONS.get(state, {}).get(event)`.
unfoldable pub order_transitions : OrderState → OrderEvent → Option OrderState
order_transitions draft confirm = some confirmed
order_transitions draft cancel = some cancelled
order_transitions confirmed request_payment = some payment_pending
order_transitions confirmed start_cooking = some cooking
order_transitions confirmed cancel = some cancelled
order_transitions payment_pending payment_confirmed = some paid
order_transitions payment_pending payment_failed = some confirmed
order_transitions payment_pending cancel = some cancelled
order_transitions paid start_cooking = some cooking
order_transitions paid cancel = some cancelled
order_transitions cooking start_packing = some packing
order_transitions packing assign_courier = some courier_assigned
order_transitions packing close = some closed
order_transitions courier_assigned pickup = some delivering
order_transitions delivering deliver = some delivered
order_transitions delivered close = some closed
order_transitions _ _ = none

abbrev pub all_events : List OrderEvent
all_events =
    confirm ∷ request_payment ∷ payment_confirmed ∷ payment_failed ∷ start_cooking ∷ start_packing
    ∷ assign_courier ∷ pickup ∷ deliver ∷ close ∷ cancel ∷ []
