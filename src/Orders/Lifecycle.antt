-- ===== src/Orders/Lifecycle.antt =====
-- What the graph of app/domains/orders/models.py promises over every sequence of events.
use sieshka.Prelude.{
  ℕ, suc, ◌+◌, ◌*◌, ◌≤◌, ◌≡◌, refl, ◌⊎◌, inl, inr, Bool, true, false, Option, none, some, List, [],
  ◌∷◌, arith,
}
use sieshka.Orders.{
  OrderState, OrderEvent, draft, confirmed, payment_pending, paid, cooking, packing,
  courier_assigned, delivering, delivered, closed, cancelled, confirm, payment_confirmed,
  payment_failed, start_cooking, start_packing, pickup, deliver, close, order_transitions,
}

-- One accepted event.
pub data Step : OrderState → OrderState → Type 0 where
  by : {s t : OrderState} (e : OrderEvent) → order_transitions s e ≡ some t → Step s t

pub data Reach (s : OrderState) : OrderState → Type 0 where
  here : Reach s s
  next : {t u : OrderState} → Reach s t → Step t u → Reach s u

-- An event that the graph refuses leaves the state alone.
abbrev pub after : OrderState → OrderEvent → OrderState
after s e = elim (order_transitions s e) [ none ↦ s | some t ↦ t ]

pub run : OrderState → List OrderEvent → OrderState
run s [] = s
run s (e ∷ es) = run (after s e) es

-- The number of refused payments in a history.
abbrev pub failures : List OrderEvent → ℕ
failures [] = 0
failures (payment_failed ∷ es) = suc (failures es)
failures (_ ∷ es) = failures es

-- The number of events of a history that are accepted.
pub accepted : OrderState → List OrderEvent → ℕ
accepted s [] = 0
accepted s (e ∷ es) =
    let rest = accepted (after s e) es in
    elim (order_transitions s e) [ none ↦ rest | some t ↦ suc rest ]

-- The stages of an order, in the order in which it can pass them.
abbrev pub stage : OrderState → ℕ
stage draft = 0
stage confirmed = 1
stage payment_pending = 2
stage paid = 3
stage cooking = 4
stage packing = 5
stage courier_assigned = 6
stage delivering = 7
stage delivered = 8
stage closed = 9
stage cancelled = 9

-- The kitchen has begun: from here on the goods are made.
abbrev pub is_started : OrderState → Bool
is_started cooking = true
is_started packing = true
is_started courier_assigned = true
is_started delivering = true
is_started delivered = true
is_started closed = true
is_started _ = false

abbrev pub IsTerminal : OrderState → Type 0
IsTerminal s = (s ≡ closed) ⊎ (s ≡ cancelled)

abbrev is_accepted : Option OrderState → ℕ
is_accepted none = 0
is_accepted (some t) = 1

step_stage :
    (s : OrderState) (e : OrderEvent)
    → is_accepted (order_transitions s e) + stage s ≤ stage (after s e) + 2 * failures (e ∷ [])
unfolding order_transitions
step_stage s e = ground arith

failures-cons :
    (e : OrderEvent) (es : List OrderEvent) → failures (e ∷ es) ≡ failures (e ∷ []) + failures es
failures-cons payment_failed es = omega arith
failures-cons _ es = omega arith

accepted-cons :
    (s : OrderState) (e : OrderEvent) (es : List OrderEvent)
    → accepted s (e ∷ es) ≡ is_accepted (order_transitions s e) + accepted (after s e) es
unfolding accepted
accepted-cons s e es = ground arith

-- However long a history is, and whatever it asks for, an order goes through at most nine accepted
-- transitions, and two more for each failed payment.
pub accepted_bounded :
    (s : OrderState) (es : List OrderEvent)
    → accepted s es + stage s ≤ stage (run s es) + 2 * failures es
unfolding run
accepted_bounded s [] = unfold accepted in omega arith
accepted_bounded s (e ∷ es) = omega (
  arith,
  accepted-cons s e es,
  failures-cons e es,
  step_stage s e,
  accepted_bounded (after s e) es,
)

-- Every order can still come to an end: it is closed already, or cancelled, or some sequence of
-- accepted events closes it.
pub can_end : (s : OrderState) → (s ≡ cancelled) ⊎ Reach s closed
unfolding order_transitions
can_end cancelled = inl refl
can_end closed = inr here
can_end delivered = inr (next here (by close refl))
can_end delivering = inr (next (next here (by deliver refl)) (by close refl))
can_end courier_assigned =
    inr (next (next (next here (by pickup refl)) (by deliver refl)) (by close refl))
can_end packing = inr (next here (by close refl))
can_end cooking = inr (next (next here (by start_packing refl)) (by close refl))
can_end paid =
    inr (next (next (next here (by start_cooking refl)) (by start_packing refl)) (by close refl))
can_end payment_pending = inr (
    next
      (next (next (next here (by payment_confirmed refl)) (by start_cooking refl))
        (by start_packing refl))
      (by close refl))
can_end confirmed =
    inr (next (next (next here (by start_cooking refl)) (by start_packing refl)) (by close refl))
can_end draft = inr (
    next (next (next (next here (by confirm refl)) (by start_cooking refl)) (by start_packing refl))
      (by close refl))

started_stays :
    (s : OrderState) (e : OrderEvent) → is_started s ≡ true → is_started (after s e) ≡ true
unfolding order_transitions
started_stays s e h = ground arith

-- Once the kitchen has started on an order, no sequence of events cancels it.
pub started_never_cancelled :
    (s : OrderState) (es : List OrderEvent) → is_started s ≡ true → is_started (run s es) ≡ true
unfolding run
started_never_cancelled s [] h = h
started_never_cancelled s (e ∷ es) h = started_never_cancelled (after s e) es (started_stays s e h)
