-- ===== src/Services/Dispatch/Permitted.antt =====
-- What a role cannot do to an order.
use sieshka.Prelude.{
  Bool, true, false, ℕ, ◌≡◌, refl, ◌⊎◌, inl, inr, true, String, Option, none, some, Option-cases,
  Bool-cases, ◌==◌, nat_eq, nat_beq_iff, string_eq,
}
use sieshka.Prelude.Dict.{lookup}
use sieshka.Orders.{OrderState, OrderEvent, all_events, order_transitions}
use sieshka.Fsm.{TransitionResult}
use sieshka.Database.{Db, Result, ok, err, continue, pure, OrderRow}
use sieshka.Vm.{Platform}
use sieshka.Services.Order.{transition_order}
use sieshka.Services.Order.Transition.{state_of, Outcome, transition_order-Outcome}
use sieshka.Services.Dispatch.{StaffRole, order_event_of, order_role_events, dispatch_order}

-- An order before and after a member of the staff acted: where it was, or moved by an event that the
-- role has.
abbrev pub Permitted : StaffRole → Option OrderState → Option OrderState → Type 0
Permitted role before after =
    (after ≡ before)
    ⊎ ((s : OrderState) × (t : OrderState) × (e : OrderEvent) × (before ≡ some s)
        × (after ≡ some t)
        × (order_role_events role e ≡ true)
        × (order_transitions s e ≡ some t))

Outcome-Permitted :
    (role : StaffRole) (answer : Option OrderState) (stopped : Bool) (order_id j : ℕ)
    (event : OrderEvent) (db : Db) (out : Result (TransitionResult OrderState OrderEvent) × Db)
    {o : OrderRow}
    → order_role_events role event ≡ true
    → lookup order_id db.orders ≡ some o
    → order_transitions o.state event ≡ answer
    → Outcome answer stopped order_id event db out
    → Permitted role (state_of j db) (state_of j out.1)
Outcome-Permitted role (some t) true order_id j event db out may h g e = inl (rw e refl)
Outcome-Permitted role none stopped order_id j event db out may h g e = inl (rw e refl)
Outcome-Permitted role (some t) false order_id j event db out {o} may h g (db', e, moves) =
    elim (Bool-cases (order_id == j)) [
      | inl same ↦ inr (
        o.state,
        t,
        event,
        rw (← (nat_beq_iff order_id j).0 same, h) refl,
        rw e (rw (moves j, same) refl),
        may,
        g,
      )
      | inr differs ↦ inl (rw e (rw (moves j, differs) refl))
    ]

answered :
    {A B : Type 0} (r : Result A) (f : A → B) (db : Db) → (continue r (λ a. pure (f a)) db).1 ≡ db
answered (ok a) f db = refl
answered (err f) g db = refl

module _ (platform : Platform) where
  transition-Permitted :
      (role : StaffRole) (order_id j : ℕ) (event : OrderEvent) (db : Db)
      → order_role_events role event ≡ true
      → Permitted role (state_of j db) (state_of j (transition_order platform order_id event db).1)
  unfolding transition_order
  transition-Permitted role order_id j event db may =
      elim (Option-cases (lookup order_id db.orders)) [
        | inl missing ↦ inl (rw (transition_order, missing) refl)
        | inr (o, h) ↦
            Outcome-Permitted role (order_transitions o.state event) _ order_id j event db
              (transition_order platform order_id event db) may h refl
              (transition_order-Outcome platform order_id event db h)
      ]

  -- Whatever a member of the staff asks of any order, by whatever name of an event: every order is
  -- where it was, or it moved along the edge of an event that the role has.
  pub dispatch_order-Permitted :
      (role : StaffRole) (order_id : ℕ) (event_str : String) (db : Db) (j : ℕ)
      → Permitted role
          (state_of j db)
          (state_of j (dispatch_order platform role order_id event_str db).1)
  unfolding dispatch_order
  dispatch_order-Permitted role order_id event_str db j =
      elim (Option-cases (order_event_of event_str all_events)) [
        | inl unknown ↦ inl (rw (dispatch_order, unknown) refl)
        | inr (event, is_event) ↦ elim (Bool-cases (order_role_events role event)) [
          | inr denied ↦ inl (rw (dispatch_order, is_event, denied) refl)
          | inl may ↦
              rw
                (
                  dispatch_order,
                  is_event,
                  may,
                  answered (transition_order platform order_id event db).0 some
                      (transition_order platform order_id event db).1,
                )
                (transition-Permitted role order_id j event db may)
        ]
      ]
