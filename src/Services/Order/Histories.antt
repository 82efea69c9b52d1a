-- ===== src/Services/Order/Histories.antt =====
-- Orders over any sequence of requested transitions.
use sieshka.Prelude.{
  Bool, true, false, ℕ, ◌≡◌, refl, ap, inl, inr, Option, none, some, List, [], ◌∷◌, Bool-cases,
  Option-cases, ◌==◌, nat_eq, nat_beq_iff,
}
use sieshka.Prelude.Dict.{lookup}
use sieshka.Orders.{OrderState, OrderEvent, order_transitions}
use sieshka.Orders.Lifecycle.{by, Reach, here, next}
use sieshka.Fsm.{TransitionResult}
use sieshka.Database.{OrderRow, Db, Result}
use sieshka.Vm.{Platform}
use sieshka.Services.Order.{transition_order}
use sieshka.Services.Order.Transition.{state_of, Outcome, transition_order-Outcome}

Reach-trans : {s t u : OrderState} → Reach s t → Reach t u → Reach s u
Reach-trans r here = r
Reach-trans r (next q st) = next (Reach-trans r q) st

-- Every order that was there is there, in a state that the graph leads to.
abbrev pub FollowsGraph : Db → Db → Type 0
FollowsGraph db db' =
    (j : ℕ) (s : OrderState)
    → state_of j db ≡ some s
    → (t : OrderState) × (state_of j db' ≡ some t) × Reach s t

same_state :
    (i j : ℕ) (db : Db) {o : OrderRow} {s : OrderState}
    → lookup i db.orders ≡ some o
    → i ≡ j
    → state_of j db ≡ some s
    → o.state ≡ s
same_state i j db h p e = cc (ap (λ (k : ℕ). lookup k db.orders) p)

Outcome-FollowsGraph :
    (answer : Option OrderState) (stopped : Bool) (order_id : ℕ) (event : OrderEvent) (db : Db)
    (out : Result (TransitionResult OrderState OrderEvent) × Db) {o : OrderRow}
    → lookup order_id db.orders ≡ some o
    → order_transitions o.state event ≡ answer
    → Outcome answer stopped order_id event db out
    → FollowsGraph db out.1
Outcome-FollowsGraph (some t) true order_id event db out h g e j s is_s = (s, rw e is_s, here)
Outcome-FollowsGraph none stopped order_id event db out h g e j s is_s = (s, rw e is_s, here)
Outcome-FollowsGraph (some t) false order_id event db out {o} h g (db', e, moves) j s is_s =
    elim (Bool-cases (order_id == j)) [
      | inl same ↦
          let p = (nat_beq_iff order_id j).0 same in
          (
            t,
            rw e (rw (moves j, same) refl),
            next here (by event (rw (same_state order_id j db h p is_s) at g)),
          )
      | inr differs ↦ (s, rw e (rw (moves j, differs) is_s), here)
    ]

module _ (platform : Platform) where
  step-FollowsGraph :
      (order_id : ℕ) (event : OrderEvent) (db : Db)
      → FollowsGraph db (transition_order platform order_id event db).1
  step-FollowsGraph order_id event db = elim (Option-cases (lookup order_id db.orders)) [
    | inl missing ↦
        λ j s is_s. (s, unfold transition_order in rw (transition_order, missing) is_s, here)
    | inr (o, h) ↦
        Outcome-FollowsGraph (order_transitions o.state event) _ order_id event db
          (transition_order platform order_id event db) h refl
          (transition_order-Outcome platform order_id event db h)
  ]

  -- A service that is asked for any transitions, one after the other.
  pub transition_all : List (ℕ × OrderEvent) → Db → Db
  transition_all [] db = db
  transition_all ((order_id, event) ∷ requests) db =
      transition_all requests (transition_order platform order_id event db).1

  -- Whatever transitions are requested, of whichever orders, known or not, and in whatever order:
  -- every order that was in the table stays in it, and the state it ends in can be reached from the
  -- state it was in along the edges of the graph.
  pub histories-FollowsGraph :
      (requests : List (ℕ × OrderEvent)) (db : Db) → FollowsGraph db (transition_all requests db)
  unfolding transition_all
  histories-FollowsGraph [] db j s is_s = (s, is_s, here)
  histories-FollowsGraph ((order_id, event) ∷ requests) db j s is_s =
      let (t, is_t, first) = step-FollowsGraph order_id event db j s is_s in
      let (u, is_u, rest) =
        histories-FollowsGraph requests (transition_order platform order_id event db).1 j t is_t in
      (u, is_u, Reach-trans first rest)
