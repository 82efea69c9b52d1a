-- ===== src/Services/Kitchen/Closing.antt =====
-- The order of a ticket that is handed off: on to packing, or closed where it is picked up.
use mathlib.Core.Path.{subst}
use sieshka.Prelude.{
  false, ℕ, String, ◌≡◌, ◌≢◌, refl, sym, ap, ◌∙◌, inl, inr, some, arith, Option-cases, Bool-cases,
  ◌==◌, nat_eq, nat_beq_iff, string_eq, if◌then◌else◌,
}
use sieshka.Prelude.Dict.{lookup, lookup-adjust}
use sieshka.Orders.{
  OrderState, OrderEvent, order_transitions, cooking, packing, closed, start_packing, close,
  start_cooking,
}
use sieshka.Fsm.{TransitionResult, moved}
use sieshka.Fsm.Machines.{KitchenState, hand_off, handed_off, ready, kitchen_transitions}
use sieshka.Database.{OrderRow, TicketRow, Db, Result, ok}
use sieshka.Vm.{Platform}
use sieshka.Services.Order.{transition_order}
use sieshka.Services.Order.Transition.{
  state_of, MovedOne, Outcome, stops-other, transition_order-Outcome,
}
use sieshka.Services.Order.Frames.{MovedOne-twice}
use sieshka.Services.Kitchen.{after_packing, advance_order, transition_ticket}
use sieshka.Services.Kitchen.Tickets.{ticket_moved_to}
use sieshka.Services.Kitchen.Handoff.{ticket_state_of, settled_ticket, settled_tickets}

-- Where the order of a ticket goes.
abbrev pub next_stop : String → OrderState
next_stop delivery_mode = if delivery_mode == "pickup" then closed else packing

has_order :
    (j : ℕ) (s : OrderState) (db : Db)
    → state_of j db ≡ some s
    → (o : OrderRow) × (lookup j db.orders ≡ some o) × (o.state ≡ s)
has_order j s db h = elim (Option-cases (lookup j db.orders)) [
  | inl missing ↦ absurd (ground arith)
  | inr (o, found) ↦ (o, found, ground arith)
]

stays :
    (order_id j : ℕ) (s : OrderState) (db : Db)
    → state_of order_id db ≡ some s
    → state_of j db ≡ (if order_id == j then some s else state_of j db)
stays order_id j s db h = elim (Bool-cases (order_id == j)) [
  | inl same ↦ rw (same, ← (nat_beq_iff order_id j).0 same) h
  | inr differs ↦ rw differs refl
]

ticket_there :
    (ticket_id : ℕ) (u : KitchenState) (db : Db) {t : TicketRow}
    → lookup ticket_id db.kitchen_tickets ≡ some t
    → lookup ticket_id (ticket_moved_to ticket_id u db).kitchen_tickets
      ≡ some (record t { state = u })
ticket_there ticket_id u db h = rw lookup-adjust (ground (arith, nat_beq_iff ticket_id ticket_id))

module _ (platform : Platform) where
  allowed :
      (order_id : ℕ) (event : OrderEvent) (s t : OrderState) (db : Db)
      → state_of order_id db ≡ some s
      → order_transitions s event ≡ some t
      → event ≢ start_cooking
      → (db' : Db) × (transition_order platform order_id event db ≡ (ok (moved t), db'))
        × MovedOne order_id t db db'
  allowed order_id event s t db h g n =
      let (o, found, is_s) = has_order order_id s db h in
      subst
        (λ answer.
          Outcome answer false order_id event db (transition_order platform order_id event db))
        (ap (λ x. order_transitions x event) is_s ∙ g)
        (subst
          (λ b.
            Outcome (order_transitions o.state event) b order_id event db
              (transition_order platform order_id event db))
          (stops-other order_id event db n)
          (transition_order-Outcome platform order_id event db found))

  now_at :
      (order_id : ℕ) (t : OrderState) (db db' : Db)
      → MovedOne order_id t db db'
      → state_of order_id db' ≡ some t
  now_at order_id t db db' moves = moves order_id ∙ ground (arith, nat_beq_iff order_id order_id)

  closes :
      (mode : String) (order_id : ℕ) (db : Db)
      → state_of order_id db ≡ some packing
      → MovedOne order_id
          (next_stop mode)
          db
          (after_packing platform mode order_id (ok (moved packing)) db)
  unfolding after_packing order_transitions
  closes mode order_id db h = elim (Bool-cases (mode == "pickup")) [
    | inl picked ↦
        let (d, e, moves) = allowed order_id close packing closed db h refl (λ e. cc) in
        rw (picked, after_packing)
          (subst
            (λ (out : Result (TransitionResult OrderState OrderEvent) × Db).
              MovedOne order_id closed db out.1)
            (sym e) moves)
    | inr away ↦ rw (away, after_packing) (λ j. stays order_id j packing db h)
  ]

  advances :
      (ticket_id : ℕ) (db : Db) {t : TicketRow} {o : OrderRow}
      → lookup ticket_id db.kitchen_tickets ≡ some t
      → lookup t.order_id db.orders ≡ some o
      → o.state ≡ cooking
      → MovedOne t.order_id (next_stop o.delivery_mode) db (advance_order platform ticket_id db)
  unfolding advance_order order_transitions
  advances ticket_id db {t} {o} h g is_cooking =
      let (d, e, moves) =
        allowed t.order_id start_packing cooking packing db (rw (g, is_cooking) refl) refl
          (λ e. cc) in
      rw (advance_order, h, g, e)
        (MovedOne-twice t.order_id packing (next_stop o.delivery_mode) db d
          (after_packing platform o.delivery_mode t.order_id (ok (moved packing)) d) moves
          (closes o.delivery_mode t.order_id d (now_at t.order_id packing db d moves)))

  -- The hand-off of a ticket that is ready, when its order is cooking: in the committed database the ticket is
  -- handed off, the order is closed at once if it is picked up and goes to packing otherwise, and every other
  -- ticket and every other order keeps its state.
  pub hand_off_advances :
      (ticket_id : ℕ) (db : Db) {t : TicketRow} {o : OrderRow}
      → lookup ticket_id db.kitchen_tickets ≡ some t
      → t.state ≡ ready
      → lookup t.order_id db.orders ≡ some o
      → o.state ≡ cooking
      → (db' : Db) × (transition_ticket platform ticket_id hand_off db
          ≡ (ok (moved handed_off), db'))
        × MovedOne t.order_id (next_stop o.delivery_mode) db db'
        × ((j : ℕ)
            → ticket_state_of j db'
              ≡ (if ticket_id == j then some handed_off else ticket_state_of j db))
  unfolding kitchen_transitions
  hand_off_advances ticket_id db {t} h is_ready g is_cooking =
      let mid = ticket_moved_to ticket_id handed_off db in
      (
        advance_order platform ticket_id mid,
        settled_ticket platform ticket_id hand_off handed_off db h (rw is_ready refl),
        advances ticket_id mid (ticket_there ticket_id handed_off db h) g is_cooking,
        settled_tickets platform ticket_id hand_off handed_off db h,
      )
