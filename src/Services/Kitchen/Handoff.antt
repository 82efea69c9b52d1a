-- ===== src/Services/Kitchen/Handoff.antt =====
-- What a ticket's transition does to the tickets, and a hand-off to the ticket's order.
use mathlib.Core.Option
use sieshka.Prelude.{
  ℕ, String, ◌≡◌, ◌≢◌, refl, ap, ◌∙◌, ◌⊎◌, inl, inr, true, Option, none, some, [], ◌∷◌, arith,
  Option-cases, ◌==◌, nat_eq, nat_beq_iff, string_eq, if◌then◌else◌,
}
use sieshka.Prelude.Dict.{lookup, lookup-adjust}
use sieshka.Orders.{OrderState, OrderEvent, start_packing, start_cooking, close}
use sieshka.Fsm.{TransitionResult, rejected, moved}
use sieshka.Fsm.Machines.{KitchenState, KitchenEvent, hand_off, kitchen_transitions}
use sieshka.Database.{TicketRow, Db, Result, ok, err}
use sieshka.Vm.{Platform, ident, all_resolve}
use sieshka.Programs.{kitchen_program}
use sieshka.Services.Order.Frames.{transition_order-tickets}
use sieshka.Services.Kitchen.{
  governed_kitchen_tools, after_packing, advance_order, on_hand_off, settle_ticket, run_ticket,
  transition_ticket,
}
use sieshka.Services.Kitchen.Tickets.{ticket_moved_to, kitchen_run}

abbrev pub ticket_state_of : ℕ → Db → Option KitchenState
ticket_state_of j db = Option.map (λ (t : TicketRow). t.state) (lookup j db.kitchen_tickets)

-- What a transition of a ticket does, by the graph's answer.
abbrev pub TicketOutcome :
    Option KitchenState
    → ℕ
    → KitchenEvent
    → Db
    → Result (TransitionResult KitchenState KitchenEvent) × Db
    → Type 0
TicketOutcome none ticket_id event db out = out ≡ (ok (rejected event), db)
TicketOutcome (some u) ticket_id event db out =
    (db' : Db) × (out ≡ (ok (moved u), db'))
    × ((j : ℕ) → ticket_state_of j db' ≡ (if ticket_id == j then some u else ticket_state_of j db))

program_valid :
    (event : KitchenEvent)
    → all_resolve (kitchen_program event).steps (kitchen_program event).steps ≡ true
unfolding kitchen_program all_resolve
program_valid event = refl

not_ready : {e : OrderEvent} → (e ≡ start_packing) ⊎ (e ≡ close) → e ≢ start_cooking
not_ready (inl e) = λ f. cc
not_ready (inr e) = λ f. cc

module _ (platform : Platform) where
  -- A transition that the graph allows, up to the hand-off.
  pub settled_ticket :
      (ticket_id : ℕ) (event : KitchenEvent) (u : KitchenState) (db : Db) {t : TicketRow}
      → lookup ticket_id db.kitchen_tickets ≡ some t
      → kitchen_transitions t.state event ≡ some u
      → transition_ticket platform ticket_id event db
        ≡ (ok (moved u), on_hand_off platform event ticket_id (ticket_moved_to ticket_id u db))
  unfolding transition_ticket run_ticket settle_ticket
  settled_ticket ticket_id event u db h g =
      let (status, final) =
        platform.run_documented (governed_kitchen_tools platform) (kitchen_program event)
          (("ticket_id", ident ticket_id) ∷ []) db (ticket_moved_to ticket_id u db) _
          (kitchen_run platform event u ticket_id db h g) in
      rw
        (
          transition_ticket,
          h,
          g,
          run_ticket,
          platform.valid_documented (kitchen_program event) (program_valid event),
          settle_ticket,
          status,
          final,
        )
        refl

  after_packing-tickets :
      (mode : String) (order_id : ℕ) (out : Result (TransitionResult OrderState OrderEvent))
      (db : Db)
      → (after_packing platform mode order_id out db).kitchen_tickets ≡ db.kitchen_tickets
  unfolding after_packing
  after_packing-tickets mode order_id (err f) db = refl
  after_packing-tickets mode order_id (ok r) db =
      ground (arith, transition_order-tickets platform order_id close db (not_ready (inr refl)))

  advance_order-tickets :
      (ticket_id : ℕ) (db : Db)
      → (advance_order platform ticket_id db).kitchen_tickets ≡ db.kitchen_tickets
  unfolding advance_order
  advance_order-tickets ticket_id db = elim (Option-cases (lookup ticket_id db.kitchen_tickets)) [
    | inl missing ↦ rw (advance_order, missing) refl
    | inr (t, h) ↦ elim (Option-cases (lookup t.order_id db.orders)) [
      | inl missing ↦ rw (advance_order, h, missing) refl
      | inr (o, g) ↦
          rw (advance_order, h, g)
            (after_packing-tickets o.delivery_mode t.order_id _ _
              ∙ transition_order-tickets platform t.order_id start_packing db
                  (not_ready (inl refl)))
    ]
  ]

  on_hand_off-tickets :
      (event : KitchenEvent) (ticket_id : ℕ) (db : Db)
      → (on_hand_off platform event ticket_id db).kitchen_tickets ≡ db.kitchen_tickets
  on_hand_off-tickets hand_off ticket_id db = advance_order-tickets ticket_id db
  on_hand_off-tickets _ ticket_id db = refl

  ticket_moves :
      (ticket_id j : ℕ) (u : KitchenState) (db : Db) {t : TicketRow}
      → lookup ticket_id db.kitchen_tickets ≡ some t
      → ticket_state_of j (ticket_moved_to ticket_id u db)
        ≡ (if ticket_id == j then some u else ticket_state_of j db)
  ticket_moves ticket_id j u db h = rw lookup-adjust (ground (arith, nat_beq_iff ticket_id j))

  pub settled_tickets :
      (ticket_id : ℕ) (event : KitchenEvent) (u : KitchenState) (db : Db) {t : TicketRow}
      → lookup ticket_id db.kitchen_tickets ≡ some t
      → (j : ℕ)
      → ticket_state_of j (on_hand_off platform event ticket_id (ticket_moved_to ticket_id u db))
        ≡ (if ticket_id == j then some u else ticket_state_of j db)
  settled_tickets ticket_id event u db h j =
      ap (λ tickets. Option.map (λ (t : TicketRow). t.state) (lookup j tickets))
        (on_hand_off-tickets event ticket_id (ticket_moved_to ticket_id u db))
      ∙ ticket_moves ticket_id j u db h

  -- A transition of a ticket that exists never raises. An event that the graph refuses is reported
  -- back and the database is untouched; otherwise the result names the graph's next state, the ticket
  -- has it, and every other ticket keeps its own, also when a hand-off moves the order on.
  pub transition_ticket-TicketOutcome :
      (ticket_id : ℕ) (event : KitchenEvent) (db : Db) {t : TicketRow}
      → lookup ticket_id db.kitchen_tickets ≡ some t
      → TicketOutcome
          (kitchen_transitions t.state event)
          ticket_id
          event
          db
          (transition_ticket platform ticket_id event db)
  unfolding transition_ticket
  transition_ticket-TicketOutcome ticket_id event db {t} h =
      elim (Option-cases (kitchen_transitions t.state event)) [
        | inl refused ↦ rw (refused, transition_ticket, h, refused) refl
        | inr (u, g) ↦ rw g (
          on_hand_off platform event ticket_id (ticket_moved_to ticket_id u db),
          settled_ticket ticket_id event u db h g,
          settled_tickets ticket_id event u db h,
        )
      ]
