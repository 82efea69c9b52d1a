-- ===== src/Services/Kitchen/Tickets.antt =====
-- The documented run of a kitchen program, and the tickets after a transition.
use sieshka.Prelude.{ℕ, ◌≡◌, refl, ap, ◌∙◌, true, some, [], ◌∷◌, arith, is_some, nat_eq, string_eq}
use sieshka.Prelude.Dict.{lookup, adjust}
use sieshka.Fsm.Machines.{
  KitchenState, KitchenEvent, new, queued, preparing, ready, handed_off, queue, start_prep,
  mark_ready, hand_off, kitchen_transitions,
}
use sieshka.Database.{TicketRow, Db, Result, ok, pure, continue, ◌>>◌}
use sieshka.Tools.Kitchen.{
  kitchen_state_eq, kitchen_state_beq_iff, write_kitchen_state, write_kitchen_state_queued,
  write_kitchen_state_preparing, write_kitchen_state_ready, write_kitchen_state_handed_off,
}
use sieshka.Vm.{var, ident, Platform, documented_run, resolve}
use sieshka.Vm.Steps.{execute_terminal}
use sieshka.Programs.{kitchen_program, kitchen_tool}
use sieshka.Services.Order.{done}
use sieshka.Services.Kitchen.{kitchen_tool_capabilities, call_kitchen_tool, governed_kitchen_tools}

-- The database after the state of one ticket has been written.
abbrev pub ticket_moved_to : ℕ → KitchenState → Db → Db
ticket_moved_to ticket_id s db = record db {
  kitchen_tickets = adjust ticket_id (λ row. record row { state = s }) db.kitchen_tickets;
}

kitchen_write :
    (expected target : KitchenState) (ticket_id : ℕ) (db : Db) {t : TicketRow}
    → lookup ticket_id db.kitchen_tickets ≡ some t
    → t.state ≡ expected
    → write_kitchen_state expected target ticket_id db
      ≡ (ok tt, ticket_moved_to ticket_id target db)
unfolding write_kitchen_state
kitchen_write expected target ticket_id db {t} h e =
    ground (arith, kitchen_state_beq_iff t.state expected)

-- The end points of the one edge that each event has.
abbrev source : KitchenEvent → KitchenState
source queue = new
source start_prep = queued
source mark_ready = preparing
source hand_off = ready

abbrev target : KitchenEvent → KitchenState
target queue = queued
target start_prep = preparing
target mark_ready = ready
target hand_off = handed_off

kitchen_edge :
    (s u : KitchenState) (event : KitchenEvent)
    → kitchen_transitions s event ≡ some u
    → (s ≡ source event) × (u ≡ target event)
unfolding kitchen_transitions
kitchen_edge s u event g = ground arith

-- The tool that an event's program names writes that edge.
tool_of :
    (event : KitchenEvent) (ticket_id : ℕ) (db : Db)
    → call_kitchen_tool (kitchen_tool event) (("ticket_id", ident ticket_id) ∷ []) db
      ≡ (write_kitchen_state (source event) (target event) ticket_id >> pure done) db
unfolding call_kitchen_tool lookup write_kitchen_state_queued write_kitchen_state_preparing
    write_kitchen_state_ready write_kitchen_state_handed_off
tool_of queue ticket_id db = refl
tool_of start_prep ticket_id db = refl
tool_of mark_ready ticket_id db = refl
tool_of hand_off ticket_id db = refl

is_granted :
    (event : KitchenEvent) → is_some (lookup (kitchen_tool event) kitchen_tool_capabilities) ≡ true
unfolding lookup kitchen_tool_capabilities
is_granted queue = refl
is_granted start_prep = refl
is_granted mark_ready = refl
is_granted hand_off = refl

module _ (platform : Platform) where
  governed_call :
      (event : KitchenEvent) (ticket_id : ℕ) (db : Db) {t : TicketRow}
      → lookup ticket_id db.kitchen_tickets ≡ some t
      → t.state ≡ source event
      → governed_kitchen_tools platform
          (kitchen_tool event)
          (("ticket_id", ident ticket_id) ∷ [])
          db
        ≡ (ok done, ticket_moved_to ticket_id (target event) db)
  unfolding governed_kitchen_tools
  governed_call event ticket_id db h e =
      rw
        (platform.check_documented kitchen_tool_capabilities (kitchen_tool event)
          (is_granted event))
        (tool_of event ticket_id db
          ∙ ap (λ (out : Result Unit × Db). continue out.0 (λ _. pure done) out.1)
              (kitchen_write (source event) (target event) ticket_id db h e))

  -- An event that the graph allows runs to its end, and writes the graph's next state.
  pub kitchen_run :
      (event : KitchenEvent) (u : KitchenState) (ticket_id : ℕ) (db : Db) {t : TicketRow}
      → lookup ticket_id db.kitchen_tickets ≡ some t
      → kitchen_transitions t.state event ≡ some u
      → documented_run
          (governed_kitchen_tools platform)
          (kitchen_program event)
          (("ticket_id", ident ticket_id) ∷ [])
          db
        ≡ some (ok done, ticket_moved_to ticket_id u db)
  unfolding documented_run kitchen_program resolve lookup
  kitchen_run event u ticket_id db {t} h g =
      let (from, to) = kitchen_edge t.state u event g in
      execute_terminal 0 (governed_kitchen_tools platform) (kitchen_program event).steps
        (("ticket_id", ident ticket_id) ∷ []) [] "write_state" (kitchen_tool event)
        (("ticket_id", var "ticket_id") ∷ []) "write_result"
        (rw to (governed_call event ticket_id db h from))
