-- ===== src/Services/Order/Runs.antt =====
-- What the documented runs of the order programs do to the database.
use sieshka.Prelude.{ℕ, ◌≡◌, ◌≢◌, refl, some, [], ◌∷◌, arith, nat_eq, string_eq, String}
use sieshka.Prelude.Dict.{lookup, adjust}
use sieshka.Orders.{
  OrderState, OrderEvent, order_transitions, order_state_eq, state_beq_iff, draft, confirmed,
  payment_pending, cancelled, confirm, payment_failed, start_cooking, cancel,
}
use sieshka.Database.{OrderRow, Db, ok, ◌>>◌, pure}
use sieshka.Tools.Orders.{require_state, update_order, with_state, transition_order_state}
use sieshka.Vm.{
  resolve_arg, ident, state, Values, Arg, var, literal, Platform, documented_run, resolve,
}
use sieshka.Vm.Steps.{execute_terminal}
use sieshka.Programs.{select_program, write_step}
use sieshka.Services.Order.{governed_tools, orders_tool_capabilities, context_of, done}

-- The database after the state of one order has been written.
abbrev pub moved_to : ℕ → OrderState → Db → Db
moved_to order_id t db = record db { orders = adjust order_id (with_state t) db.orders }

transition_tool_run :
    (order_id : ℕ) (s t : OrderState) (db : Db) {o : OrderRow}
    → lookup order_id db.orders ≡ some o
    → o.state ≡ s
    → (transition_order_state order_id s t >> pure done) db ≡ (ok done, moved_to order_id t db)
unfolding transition_order_state require_state update_order
transition_tool_run order_id s t db {o} h e = ground (arith, state_beq_iff o.state s)

abbrev write_args : ℕ → OrderState → OrderState → Values
write_args order_id s t =
    ("order_id", ident order_id) ∷ ("from_state", state s) ∷ ("to_state", state t) ∷ []

resolve_write :
    (context : Values) (from : Arg) (order_id : ℕ) (s t : OrderState)
    → lookup "order_id" context ≡ some (ident order_id)
    → resolve_arg context [] from ≡ some (state s)
    → resolve context []
        (("order_id", var "order_id") ∷ ("from_state", from) ∷ ("to_state", literal (state t)) ∷ [])
      ≡ write_args order_id s t
unfolding resolve
resolve_write context from order_id s t c r = ground arith

confirm_edge :
    (s t : OrderState) → order_transitions s confirm ≡ some t → (s ≡ draft) × (t ≡ confirmed)
unfolding order_transitions
confirm_edge s t g = ground arith

failed_edge :
    (s t : OrderState)
    → order_transitions s payment_failed ≡ some t
    → (s ≡ payment_pending) × (t ≡ confirmed)
unfolding order_transitions
failed_edge s t g = ground arith

cancel_edge : (s t : OrderState) → order_transitions s cancel ≡ some t → t ≡ cancelled
unfolding order_transitions
cancel_edge s t g = ground arith

module _ (platform : Platform) where
  governed_write :
      (order_id : ℕ) (s t : OrderState) (db : Db) {o : OrderRow}
      → lookup order_id db.orders ≡ some o
      → o.state ≡ s
      → governed_tools platform "transition_order_state" (write_args order_id s t) db
        ≡ (ok done, moved_to order_id t db)
  unfolding governed_tools lookup orders_tool_capabilities
  governed_write order_id s t db h e =
      rw (platform.check_documented orders_tool_capabilities "transition_order_state" refl)
        (transition_tool_run order_id s t db h e)

  pub simple_run :
      (name id : String) (order_id : ℕ) (s t : OrderState) (context : Values) (from : Arg) (db : Db)
      {o : OrderRow}
      → lookup "order_id" context ≡ some (ident order_id)
      → resolve_arg context [] from ≡ some (state s)
      → lookup order_id db.orders ≡ some o
      → o.state ≡ s
      → documented_run
          (governed_tools platform)
          (record { name = name; steps = write_step id from t ∷ [] })
          context
          db
        ≡ some (ok done, moved_to order_id t db)
  unfolding documented_run
  simple_run name id order_id s t context from db c r h e =
      execute_terminal 0 (governed_tools platform) (write_step id from t ∷ []) context [] id
        "transition_order_state" _ "write_result"
        (rw (resolve_write context from order_id s t c r) (governed_write order_id s t db h e))

  context_order_id :
      (order_id : ℕ) (event : OrderEvent) (s : OrderState)
      → lookup "order_id" (context_of platform order_id event s) ≡ some (ident order_id)
  unfolding lookup
  context_order_id order_id cancel s = refl
  context_order_id order_id _ s = refl

  -- Every event but START_COOKING runs a program that only writes the graph's next state.
  pub write_run :
      (order_id : ℕ) (event : OrderEvent) (t : OrderState) (db : Db) {o : OrderRow}
      → lookup order_id db.orders ≡ some o
      → order_transitions o.state event ≡ some t
      → event ≢ start_cooking
      → documented_run
          (governed_tools platform)
          (select_program event o.state t)
          (context_of platform order_id event o.state)
          db
        ≡ some (ok done, moved_to order_id t db)
  unfolding select_program
  write_run order_id start_cooking t db h g n = absurd (n refl)
  write_run order_id confirm t db {o} h g n =
      let (from_draft, to) = confirm_edge o.state t g in
      rw to (
        simple_run "order_confirm" "write_confirmed" order_id draft confirmed _
          (literal (state draft)) db (context_order_id order_id confirm o.state) refl h from_draft)
  write_run order_id payment_failed t db {o} h g n =
      let (from_pending, to) = failed_edge o.state t g in
      rw to (
        simple_run "order_payment_failed" "write_rollback" order_id payment_pending confirmed _
          (literal (state payment_pending)) db (context_order_id order_id payment_failed o.state)
          refl h from_pending)
  write_run order_id cancel t db {o} h g n = rw (cancel_edge o.state t g) (
      simple_run "order_cancel" "write_cancelled" order_id o.state cancelled _ (var "from_state") db
        (context_order_id order_id cancel o.state) (unfold lookup in refl) h refl)
  write_run order_id event t db {o} h g n =
      simple_run _ _ order_id o.state t _ (literal (state o.state)) db
        (context_order_id order_id event o.state) refl h refl
