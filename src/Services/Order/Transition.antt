-- ===== src/Services/Order/Transition.antt =====
-- What a transition of an order does, on every branch.
use mathlib.Core.Option
use mathlib.Core.Path.{ap₂}
use sieshka.Prelude.{
  ℕ, ◌≡◌, ◌≢◌, refl, sym, ap, ◌∙◌, ◌⊎◌, inl, inr, Bool, true, false, Option, none, some, arith,
  Option-cases, ◌==◌, nat_eq, nat_beq_iff, string_eq, if◌then◌else◌,
}
use sieshka.Prelude.Dict.{lookup, adjust, lookup-adjust}
use sieshka.Orders.{
  OrderState, OrderEvent, order_transitions, order_state_eq, paid, confirmed, cooking, confirm,
  start_cooking,
}
use sieshka.Fsm.{TransitionResult, rejected, moved}
use sieshka.Tools.Inventory.{reserve_inventory_items}
use sieshka.Database.{OrderRow, Db, Failure, Result, ok, err}
use sieshka.Tools.Orders.{with_state, create_kitchen_ticket}
use sieshka.Tools.Inventory.Sales.{reserve-Reports}
use sieshka.Vm.{Value, Trace, Platform, documented_run, all_resolve}
use sieshka.Programs.{select_program}
use sieshka.Services.Order.{
  governed_tools, context_of, save_trace_id, on_cooking, settle, run_transition, transition_order,
}
use sieshka.Services.Order.Runs.{write_run, moved_to}
use sieshka.Services.Order.Cooking.{cooking_run, cooking_stops, started, reserved}

-- The state of an order, if there is such an order.
abbrev pub state_of : ℕ → Db → Option OrderState
state_of j db = Option.map (λ (o : OrderRow). o.state) (lookup j db.orders)

-- Exactly one order has the state `t` now; the others are where they were.
abbrev pub MovedOne : ℕ → OrderState → Db → Db → Type 0
MovedOne order_id t db db' =
    (j : ℕ) → state_of j db' ≡ (if order_id == j then some t else state_of j db)

pub state_of-adjust :
    (order_id j : ℕ) (f : OrderRow → OrderRow) (t : OrderState) (db : Db) {o : OrderRow}
    → lookup order_id db.orders ≡ some o
    → ((r : OrderRow) → (f r).state ≡ t)
    → Option.map (λ (o : OrderRow). o.state) (lookup j (adjust order_id f db.orders))
      ≡ (if order_id == j then some t else state_of j db)
state_of-adjust order_id j f t db {o} h g =
    rw lookup-adjust (ground (arith, nat_beq_iff order_id j, g o))

select-valid :
    (event : OrderEvent) (s t : OrderState)
    → all_resolve (select_program event s t).steps (select_program event s t).steps ≡ true
unfolding select_program all_resolve
select-valid start_cooking s t = refl
select-valid confirm s t = refl
select-valid _ s t = refl

-- The two shapes of a run: START_COOKING, and every other event.
pub cooks :
    (s t : OrderState)
    → order_transitions s start_cooking ≡ some t
    → ((s ≡ paid) ⊎ (s ≡ confirmed)) × (t ≡ cooking)
unfolding order_transitions
cooks s t g = ground arith

is_cooking : (event : OrderEvent) → (event ≡ start_cooking) ⊎ (event ≢ start_cooking)
is_cooking start_cooking = inl refl
is_cooking _ = inr (λ e. cc)

abbrev raised : {A : Type 0} → Result A → Bool
raised (ok a) = false
raised (err e) = true

-- START_COOKING stops where an item of the order cannot be reserved; no other event does.
abbrev pub stops : ℕ → OrderEvent → Db → Bool
stops order_id start_cooking db = raised (reserve_inventory_items order_id db).0
stops order_id _ db = false

pub stops-start_cooking :
    (order_id : ℕ) (db : Db) (b : Bool)
    → (reserve_inventory_items order_id db).0 ≡ ok b
    → stops order_id start_cooking db ≡ false
stops-start_cooking order_id db b h = rw h refl

pub stops-raised :
    (order_id : ℕ) (db : Db) (e : Failure)
    → (reserve_inventory_items order_id db).0 ≡ err e
    → stops order_id start_cooking db ≡ true
stops-raised order_id db e h = rw h refl

pub stops-other :
    (order_id : ℕ) (event : OrderEvent) (db : Db)
    → event ≢ start_cooking
    → stops order_id event db ≡ false
stops-other order_id start_cooking db n = absurd (n refl)
stops-other order_id _ db n = refl

-- What a transition does, by the graph's answer and by whether it stops.
abbrev pub Outcome :
    Option OrderState
    → Bool
    → ℕ
    → OrderEvent
    → Db
    → Result (TransitionResult OrderState OrderEvent) × Db
    → Type 0
Outcome none stopped order_id event db out = out ≡ (ok (rejected event), db)
Outcome (some t) true order_id event db out = out ≡ (ok (rejected event), db)
Outcome (some t) false order_id event db out =
    (db' : Db) × (out ≡ (ok (moved t), db')) × MovedOne order_id t db db'

module _ (platform : Platform) where
  -- The trace id and the ticket of `_on_cooking` leave every state alone.
  unfoldable pub finish : ℕ → OrderEvent → OrderState → Db → Option ℕ → Db
  finish order_id event t db trace_id =
      on_cooking platform order_id event t (save_trace_id platform order_id trace_id db)

  save-keeps :
      (order_id j : ℕ) (trace_id : Option ℕ) (db : Db)
      → state_of j (save_trace_id platform order_id trace_id db) ≡ state_of j db
  unfolding save_trace_id
  save-keeps order_id j none db = refl
  save-keeps order_id j (some trace_id) db = rw lookup-adjust (ground arith)

  on_cooking-keeps :
      (order_id : ℕ) (event : OrderEvent) (t : OrderState) (db : Db)
      → (on_cooking platform order_id event t db).orders ≡ db.orders
  unfolding on_cooking create_kitchen_ticket
  on_cooking-keeps order_id event t db = ground arith

  finish-keeps :
      (order_id j : ℕ) (event : OrderEvent) (t : OrderState) (db : Db) (trace_id : Option ℕ)
      → state_of j (finish order_id event t db trace_id) ≡ state_of j db
  unfolding finish
  finish-keeps order_id j event t db trace_id =
      rw on_cooking-keeps (save-keeps order_id j trace_id db)

  abbrev pub trace_of : ℕ → OrderEvent → OrderState → OrderState → Db → Trace
  trace_of order_id event s t db =
      let out =
        platform.run (governed_tools platform) (select_program event s t)
          (context_of platform order_id event s) db in
      out.0

  pub settled :
      (order_id : ℕ) (event : OrderEvent) (s t : OrderState) (db db' : Db) {v : Value}
      → documented_run
          (governed_tools platform)
          (select_program event s t)
          (context_of platform order_id event s)
          db
        ≡ some (ok v, db')
      → run_transition platform order_id event s t db
        ≡ (ok (moved t), finish order_id event t db' (trace_of order_id event s t db).trace_id)
  unfolding run_transition settle finish
  settled order_id event s t db db' h =
      let (status, final) =
        platform.run_documented (governed_tools platform) (select_program event s t)
          (context_of platform order_id event s) db db' _ h in
      rw
        (
          platform.valid_documented (select_program event s t) (select-valid event s t),
          status,
          final,
        )
        refl

  -- A run that ends in a failure is dropped.
  pub unsettled :
      (order_id : ℕ) (event : OrderEvent) (s t : OrderState) (db db' : Db) (e : Failure)
      → documented_run
          (governed_tools platform)
          (select_program event s t)
          (context_of platform order_id event s)
          db
        ≡ some (err e, db')
      → run_transition platform order_id event s t db ≡ (ok (rejected event), db)
  unfolding run_transition settle
  unsettled order_id event s t db db' e h =
      let (status, final) =
        platform.run_documented (governed_tools platform) (select_program event s t)
          (context_of platform order_id event s) db db' _ h in
      rw (platform.valid_documented (select_program event s t) (select-valid event s t), status)
        refl

  write-Outcome :
      (order_id : ℕ) (event : OrderEvent) (t : OrderState) (db : Db) {o : OrderRow}
      → lookup order_id db.orders ≡ some o
      → order_transitions o.state event ≡ some t
      → event ≢ start_cooking
      → Outcome
          (some t)
          false
          order_id
          event
          db
          (run_transition platform order_id event o.state t db)
  write-Outcome order_id event t db {o} h g n =
      let run = write_run platform order_id event t db h g n in
      (
        _,
        settled order_id event o.state t db (moved_to order_id t db) run,
        λ j.
            finish-keeps order_id j event t (moved_to order_id t db) _
            ∙ state_of-adjust order_id j (with_state t) t db h (λ r. refl),
      )

  cooking-Outcome :
      (order_id : ℕ) (t : OrderState) (db : Db) {o : OrderRow} (b : Bool)
      → lookup order_id db.orders ≡ some o
      → order_transitions o.state start_cooking ≡ some t
      → (reserve_inventory_items order_id db).0 ≡ ok b
      → Outcome
          (some t)
          false
          order_id
          start_cooking
          db
          (run_transition platform order_id start_cooking o.state t db)
  unfolding select_program
  cooking-Outcome order_id t db {o} b h g returned =
      let (ready, to) = cooks o.state t g in
      let sold = reserve-Reports order_id db b h returned in
      let run = cooking_run platform order_id db b h ready returned in
      (
        _,
        settled order_id start_cooking o.state t db (started platform order_id db) run,
        λ j.
            finish-keeps order_id j start_cooking t (started platform order_id db) _
            ∙ state_of-adjust order_id j (with_state cooking) cooking
                (reserved platform order_id db)
                (ap (λ orders. lookup order_id orders) sold.orders_kept ∙ h) (λ r. refl)
            ∙ ap₂
                (λ u orders.
                  if order_id == j
                  then some u
                  else Option.map (λ (r : OrderRow). r.state) (lookup j orders))
                (sym to) sold.orders_kept,
      )

  start_cooking-Outcome :
      (order_id : ℕ) (t : OrderState) (db : Db) {o : OrderRow} (r : Result Bool)
      → lookup order_id db.orders ≡ some o
      → order_transitions o.state start_cooking ≡ some t
      → (reserve_inventory_items order_id db).0 ≡ r
      → Outcome
          (some t)
          (raised r)
          order_id
          start_cooking
          db
          (run_transition platform order_id start_cooking o.state t db)
  unfolding select_program
  start_cooking-Outcome order_id t db (ok b) h g e = cooking-Outcome order_id t db b h g e
  start_cooking-Outcome order_id t db {o} (err f) h g e =
      unsettled order_id start_cooking o.state t db _ f (cooking_stops platform order_id db f e)

  moves-Outcome :
      (order_id : ℕ) (event : OrderEvent) (t : OrderState) (db : Db) {o : OrderRow}
      → lookup order_id db.orders ≡ some o
      → order_transitions o.state event ≡ some t
      → (event ≡ start_cooking) ⊎ (event ≢ start_cooking)
      → Outcome
          (some t)
          (stops order_id event db)
          order_id
          event
          db
          (run_transition platform order_id event o.state t db)
  moves-Outcome order_id event t db h g (inl cook) =
      rw cook (start_cooking-Outcome order_id t db _ h (rw cook at g) refl)
  moves-Outcome order_id event t db h g (inr n) =
      rw (stops-other order_id event db n) (write-Outcome order_id event t db h g n)

  -- A transition of an order that exists never raises. If the graph refuses the event, or the event is
  -- START_COOKING and `reserve_inventory_items` raises for the order, it is reported back and the database is
  -- untouched; otherwise the result names the graph's next state, the order has it in the committed database,
  -- and every other order keeps its own.
  pub transition_order-Outcome :
      (order_id : ℕ) (event : OrderEvent) (db : Db) {o : OrderRow}
      → lookup order_id db.orders ≡ some o
      → Outcome
          (order_transitions o.state event)
          (stops order_id event db)
          order_id
          event
          db
          (transition_order platform order_id event db)
  unfolding transition_order
  transition_order-Outcome order_id event db {o} h =
      elim (Option-cases (order_transitions o.state event)) [
        | inl refused ↦ rw (refused, transition_order, h, refused) refl
        | inr (t, g) ↦
            rw (g, transition_order, h, g)
              (moves-Outcome order_id event t db h g (is_cooking event))
      ]
