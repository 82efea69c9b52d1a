-- ===== src/Services/Payment/Resume.antt =====
-- One resume point of a payment: open, or recorded already.
use sieshka.Prelude.{
  ℕ, ◌≡◌, refl, ap, ◌∙◌, Bool, true, false, String, some, [], ◌∷◌, arith, nat_eq, nat_beq_iff,
  string_eq, eq_iff, if◌then◌else◌,
}
use sieshka.Prelude.Dict.{lookup, lookup-adjust}
use sieshka.Orders.{OrderState, OrderEvent, order_transitions, order_state_eq}
use sieshka.Fsm.{skipped, moved}
use sieshka.Database.{PaymentState, PaymentRow, OrderRow, Db, Result, ok, pure, continue}
use sieshka.Tools.Orders.{with_state}
use sieshka.Vm.{ident, state, literal, Platform}
use sieshka.Programs.{build_simple_program, event_name}
use sieshka.Services.Order.{governed_tools, done}
use sieshka.Services.Order.Runs.{moved_to, simple_run}
use sieshka.Services.Idempotency.{is_recorded, check_and_record}
use sieshka.Services.Payment.{
  get_by_provider_id, write_state, run_simple_transition, resume, settle_new, settle_payment,
}

-- The database in which a resume point has been recorded.
abbrev pub recorded_in : ℕ → String → Db → Db
recorded_in trace_id step db = record db {
  idempotency_keys = (trace_id, step) ∷ db.idempotency_keys;
}

pub recorded_in-is_recorded :
    (trace_id : ℕ) (step : String) (db : Db)
    → is_recorded trace_id step (recorded_in trace_id step db) ≡ true
unfolding is_recorded
recorded_in-is_recorded trace_id step db =
    ground (arith, nat_beq_iff trace_id trace_id, eq_iff step step)

pub check_fresh :
    (trace_id : ℕ) (step : String) (db : Db)
    → is_recorded trace_id step db ≡ false
    → check_and_record trace_id step db ≡ (ok true, recorded_in trace_id step db)
unfolding check_and_record
check_fresh trace_id step db f = rw (f, check_and_record) refl

pub check_again :
    (trace_id : ℕ) (step : String) (db : Db)
    → is_recorded trace_id step db ≡ true
    → check_and_record trace_id step db ≡ (ok false, db)
unfolding check_and_record
check_again trace_id step db f = rw (f, check_and_record) refl

module _ (platform : Platform) where
  -- A run of the simple program for an edge of the graph writes its end.
  pub simple_moves :
      (order_id : ℕ) (event : OrderEvent) (t : OrderState) (db : Db) {o : OrderRow}
      → lookup order_id db.orders ≡ some o
      → order_transitions o.state event ≡ some t
      → run_simple_transition platform order_id event o.state db ≡ (moved t, moved_to order_id t db)
  unfolding run_simple_transition build_simple_program
  simple_moves order_id event t db {o} h g =
      let run =
        simple_run platform _ "write_state" order_id o.state t (("order_id", ident order_id) ∷ [])
          (literal (state o.state)) db (unfold lookup in refl) refl h refl in
      let (status, final) =
        platform.run_documented (governed_tools platform)
          (build_simple_program (event_name event) o.state t) (("order_id", ident order_id) ∷ []) db
          (moved_to order_id t db) (ok done) run in
      rw (run_simple_transition, g, status, final) refl

  pub after_check :
      (step : String) (closed : PaymentState → Bool) (target : PaymentState) (event : OrderEvent)
      (order_id provider_id trace_id : ℕ) (db : Db) {out : Result Bool × Db}
      → check_and_record trace_id step db ≡ out
      → settle_payment platform step closed target event order_id provider_id trace_id db
        ≡ continue out.0
            (λ first.
              if first
              then settle_new platform closed target event order_id provider_id
              else pure skipped)
            out.1
  unfolding settle_payment
  after_check step closed target event order_id provider_id trace_id db e =
      ap
        (λ (out : Result Bool × Db).
          continue out.0
            (λ first.
              if first
              then settle_new platform closed target event order_id provider_id
              else pure skipped)
            out.1)
        e

  -- A resume point that is open: not recorded yet, for a known payment that is not closed.
  pub resume_open :
      (step : String) (closed : PaymentState → Bool) (target : PaymentState) (event : OrderEvent)
      (order_id provider_id trace_id : ℕ) (db : Db) {p : PaymentRow}
      → is_recorded trace_id step db ≡ false
      → get_by_provider_id provider_id db.payments ≡ some p
      → closed p.state ≡ false
      → settle_payment platform step closed target event order_id provider_id trace_id db
        ≡ resume platform order_id event
            (recorded_in trace_id step db)
            (write_state p.id target (recorded_in trace_id step db))
  unfolding settle_payment settle_new
  resume_open step closed target event order_id provider_id trace_id db f known open_still =
      after_check step closed target event order_id provider_id trace_id db
        (check_fresh trace_id step db f)
      ∙ rw (settle_new, known, open_still) refl

  -- A resume point that has been recorded does nothing at all.
  pub resume_recorded :
      (step : String) (closed : PaymentState → Bool) (target : PaymentState) (event : OrderEvent)
      (order_id provider_id trace_id : ℕ) (db : Db)
      → is_recorded trace_id step db ≡ true
      → settle_payment platform step closed target event order_id provider_id trace_id db
        ≡ (ok skipped, db)
  unfolding settle_payment
  resume_recorded step closed target event order_id provider_id trace_id db f =
      after_check step closed target event order_id provider_id trace_id db
        (check_again trace_id step db f)

  pub lookup_moved :
      (order_id : ℕ) (t : OrderState) (db : Db) {o : OrderRow}
      → lookup order_id db.orders ≡ some o
      → lookup order_id (moved_to order_id t db).orders ≡ some (with_state t o)
  lookup_moved order_id t db h = rw lookup-adjust (ground (arith, nat_beq_iff order_id order_id))

  pub resume_moves :
      (order_id : ℕ) (event : OrderEvent) (t : OrderState) (before db : Db) {o : OrderRow}
      → lookup order_id db.orders ≡ some o
      → order_transitions o.state event ≡ some t
      → resume platform order_id event before db ≡ (ok (moved t), moved_to order_id t db)
  unfolding resume
  resume_moves order_id event t before db h g =
      rw (resume, h, simple_moves order_id event t db h g) refl
