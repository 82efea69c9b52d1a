-- ===== src/Services/Payment/Confirmed.antt =====
-- What the first notification of a payment settles, a success or a failure.
use sieshka.Prelude.{
  ℕ, Bool, List, ◌≡◌, ◌≢◌, refl, ap, ◌∙◌, inl, true, false, ◌&&◌, String, some, arith, any, ◌==◌,
  nat_eq, string_eq,
}
use sieshka.Prelude.Dict.{lookup}
use sieshka.Orders.{
  OrderState, OrderEvent, order_transitions, order_state_eq, confirmed, payment_pending, paid,
  cooking, payment_confirmed, payment_failed,
}
use sieshka.Fsm.{TransitionResult, moved}
use sieshka.Database.{PaymentState, pending, success, failed, PaymentRow, OrderRow, Db, Result, ok}
use sieshka.Tools.Inventory.{reserve_inventory_items}
use sieshka.Tools.Inventory.Unrelated.{over, reserve-over}
use sieshka.Tools.Orders.{with_state}
use sieshka.Vm.{Platform}
use sieshka.Services.Order.Runs.{moved_to}
use sieshka.Services.Order.Transition.{MovedOne, state_of-adjust}
use sieshka.Services.Order.Frames.{MovedOne-twice, SameMoney, start_cooking-SameMoney}
use sieshka.Services.Idempotency.{is_recorded}
use sieshka.Services.Payment.{
  get_by_provider_id, set_state, write_state, advance, is_success, is_closed, settle_payment,
  confirm_payment, fail_payment,
}
use sieshka.Services.Payment.Resume.{
  recorded_in, recorded_in-is_recorded, resume_open, lookup_moved, resume_moves,
}

module _ (platform : Platform) where
  pub advance_paid :
      (order_id : ℕ) (db : Db) {o : OrderRow} (b : Bool)
      → lookup order_id db.orders ≡ some o
      → o.state ≡ paid
      → (reserve_inventory_items order_id db).0 ≡ ok b
      → (db' : Db) × (advance platform order_id (ok (moved paid)) db ≡ (ok (moved paid), db'))
        × MovedOne order_id cooking db db'
        × SameMoney db db'
  unfolding advance
  advance_paid order_id db b h is_paid returned =
      let (db', e, moves, same) =
        start_cooking-SameMoney platform order_id db b h (inl is_paid) returned in
      (db', rw (advance, e) refl, moves, same)

  -- What a first notification of a payment does.
  abbrev pub Settled : String → PaymentState → OrderState → ℕ → ℕ → PaymentRow → Db → Db → Type 0
  Settled step target t order_id trace_id p db db' =
      (db'.payments ≡ set_state p.id target db.payments)
      × MovedOne order_id t db db'
      × (is_recorded trace_id step db' ≡ true)

  moved_to-MovedOne :
      (order_id : ℕ) (t : OrderState) (db : Db) {o : OrderRow}
      → lookup order_id db.orders ≡ some o
      → MovedOne order_id t db (moved_to order_id t db)
  moved_to-MovedOne order_id t db h j = state_of-adjust order_id j (with_state t) t db h (λ r. refl)

  pub same_key :
      (trace_id : ℕ) (step : String) (db db' : Db)
      → SameMoney db db'
      → is_recorded trace_id step db' ≡ is_recorded trace_id step db
  unfolding is_recorded
  same_key trace_id step db db' same =
      ap (λ keys. any (λ (key : ℕ × String). (key.0 == trace_id) && (key.1 == step)) keys)
        same.keys_same

  pub confirm_unfolds :
      (order_id provider_id trace_id : ℕ) (db : Db)
      {out : Result (TransitionResult OrderState OrderEvent) × Db}
      → settle_payment platform "payment_confirmation" is_success success payment_confirmed order_id
          provider_id trace_id db
        ≡ out
      → confirm_payment platform order_id provider_id trace_id db
        ≡ advance platform order_id out.0 out.1
  unfolding confirm_payment
  confirm_unfolds order_id provider_id trace_id db e =
      ap
        (λ (out : Result (TransitionResult OrderState OrderEvent) × Db).
          advance platform order_id out.0 out.1)
        e

  -- What is done before does not change what can be reserved.
  pub still_serves :
      (order_id : ℕ) (t : OrderState) (payments : List PaymentRow) (keys : List (ℕ × String))
      (db : Db) {o : OrderRow} (b : Bool)
      → lookup order_id db.orders ≡ some o
      → (reserve_inventory_items order_id db).0 ≡ ok b
      → (reserve_inventory_items order_id
          (over (moved_to order_id t db).orders db.kitchen_tickets payments keys db)).0
        ≡ ok b
  still_serves order_id t payments keys db b h serves =
      reserve-over _ _ _ _ order_id db h (lookup_moved platform order_id t db h) refl ∙ serves

  -- The first confirmation of a payment that is known and not yet confirmed, for an order that waits
  -- for its payment and whose items can be reserved, succeeds: the payment is marked as a success, the
  -- order ends in the kitchen, every other order keeps its state, and the resume point is recorded.
  pub confirm_payment-Settled :
      (order_id provider_id trace_id : ℕ) (db : Db) {o : OrderRow} {p : PaymentRow} (b : Bool)
      → lookup order_id db.orders ≡ some o
      → o.state ≡ payment_pending
      → (reserve_inventory_items order_id db).0 ≡ ok b
      → get_by_provider_id provider_id db.payments ≡ some p
      → p.state ≢ success
      → is_recorded trace_id "payment_confirmation" db ≡ false
      → (db' : Db) × (confirm_payment platform order_id provider_id trace_id db
          ≡ (ok (moved paid), db'))
        × Settled "payment_confirmation" success cooking order_id trace_id p db db'
  unfolding order_transitions is_recorded
  confirm_payment-Settled order_id provider_id trace_id db {o} {p} b h waits serves known not_yet
        fresh =
      let marked = write_state p.id success (recorded_in trace_id "payment_confirmation" db) in
      let paid_now = moved_to order_id paid marked in
      let e =
        resume_open platform "payment_confirmation" is_success success payment_confirmed order_id
          provider_id trace_id db fresh known (ground arith)
        ∙ resume_moves platform order_id payment_confirmed paid
            (recorded_in trace_id "payment_confirmation" db) marked h (rw waits refl) in
      let (db', go, moves, same) =
        advance_paid order_id paid_now b (lookup_moved platform order_id paid marked h) refl
          (still_serves order_id paid marked.payments marked.idempotency_keys db b h serves) in
      (
        db',
        confirm_unfolds order_id provider_id trace_id db e ∙ go,
        (
          same.payments_same,
          MovedOne-twice order_id paid cooking db paid_now db'
              (moved_to-MovedOne order_id paid marked h) moves,
          same_key trace_id "payment_confirmation" paid_now db' same
              ∙ recorded_in-is_recorded trace_id "payment_confirmation" db,
        ),
      )

  -- The first cancellation of a payment that is still pending, for an order that waits for it,
  -- succeeds: the payment is marked as failed, the order is back in CONFIRMED, where it can be paid
  -- again, every other order keeps its state, and the resume point is recorded.
  pub fail_payment-Settled :
      (order_id provider_id trace_id : ℕ) (db : Db) {o : OrderRow} {p : PaymentRow}
      → lookup order_id db.orders ≡ some o
      → o.state ≡ payment_pending
      → get_by_provider_id provider_id db.payments ≡ some p
      → p.state ≡ pending
      → is_recorded trace_id "payment_failure" db ≡ false
      → (db' : Db) × (fail_payment platform order_id provider_id trace_id db
          ≡ (ok (moved confirmed), db'))
        × Settled "payment_failure" failed confirmed order_id trace_id p db db'
  unfolding order_transitions fail_payment is_recorded
  fail_payment-Settled order_id provider_id trace_id db {o} {p} h waits known is_pending fresh =
      let marked = write_state p.id failed (recorded_in trace_id "payment_failure" db) in
      (
        moved_to order_id confirmed marked,
        resume_open platform "payment_failure" is_closed failed payment_failed order_id provider_id
              trace_id db fresh known (rw is_pending refl)
            ∙ resume_moves platform order_id payment_failed confirmed
                (recorded_in trace_id "payment_failure" db) marked h (rw waits refl),
        (
          refl,
          moved_to-MovedOne order_id confirmed marked h,
          recorded_in-is_recorded trace_id "payment_failure" db,
        ),
      )
