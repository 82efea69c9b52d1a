-- ===== src/Services/Payment/Once.antt =====
-- Repeated notifications of a payment.
use sieshka.Prelude.{
  ℕ, ◌≡◌, refl, ◌∙◌, ◌⊎◌, inl, inr, Bool, true, false, String, some, arith, Bool-cases,
  Option-cases, nat_eq, string_eq,
}
use sieshka.Prelude.Dict.{lookup}
use sieshka.Orders.{OrderState, OrderEvent, order_transitions, paid, payment_confirmed}
use sieshka.Fsm.{TransitionResult, rejected, skipped, moved}
use sieshka.Database.{PaymentState, success, OrderRow, Db, Failure, no_result, Result, ok, err}
use sieshka.Tools.Orders.{with_state}
use sieshka.Services.Order.Frames.{start_cooking_ends}
use sieshka.Vm.{Platform}
use sieshka.Services.Idempotency.{is_recorded}
use sieshka.Services.Payment.{
  get_by_provider_id, write_state, run_simple_transition, resume, advance, is_success, settle_new,
  settle_payment, confirm_payment,
}
use sieshka.Services.Payment.Resume.{
  recorded_in, recorded_in-is_recorded, check_fresh, after_check, resume_recorded, resume_moves,
  lookup_moved,
}
use sieshka.Services.Payment.Confirmed.{same_key, confirm_unfolds}

abbrev Answer : Type 0
Answer = Result (TransitionResult OrderState OrderEvent)

-- What became of a resume point: an order has moved, or nothing has and the answer is no success.
-- Either way the point is recorded.
abbrev Ended : ℕ → OrderEvent → (Db → Bool) → Answer × Db → Type 0
Ended order_id event is_done out =
    ((t : OrderState) × (o : OrderRow) × (out.0 ≡ ok (moved t))
      × (order_transitions o.state event ≡ some t)
      × (lookup order_id out.1.orders ≡ some (with_state t o))
      × (is_done out.1 ≡ true))
    ⊎ (((f : Failure) × (out.0 ≡ err f) × (is_done out.1 ≡ true))
        ⊎ ((r : TransitionResult OrderState OrderEvent) × (out.0 ≡ ok r)
            × (r.success ≡ false)
            × (is_done out.1 ≡ true)))

module _ (platform : Platform) where
  resume-Ended :
      (order_id : ℕ) (event : OrderEvent) (step : String) (trace_id : ℕ) (before db : Db)
      → is_recorded trace_id step before ≡ true
      → is_recorded trace_id step db ≡ true
      → Ended order_id event (is_recorded trace_id step) (resume platform order_id event before db)
  unfolding resume run_simple_transition is_recorded
  resume-Ended order_id event step trace_id before db kept now =
      elim (Option-cases (lookup order_id db.orders)) [
        | inl missing ↦ rw (resume, missing) (inr (inl (no_result, refl, kept)))
        | inr (o, h) ↦ elim (Option-cases (order_transitions o.state event)) [
          | inl n ↦
              rw (resume, h, run_simple_transition, n) (inr (inr (rejected event, refl, refl, now)))
          | inr (t, g) ↦
              rw (resume_moves platform order_id event t before db h g)
                (inl (t, o, refl, g, lookup_moved platform order_id t db h, now))
        ]
      ]

  settle_new-Ended :
      (closed : PaymentState → Bool) (target : PaymentState) (event : OrderEvent) (step : String)
      (order_id provider_id trace_id : ℕ) (db : Db)
      → is_recorded trace_id step db ≡ true
      → Ended order_id event
          (is_recorded trace_id step)
          (settle_new platform closed target event order_id provider_id db)
  unfolding settle_new is_recorded
  settle_new-Ended closed target event step order_id provider_id trace_id db now =
      elim (Option-cases (get_by_provider_id provider_id db.payments)) [
        | inl unknown ↦ rw (settle_new, unknown) (inr (inr (skipped, refl, refl, now)))
        | inr (p, known) ↦ elim (Bool-cases (closed p.state)) [
          | inl over ↦ rw (settle_new, known, over) (inr (inr (skipped, refl, refl, now)))
          | inr still ↦
              rw (settle_new, known, still)
                (resume-Ended order_id event step trace_id db (write_state p.id target db) now now)
        ]
      ]

  settle_payment-Ended :
      (step : String) (closed : PaymentState → Bool) (target : PaymentState) (event : OrderEvent)
      (order_id provider_id trace_id : ℕ) (db : Db)
      → Ended order_id event
          (is_recorded trace_id step)
          (settle_payment platform step closed target event order_id provider_id trace_id db)
  settle_payment-Ended step closed target event order_id provider_id trace_id db =
      elim (Bool-cases (is_recorded trace_id step db)) [
        | inl again ↦
            rw
              (resume_recorded platform step closed target event order_id provider_id trace_id db
                again)
              (inr (inr (skipped, refl, refl, again)))
        | inr fresh ↦
            rw
              (after_check platform step closed target event order_id provider_id trace_id db
                (check_fresh trace_id step db fresh))
              (settle_new-Ended closed target event step order_id provider_id trace_id
                (recorded_in trace_id step db) (recorded_in-is_recorded trace_id step db))
      ]

  confirmed_edge : (s t : OrderState) → order_transitions s payment_confirmed ≡ some t → t ≡ paid
  unfolding order_transitions
  confirmed_edge s t g = ground arith

  advance-Ended :
      (order_id trace_id : ℕ) (out : Answer × Db)
      → Ended order_id payment_confirmed (is_recorded trace_id "payment_confirmation") out
      → is_recorded trace_id "payment_confirmation" (advance platform order_id out.0 out.1).1 ≡ true
  unfolding advance
  advance-Ended order_id trace_id out (inl (t, o, is_moved, g, h, now)) =
      let (result, db', e, same) =
        start_cooking_ends platform order_id out.1 h (inl (confirmed_edge o.state t g)) in
      rw (is_moved, confirmed_edge o.state t g, e)
        (same_key platform trace_id "payment_confirmation" out.1 db' same ∙ now)
  advance-Ended order_id trace_id out (inr (inl (f, e, now))) = rw e now
  advance-Ended order_id trace_id out (inr (inr (r, e, refused, now))) =
      rw (e, advance, refused) now

  confirmed_is_recorded :
      (order_id provider_id trace_id : ℕ) (db : Db)
      → is_recorded trace_id "payment_confirmation"
          (confirm_payment platform order_id provider_id trace_id db).1
        ≡ true
  confirmed_is_recorded order_id provider_id trace_id db =
      rw (confirm_unfolds platform order_id provider_id trace_id db refl) (
        advance-Ended order_id trace_id _ (
          settle_payment-Ended "payment_confirmation" is_success success payment_confirmed order_id
            provider_id trace_id db))

  -- However a confirmation ends, in a success, a refusal or an exception, its resume point is used up:
  -- every later confirmation under the same trace id, for whichever order and payment, changes nothing
  -- and reports no success.
  pub confirm_payment_once :
      (order_id provider_id trace_id order_id' provider_id' : ℕ) (db : Db)
      → let db' = (confirm_payment platform order_id provider_id trace_id db).1 in
        confirm_payment platform order_id' provider_id' trace_id db' ≡ (ok skipped, db')
  unfolding advance
  confirm_payment_once order_id provider_id trace_id order_id' provider_id' db =
      let db' = (confirm_payment platform order_id provider_id trace_id db).1 in
      confirm_unfolds platform order_id' provider_id' trace_id db' (
        resume_recorded platform "payment_confirmation" is_success success payment_confirmed
          order_id' provider_id' trace_id db'
          (confirmed_is_recorded order_id provider_id trace_id db))
