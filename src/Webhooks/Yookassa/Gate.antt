-- ===== src/Webhooks/Yookassa/Gate.antt =====
-- What it takes for a notification to change anything, and what a genuine one does.
use sieshka.Prelude.{
  ℕ, ◌≡◌, refl, ◌⊎◌, inl, inr, true, String, Option, none, some, List, arith, Bool-cases,
  Option-cases, nat_eq, nat_beq_iff, string_eq, eq_iff,
}
use sieshka.Database.{PaymentRow, Db}
use sieshka.Vm.{Platform}
use sieshka.Services.Idempotency.{TraceEvent, get_by_trace_id}
use sieshka.Services.Payment.{
  get_by_provider_id, RemoteAmount, RemotePayment, amount_matches, verify_provider_payment,
}
use sieshka.Webhooks.Yookassa.{
  Notification, expected_status, is_handled, check_provider, with_order, with_ids, yookassa_webhook,
}

-- The provider's own record agrees with what was recorded when the payment was made.
pub record Agrees (remote : RemotePayment) (event : String) (local : PaymentRow) : Type 0 where
  pub status_agrees : remote.status ≡ expected_status event
  pub is_paid : event ≡ "payment.succeeded" → remote.paid ≡ true
  pub charged : RemoteAmount
  pub has_amount : remote.amount ≡ some charged
  pub amount_agrees : charged.value ≡ some local.amount
  pub currency_agrees : charged.currency ≡ local.currency

amount_matches-agrees :
    (remote : Option RemoteAmount) (local : PaymentRow)
    → amount_matches remote local ≡ true
    → (a : RemoteAmount) × (remote ≡ some a)
      × (a.value ≡ some local.amount)
      × (a.currency ≡ local.currency)
unfolding amount_matches
amount_matches-agrees none local h = ground arith
amount_matches-agrees (some a) local h = elim (Option-cases a.value) [
  | inl unreadable ↦ absurd (ground arith)
  | inr (c, read) ↦ (
    a,
    refl,
    ground (arith, nat_beq_iff c local.amount),
    ground (arith, eq_iff a.currency local.currency),
  )
]

abbrev pub Verified : RemotePayment → String → ℕ → Db → Type 0
Verified remote event payment_id db =
    (p : PaymentRow) × (get_by_provider_id payment_id db.payments ≡ some p) × Agrees remote event p

not_other : (event : String) → event ≡ "payment.succeeded" → expected_status event ≡ "succeeded"
not_other event e = rw e refl

verified_local :
    (remote : RemotePayment) (payment_id : ℕ) (event : String) (db : Db) {p : PaymentRow}
    → get_by_provider_id payment_id db.payments ≡ some p
    → verify_provider_payment remote payment_id (expected_status event) db ≡ true
    → (remote.status ≡ expected_status event)
      × (expected_status event ≡ "succeeded" → remote.paid ≡ true)
      × (amount_matches remote.amount p ≡ true)
unfolding verify_provider_payment
verified_local remote payment_id event db {p} known h = (
  ground (arith, eq_iff remote.status (expected_status event)),
  λ e. ground (arith, eq_iff (expected_status event) "succeeded"),
  ground arith,
)

verify-Verified :
    (remote : RemotePayment) (payment_id : ℕ) (event : String) (db : Db)
    → verify_provider_payment remote payment_id (expected_status event) db ≡ true
    → Verified remote event payment_id db
verify-Verified remote payment_id event db h =
    elim (Option-cases (get_by_provider_id payment_id db.payments)) [
      | inl unknown ↦ absurd (unfold verify_provider_payment in ground arith)
      | inr (p, known) ↦
          let (status, is_paid, matches) = verified_local remote payment_id event db known h in
          let (a, has, value, currency) = amount_matches-agrees remote.amount p matches in
          (
            p,
            known,
            record {
              status_agrees = status;
              is_paid = λ e. is_paid (not_other event e);
              charged = a;
              has_amount = has;
              amount_agrees = value;
              currency_agrees = currency;
            },
          )
    ]

-- A notification of a payment that the provider's API confirms, for a trace that this process knows.
pub record Genuine (get_payment : ℕ → Option RemotePayment) (traces : List TraceEvent)
    (event : String) (trace_arg payment_arg : Option ℕ) (db : Db) : Type 0 where
  pub trace_id : ℕ
  pub has_trace_id : trace_arg ≡ some trace_id
  pub traced : TraceEvent
  pub is_traced : get_by_trace_id trace_id traces ≡ some traced
  pub payment_id : ℕ
  pub has_payment_id : payment_arg ≡ some payment_id
  pub remote : RemotePayment
  pub answered : get_payment payment_id ≡ some remote
  pub verified : Verified remote event payment_id db

module _ (platform : Platform) where
  provider_gate :
      (answer : Option RemotePayment) (event : String) (order_id payment_id trace_id : ℕ) (db : Db)
      → ((check_provider platform answer event order_id payment_id trace_id db).1 ≡ db)
        ⊎ ((remote : RemotePayment) × (answer ≡ some remote) × Verified remote event payment_id db)
  unfolding check_provider
  provider_gate none event order_id payment_id trace_id db = inl refl
  provider_gate (some remote) event order_id payment_id trace_id db =
      elim (Bool-cases (verify_provider_payment remote payment_id (expected_status event) db)) [
        | inl verified ↦ inr (remote, refl, verify-Verified remote payment_id event db verified)
        | inr forged ↦ inl (rw (check_provider, forged) refl)
      ]

  module _ (get_payment : ℕ → Option RemotePayment) (traces : List TraceEvent) where
    order_gate :
        (event : String) (trace_id payment_id : ℕ) (db : Db)
        → ((with_ids platform get_payment traces event (some trace_id) (some payment_id) db).1 ≡ db)
          ⊎ Genuine get_payment traces event (some trace_id) (some payment_id) db
    unfolding with_ids with_order
    order_gate event trace_id payment_id db =
        elim (Option-cases (get_by_trace_id trace_id traces)) [
          | inl unknown ↦ inl (rw (with_ids, unknown, with_order) refl)
          | inr (e, known) ↦
              elim (provider_gate (get_payment payment_id) event e.entity_id payment_id trace_id
                db) [
                  | inl same ↦ inl (rw (with_ids, known, with_order) same)
                  | inr (r, answer, v) ↦ inr (record {
                    trace_id = trace_id;
                    has_trace_id = refl;
                    traced = e;
                    is_traced = known;
                    payment_id = payment_id;
                    has_payment_id = refl;
                    remote = r;
                    answered = answer;
                    verified = v;
                  })
                ]
        ]

    ids_gate :
        (event : String) (trace_arg payment_arg : Option ℕ) (db : Db)
        → ((with_ids platform get_payment traces event trace_arg payment_arg db).1 ≡ db)
          ⊎ Genuine get_payment traces event trace_arg payment_arg db
    ids_gate event (some t) (some p) db = order_gate event t p db
    ids_gate event none p db = inl (unfold with_ids in refl)
    ids_gate event (some t) none db = inl (unfold with_ids in refl)

    -- Whatever is posted to the webhook, the database is as it was, or the notification is genuine: its
    -- event is one of the two that are handled, its trace id is known, and the provider's own record of
    -- the payment has the event's status, is paid if the event says so, and agrees in amount and
    -- currency with the payment that was recorded here.
    pub yookassa_webhook-Genuine :
        (n : Notification) (db : Db)
        → ((yookassa_webhook platform get_payment traces (some n) db).1 ≡ db)
          ⊎ ((is_handled n.event ≡ true)
              × Genuine get_payment traces n.event n.trace_id n.payment_id db)
    unfolding yookassa_webhook
    yookassa_webhook-Genuine n db = elim (Bool-cases (is_handled n.event)) [
      | inr unhandled ↦ inl (rw (yookassa_webhook, unhandled) refl)
      | inl handled ↦ elim (ids_gate n.event n.trace_id n.payment_id db) [
        | inl same ↦ inl (rw (yookassa_webhook, handled) same)
        | inr genuine ↦ inr (handled, genuine)
      ]
    ]
