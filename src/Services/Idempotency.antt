-- ===== src/Services/Idempotency.antt =====
-- app/services/idempotency.py and app/trace.py: which resume points have run, and which order a
-- trace id stands for.
use sieshka.Prelude.{
  ℕ, ◌≡◌, Bool, true, false, ◌&&◌, String, Option, none, some, List, [], ◌∷◌, ◌++◌, arith, any,
  ◌==◌, nat_eq, nat_beq_iff, string_eq, if◌then◌else◌,
}
use sieshka.Database.{Db, ok, Session, pure}

-- "{trace_id}:{program_step}", as the pair of its parts.
unfoldable pub is_recorded : ℕ → String → Db → Bool
is_recorded trace_id step db =
    any (λ key. (key.0 == trace_id) && (key.1 == step)) db.idempotency_keys

-- `INSERT … ON CONFLICT DO NOTHING RETURNING key`, in a transaction of its own. The payload of a
-- key is only read back, by the checkout, and is left out.
unfoldable pub check_and_record : ℕ → String → Session Bool
unfolding is_recorded
check_and_record trace_id step db =
    if is_recorded trace_id step db
    then pure false db
    else (ok true, record db { idempotency_keys = (trace_id, step) ∷ db.idempotency_keys })

-- `TraceEvent`, with the fields that the code reads back.
pub record TraceEvent : Type 0 where
  pub trace_id : ℕ
  pub entity_id : ℕ

-- `LightweightTrace.get_by_trace_id`: the first event of that id.
unfoldable pub get_by_trace_id : ℕ → List TraceEvent → Option TraceEvent
get_by_trace_id trace_id [] = none
get_by_trace_id trace_id (e ∷ events) =
    if e.trace_id == trace_id then some e else get_by_trace_id trace_id events

-- `LightweightTrace.record`: the new event comes last.
unfoldable pub record_event : ℕ → ℕ → List TraceEvent → List TraceEvent
record_event trace_id entity_id events =
    events ++ (record { trace_id = trace_id; entity_id = entity_id } ∷ [])

-- An event that is recorded under an id that no earlier event has is the one that the id finds.
pub recorded_found :
    (trace_id entity_id : ℕ) (events : List TraceEvent)
    → get_by_trace_id trace_id events ≡ none
    → get_by_trace_id trace_id (record_event trace_id entity_id events)
      ≡ some (record { trace_id = trace_id; entity_id = entity_id })
unfolding get_by_trace_id record_event
recorded_found trace_id entity_id [] h = ground (arith, nat_beq_iff trace_id trace_id)
recorded_found trace_id entity_id (e ∷ events) h =
    ground (arith, recorded_found trace_id entity_id events)
