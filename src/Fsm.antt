-- ===== src/Fsm.antt =====
-- app/fsm/core/base.py and the `transition` methods of app/domains/*/fsm.py, which share one body:
-- read the state, look the event up, refuse it or write the new state. The graph is a parameter.
pub mod Machines
use sieshka.Prelude.{
  ℕ, Bool, true, false, Option, none, some, List, [], ◌∷◌, is_some, nat_eq, if◌then◌else◌,
}
use sieshka.Prelude.Dict.{Dict, lookup, adjust}

-- `reason` is a human-readable text and is left out.
pub record TransitionResult (S E : Type 0) : Type 0 where
  pub success : Bool
  pub new_state : Option S
  pub rejected_event : Option E

-- What `state_reader` reads and `state_writer` writes, by entity id.
abbrev pub States : Type 0 → Type 0
States S = Dict ℕ S

module _ {S E : Type 0} where
  abbrev pub rejected : E → TransitionResult S E
  rejected e = record { success = false; new_state = none; rejected_event = some e }

  -- A refusal that names no event.
  abbrev pub skipped : TransitionResult S E
  skipped = record { success = false; new_state = none; rejected_event = none }

  abbrev pub moved : S → TransitionResult S E
  moved s = record { success = true; new_state = some s; rejected_event = none }

module _ {S E : Type 0} (transitions : S → E → Option S) where
  decide : Option S → ℕ → E → States S → TransitionResult S E × States S
  decide none id e db = (rejected e, db)
  decide (some s) id e db = (moved s, adjust id (λ _. s) db)

  -- A reader of a missing entity raises, which is `none`.
  unfoldable pub transition : ℕ → E → States S → Option (TransitionResult S E × States S)
  unfolding decide
  transition id e db = elim (lookup id db) [
    | none ↦ none
    | some current ↦ some (decide (transitions current e) id e db)
  ]

  -- `get_allowed_events`, over the events of the graph.
  unfoldable pub get_allowed_events : List E → S → List E
  get_allowed_events [] s = []
  get_allowed_events (e ∷ es) s =
      let rest = get_allowed_events es s in if is_some (transitions s e) then e ∷ rest else rest
