-- ===== src/Agents.antt =====
-- app/tools/*_agent_tools.py: what the tools of the agents share. A command is the JSON that a
-- language model wrote, so that every field of it is checked before it is used.
pub mod Zones
pub mod Promotions
pub mod Hours
pub mod Restock
pub mod Menu
use sieshka.Prelude.{
  ℕ, Bool, true, false, String, Option, none, some, ◌||◌, ◌==◌, string_eq, if◌then◌else◌,
}
use sieshka.Prelude.Int.{ℤ}

-- What `json.loads` returns. The floating-point numbers are a parameter.
mutual
  pub data Json (F : Type 0) : Type 0 where
    null : Json F
    boolean : Bool → Json F
    integer : ℤ → Json F
    float : F → Json F
    string : String → Json F
    array : Elements F → Json F
    object : Fields F → Json F

  pub data Elements (F : Type 0) : Type 0 where
    end : Elements F
    element : Json F → Elements F → Elements F

  pub data Fields (F : Type 0) : Type 0 where
    empty : Fields F
    field : String → Json F → Fields F → Fields F

-- What the tools use of Python and PostgreSQL on texts: `strip`, and `lower` of SQL.
pub record Texts : Type 0 where
  pub strip : String → String
  pub lower : String → String

-- The messages of the validators and of the ValueErrors, with the values that are formatted into them.
pub data Reason : Type 0 where
  empty_instruction not_json not_object unsupported_action missing_field malformed : Reason
  out_of_range : Reason
  name_in_use : String → Reason
  unresolved : String → (matches : ℕ) → Reason
  not_allowed : String → Reason

-- The sentinel 1, and 0 with what the validator writes under `diagnostics["reason"]`.
pub data Verdict : Type 0 where
  valid : Verdict
  rejected : Reason → Verdict

abbrev pub is_valid : Verdict → Bool
is_valid valid = true
is_valid (rejected reason) = false

pub data Outcome (A : Type 0) : Type 0 where
  done : A → Outcome A
  value_error : Reason → Outcome A
  -- An error of the database that the tool does not catch.
  database_error : Outcome A

abbrev pub is_done : {A : Type 0} → Outcome A → Bool
is_done (done a) = true
is_done _ = false

abbrev pub reject_unless : Bool → Reason → Verdict
reject_unless holds reason = if holds then valid else rejected reason

-- A required text, which the checks of the command have found: the code asserts that it is there.
abbrev pub text_of : Option String → String
text_of none = ""
text_of (some s) = s

-- `COALESCE(:value, column)`.
abbrev pub coalesce : {A : Type 0} → Option A → A → A
coalesce none column = column
coalesce (some value) column = value

module _ {F : Type 0} where
  -- `data.get(key, default)`, and `data.get(key)`, where a missing key gives None.
  unfoldable pub get_or : Json F → String → Fields F → Json F
  get_or default key empty = default
  get_or default key (field k v fields) = if k == key then v else get_or default key fields

  abbrev pub get : String → Fields F → Json F
  get key fields = get_or null key fields

  -- `value if isinstance(value, str) and value.strip() else None`.
  abbrev pub non_blank : Texts → Json F → Option String
  non_blank t (string s) = if t.strip s == "" then none else some s
  non_blank t _ = none

  -- None, or a text that is not blank, stripped; anything else is refused.
  abbrev pub optional_text : Texts → Json F → Option (Option String)
  optional_text t null = some none
  optional_text t (string s) = if t.strip s == "" then none else some (some (t.strip s))
  optional_text t _ = none

  -- None, or an integer that passes a test; anything else is refused.
  abbrev pub optional_int : (ℤ → Bool) → Json F → Option (Option ℤ)
  optional_int ok null = some none
  optional_int ok (integer n) = if ok n then some (some n) else none
  optional_int ok _ = none

  -- `if command is None or not isinstance(command, dict): return None`.
  abbrev pub as_object : Json F → Option (Fields F)
  as_object (object fields) = some fields
  as_object _ = none

  -- `json.loads(llm_output)` of a text that is not blank; `loads` is none where it raises.
  abbrev pub with_json :
      Texts → (loads : String → Option (Json F)) → String → (Json F → Verdict) → Verdict
  with_json t loads llm_output check =
      if llm_output == "" || (t.strip llm_output == "")
      then rejected empty_instruction
      else elim (loads llm_output) [ none ↦ rejected not_json | some json ↦ check json ]
