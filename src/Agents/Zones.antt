-- ===== src/Agents/Zones.antt =====
-- app/tools/zone_agent_tools.py: the commands that create, change, retire and restore delivery zones.
pub mod Apply
pub mod Unique
pub mod Steps
pub mod Agreement
pub mod Validation
use sieshka.Prelude.{
  ℕ, suc, Bool, true, false, not, ◌&&◌, ◌||◌, String, Option, none, some, List, [], ◌∷◌, ◌++◌, any,
  length, is_some, ◌==◌, string_eq, nat_eq, if◌then◌else◌,
}
use sieshka.Prelude.Int.{ℤ, pos, ltb_ℤ, leb_ℤ}
use sieshka.Prelude.Table.{select, is_empty, only}
use sieshka.Agents.{
  Json, null, integer, string, Fields, Texts, Reason, unsupported_action, missing_field, malformed,
  name_in_use, unresolved, Verdict, valid, rejected, Outcome, done, value_error, get, non_blank,
  as_object, with_json, reject_unless, text_of, optional_int,
}

pub data ZoneAction : Type 0 where
  create revise deactivate activate : ZoneAction

-- A row of `delivery_zones`.
pub record ZoneRow : Type 0 where
  pub id : ℕ
  pub name : String
  pub delivery_time_minutes : ℤ
  pub is_active : Bool
  pub delivery_fee_rub : ℤ

-- The normalized command. `delivery_time_minutes` is read for `create` and `update` only, which are the
-- actions that check it.
pub record ZoneCommand : Type 0 where
  pub action : ZoneAction
  pub name : Option String
  pub delivery_time_minutes : Option ℤ
  pub target_zone_name : Option String
  pub delivery_fee_rub : Option ℤ

-- The checks that depend on the action, for a fee that passed its own.
abbrev pub has_required :
    ZoneAction → Option String → Option (Option ℤ) → Option String → Option ℤ → Bool
has_required create name (some (some minutes)) target fee = is_some name
has_required create name _ target fee = false
has_required revise name (some minutes) target fee =
    is_some target && (is_some name || is_some minutes || is_some fee)
has_required revise name none target fee = false
has_required deactivate name minutes target fee = is_some target
has_required activate name minutes target fee = is_some target

module _ {F : Type 0} where
  -- `if action not in _VALID_ACTIONS`; "update" is `revise`.
  abbrev pub action_of : Json F → Option ZoneAction
  action_of (string s) =
      if s == "create"
      then some create
      else if s == "update"
      then some revise
      else if s == "deactivate"
      then some deactivate
      else if s == "activate"
      then some activate
      else none
  action_of _ = none

  abbrev pub any_int : Json F → Option ℤ
  any_int (integer n) = some n
  any_int _ = none

  normalized : Texts → Fields F → ZoneAction → Option ℤ → Option ZoneCommand
  normalized t fields action fee =
      let name = non_blank t (get "name" fields) in
      let minutes = get "delivery_time_minutes" fields in
      let target = non_blank t (get "target_zone_name" fields) in
      if has_required action name (optional_int (λ n. not (leb_ℤ n (pos 0))) minutes) target fee
      then some (record {
        action = action;
        name = name;
        delivery_time_minutes = any_int minutes;
        target_zone_name = target;
        delivery_fee_rub = fee;
      })
      else none

  shape_of : Texts → Fields F → Option ZoneCommand
  unfolding normalized
  shape_of t fields = elim (action_of (get "action" fields)) [
    | none ↦ none
    | some action ↦
        elim (optional_int (λ n. not (ltb_ℤ n (pos 0))) (get "delivery_fee_rub" fields)) [
          | none ↦ none
          | some fee ↦ normalized t fields action fee
        ]
  ]

  unfoldable pub required_command_shape : Texts → Json F → Option ZoneCommand
  unfolding shape_of
  required_command_shape t command = elim (as_object command) [
    | none ↦ none
    | some fields ↦ shape_of t fields
  ]

  abbrev bad_command : Json F → Reason
  bad_command json = elim (as_object json) [
    | none ↦ unsupported_action
    | some fields ↦
        if is_some (action_of (get "action" fields)) then missing_field else unsupported_action
  ]

  -- The collect phase.
  unfoldable pub validate_zone_command :
      Texts → (loads : String → Option (Json F)) → String → Verdict
  unfolding required_command_shape
  validate_zone_command t loads llm_output =
      with_json t loads llm_output
        λ json. reject_unless (is_some (required_command_shape t json)) (bad_command json)

module _ (t : Texts) where
  -- `lower(name) = lower(:name) AND is_active`.
  abbrev pub active_named : String → ZoneRow → Bool
  active_named name z = z.is_active && (t.lower z.name == t.lower name)

  abbrev pub retired_named : String → ZoneRow → Bool
  retired_named name z = not z.is_active && (t.lower z.name == t.lower name)

  -- `… AND is_active AND id <> :self`.
  abbrev pub other_active_named : ℕ → String → ZoneRow → Bool
  other_active_named self name z = active_named name z && not (z.id == self)

  -- The partial unique index `idx_delivery_zones_name_active`, as a test on the whole table.
  unfoldable pub index_holds : List ZoneRow → Bool
  index_holds [] = true
  index_holds (z ∷ rows) = not (z.is_active && any (active_named z.name) rows) && index_holds rows

  abbrev exactly_one : String → List ZoneRow → Verdict
  exactly_one name rows = reject_unless (is_some (only rows)) (unresolved name (length rows))

  unfoldable pub validate_action : ZoneAction → ZoneCommand → List ZoneRow → Verdict
  validate_action create c zones =
      let name = text_of c.name in
      reject_unless (is_empty (select (active_named name) zones)) (name_in_use name)
  validate_action revise c zones =
      let target = text_of c.target_zone_name in
      exactly_one target (select (active_named target) zones)
  validate_action deactivate c zones =
      let target = text_of c.target_zone_name in
      exactly_one target (select (active_named target) zones)
  validate_action activate c zones =
      let target = text_of c.target_zone_name in
      elim (exactly_one target (select (retired_named target) zones)) [
        | valid ↦ reject_unless (is_empty (select (active_named target) zones)) (name_in_use target)
        | rejected reason ↦ rejected reason
      ]

  unfoldable pub validate_apply_zone_command : {F : Type 0} → Json F → List ZoneRow → Verdict
  unfolding validate_action
  validate_apply_zone_command command zones = elim (required_command_shape t command) [
    | none ↦ rejected malformed
    | some c ↦ validate_action c.action c zones
  ]
