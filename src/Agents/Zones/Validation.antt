-- ===== src/Agents/Zones/Validation.antt =====
-- The answer of `validate_apply_zone_command` against what `apply_zone_command` does.
use sieshka.Prelude.{
  ℕ, ◌≡◌, refl, ◌∙◌, Bool, true, false, not, ◌&&◌, Option, none, some, List, arith, inl, inr,
  Option-cases, is_some,
}
use sieshka.Prelude.Table.{select, is_empty, distinct}
use sieshka.Agents.{Json, Texts, text_of, is_valid, is_done}
use sieshka.Agents.Zones.{
  ZoneAction, create, revise, deactivate, activate, ZoneRow, ZoneCommand, required_command_shape,
  active_named, retired_named, index_holds, validate_action, validate_apply_zone_command,
}
use sieshka.Agents.Zones.Apply.{
  zone_fits, apply_activate, apply_revise, apply_deactivate, apply_action, apply_zone_command,
}
use sieshka.Agents.Zones.Unique.{zone_id}
use sieshka.Agents.Zones.Agreement.{
  alone, create_agrees, target_agrees, clash_of, rename_refused, activate_found, revise_found,
}

-- What a creation and an update write; the other two actions write is_active only.
abbrev pub columns_fit : ZoneAction → ZoneCommand → Bool
columns_fit create c = zone_fits c
columns_fit revise c = zone_fits c
columns_fit _ c = true

module _ (t : Texts) (new_id : List ZoneRow → ℕ) (zones : List ZoneRow)
    (unique : index_holds t zones ≡ true) (keys : distinct zone_id zones ≡ true) where
  action_agrees :
      (a : ZoneAction) (c : ZoneCommand)
      → is_done (apply_action t alone new_id a c zones).0
        ≡ is_valid (validate_action t a c zones)
          && not (rename_refused t new_id a c zones)
          && columns_fit a c
  unfolding apply_action validate_action
  action_agrees create c = ground (arith, create_agrees t new_id c zones unique)
  action_agrees activate c =
      target_agrees t new_id (retired_named t (text_of c.target_zone_name))
        (text_of c.target_zone_name) zones (λ z. apply_activate t alone new_id c z zones)
        (λ found.
          is_some found && is_empty (select (active_named t (text_of c.target_zone_name)) zones))
        refl (activate_found t new_id zones unique keys c)
      ∙ ground arith
  action_agrees revise c =
      target_agrees t new_id (active_named t (text_of c.target_zone_name))
        (text_of c.target_zone_name) zones (λ z. apply_revise t alone new_id c z zones)
        (λ found. is_some found && not (clash_of t new_id c found zones) && zone_fits c) refl
        (revise_found t new_id zones unique keys c)
      ∙ ground arith
  action_agrees deactivate c =
      target_agrees t new_id (active_named t (text_of c.target_zone_name))
        (text_of c.target_zone_name) zones (λ z. apply_deactivate t alone new_id z zones) is_some
        refl (λ z found. refl)
      ∙ ground arith

  abbrev all_fits : Option ZoneCommand → Bool
  all_fits none = true
  all_fits (some c) = columns_fit c.action c

  abbrev clashes : Option ZoneCommand → Bool
  clashes none = false
  clashes (some c) = rename_refused t new_id c.action c zones

  -- In a table whose active zones have different names and whose keys differ, and with nothing
  -- committed in between: `apply_zone_command` writes exactly if `validate_apply_zone_command` returns 1
  -- and the command is no update to a name that another active zone has, and what a creation or an update writes
  -- fits the columns of the table, which the validator does not check; otherwise it raises.
  pub validate_apply_zone_command_agrees :
      {F : Type 0} (command : Json F)
      → is_done (apply_zone_command t alone new_id command zones).0
        ≡ is_valid (validate_apply_zone_command t command zones)
          && not (clashes (required_command_shape t command))
          && all_fits (required_command_shape t command)
  unfolding apply_zone_command validate_apply_zone_command
  validate_apply_zone_command_agrees command =
      elim (Option-cases (required_command_shape t command)) [
        | inl nothing ↦ rw (apply_zone_command, validate_apply_zone_command, nothing) refl
        | inr (c, found) ↦
            rw (apply_zone_command, validate_apply_zone_command, found) (action_agrees c.action c)
      ]
