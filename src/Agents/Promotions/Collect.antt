-- ===== src/Agents/Promotions/Collect.antt =====
-- The collect phase of app/tools/promotion_agent_tools.py, which writes nothing.
use sieshka.Prelude.{Bool, true, false, ◌&&◌, String, Option, none, some, is_some, if◌then◌else◌}
use sieshka.Agents.{
  Json, null, integer, float, string, Fields, Texts, Verdict, rejected, not_object,
  unsupported_action, missing_field, get, get_or, non_blank, as_object, with_json, reject_unless,
}
use sieshka.Agents.Promotions.{
  EffectType, create, move, action_of, effect_of_text, is_percent_or_amount,
}

module _ {F : Type 0} (t : Texts) where
  is_number : Json F → Bool
  is_number (integer i) = true
  is_number (float f) = true
  is_number _ = false

  -- `None` here is an effect that is not known: only a missing key is PERCENT_DISCOUNT.
  known_effect : Json F → Option EffectType
  known_effect (string s) = effect_of_text s
  known_effect _ = none

  trigger_ok : Json F → Bool
  trigger_ok null = true
  trigger_ok json = is_some (non_blank t json)

  check_create : Fields F → Bool
  unfolding is_number known_effect trigger_ok
  check_create fields =
      is_some (non_blank t (get "name" fields))
      && elim (known_effect (get_or (string "PERCENT_DISCOUNT") "effect_type" fields)) [
        | none ↦ false
        | some effect ↦
            if is_percent_or_amount effect then is_number (get "discount" fields) else true
      ]
      && trigger_ok (get "trigger_code" fields)

  check_action : Fields F → Verdict
  unfolding check_create
  check_action fields = elim (action_of (get "action" fields)) [
    | none ↦ rejected unsupported_action
    | some create ↦ reject_unless (check_create fields) missing_field
    | some (move e) ↦
        reject_unless (is_some (non_blank t (get "target_promotion_name" fields))) missing_field
  ]

  unfoldable pub check_promotion_command : Json F → Verdict
  unfolding check_action
  check_promotion_command json = elim (as_object json) [
    | none ↦ rejected not_object
    | some fields ↦ check_action fields
  ]

  unfoldable pub validate_promotion_command : (loads : String → Option (Json F)) → String → Verdict
  unfolding check_promotion_command
  validate_promotion_command loads llm_output = with_json t loads llm_output check_promotion_command
