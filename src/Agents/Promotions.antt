-- ===== src/Agents/Promotions.antt =====
-- app/tools/promotion_agent_tools.py: the commands that create promotions and move them on.
pub mod Collect
pub mod Apply
pub mod Steps
pub mod Validation
use sieshka.Prelude.{
  ℕ, Bool, true, false, not, ◌&&◌, ◌||◌, String, Option, none, some, List, [], ◌∷◌, ◌++◌, length,
  is_some, ◌==◌, string_eq, nat_eq, if◌then◌else◌,
}
use sieshka.Prelude.Int.{ℤ, pos}
use sieshka.Prelude.Table.{select, update, is_empty, only, has_id}
use sieshka.Fsm.Machines.{
  PromotionState, PromotionEvent, promotion_transitions, created, activate, expire, archive,
}
use sieshka.Agents.{
  optional_text, Json, null, integer, float, string, Fields, Texts, Reason, unsupported_action,
  missing_field, malformed, out_of_range, not_object, name_in_use, unresolved, not_allowed, Verdict,
  valid, rejected, Outcome, done, value_error, get, non_blank, as_object, with_json, reject_unless,
  text_of,
}

pub data EffectType : Type 0 where
  percent_discount fixed_amount free_delivery : EffectType

-- "create", or one of the keys of `_ACTION_TO_EVENT` as its event.
pub data PromotionAction : Type 0 where
  create : PromotionAction
  move : PromotionEvent → PromotionAction

-- What the checks use of floating-point numbers, `<` and `<=`; NaN, which is neither, is among them. And
-- which of them a column NUMERIC(10, 2) takes.
pub record Floats (F : Type 0) : Type 0 where
  pub of_int : ℤ → F
  pub less : F → F → Bool
  pub at_most : F → F → Bool
  pub is_numeric : F → Bool

-- A row of `promotions`.
pub record Promotion (F : Type 0) : Type 0 where
  pub id : ℕ
  pub name : String
  pub discount : F
  pub state : PromotionState
  pub effect_type : EffectType
  pub trigger_code : Option String

pub record PromotionCommand (F : Type 0) : Type 0 where
  pub action : PromotionAction
  pub name : Option String
  pub discount : Option F
  pub target_promotion_name : Option String
  pub effect_type : Option EffectType
  pub trigger_code : Option String

abbrev pub action_of_text : String → Option PromotionAction
action_of_text s =
    if s == "create"
    then some create
    else if s == "activate"
    then some (move activate)
    else if s == "expire"
    then some (move expire)
    else if s == "archive"
    then some (move archive)
    else none

abbrev pub effect_of_text : String → Option EffectType
effect_of_text s =
    if s == "PERCENT_DISCOUNT"
    then some percent_discount
    else if s == "FIXED_AMOUNT"
    then some fixed_amount
    else if s == "FREE_DELIVERY"
    then some free_delivery
    else none

abbrev pub is_percent_or_amount : EffectType → Bool
is_percent_or_amount free_delivery = false
is_percent_or_amount _ = true

module _ {F : Type 0} where
  abbrev pub action_of : Json F → Option PromotionAction
  action_of (string s) = action_of_text s
  action_of _ = none

  abbrev pub optional_number : Floats F → Json F → Option (Option F)
  optional_number n null = some none
  optional_number n (integer i) = some (some (n.of_int i))
  optional_number n (float f) = some (some f)
  optional_number n _ = none

  -- None is PERCENT_DISCOUNT for a creation.
  abbrev pub effect_type_of : PromotionAction → Json F → Option (Option EffectType)
  effect_type_of create null = some (some percent_discount)
  effect_type_of (move e) null = some none
  effect_type_of action (string s) = elim (effect_of_text s) [
    | none ↦ none
    | some effect ↦ some (some effect)
  ]
  effect_type_of action _ = none

  -- A creation needs a name and, but for free delivery, a discount; a move needs its target.
  completed : PromotionCommand F → Option (PromotionCommand F)
  completed c = elim c.action [
    | create ↦ elim c.effect_type [
      | none ↦ none
      | some effect ↦
          if is_some c.name && (is_some c.discount || not (is_percent_or_amount effect))
          then some (if is_percent_or_amount effect then c else record c { discount = none })
          else none
    ]
    | move e ↦ if is_some c.target_promotion_name then some c else none
  ]

  with_fields :
      PromotionAction
      → Option (Option String)
      → Option (Option F)
      → Option (Option String)
      → Option (Option EffectType)
      → Option (Option String)
      → Option (PromotionCommand F)
  unfolding completed
  with_fields action (some name) (some discount) (some target) (some effect) (some code) =
      completed (record {
        action = action;
        name = name;
        discount = discount;
        target_promotion_name = target;
        effect_type = effect;
        trigger_code = code;
      })
  with_fields action _ _ _ _ _ = none

  fields_of : Texts → Floats F → Fields F → Option (PromotionCommand F)
  unfolding with_fields
  fields_of t n fields = elim (action_of (get "action" fields)) [
    | none ↦ none
    | some action ↦
        with_fields action (optional_text t (get "name" fields))
          (optional_number n (get "discount" fields))
          (optional_text t (get "target_promotion_name" fields))
          (effect_type_of action (get "effect_type" fields))
          (optional_text t (get "trigger_code" fields))
  ]

  unfoldable pub required_apply_fields : Texts → Floats F → Json F → Option (PromotionCommand F)
  unfolding fields_of
  required_apply_fields t n command = elim (as_object command) [
    | none ↦ none
    | some fields ↦ fields_of t n fields
  ]

module _ {F : Type 0} (t : Texts) (n : Floats F) where
  -- `lower(name) = lower(:name)`.
  abbrev pub named : String → Promotion F → Bool
  named name p = t.lower p.name == t.lower name

  abbrev pub same_code : String → Option String → Bool
  same_code code none = false
  same_code code (some trigger) = t.lower trigger == t.lower code

  abbrev pub has_trigger : String → Promotion F → Bool
  has_trigger code p = same_code code p.trigger_code

  abbrev pub code_taken : Option String → List (Promotion F) → Bool
  code_taken none promotions = false
  code_taken (some code) promotions = not (is_empty (select (has_trigger code) promotions))

  -- A percentage from 0 to 100, or an amount above 0.
  abbrev pub in_range : Option EffectType → Option F → Bool
  in_range (some percent_discount) (some d) =
      not (n.less d (n.of_int (pos 0)) || n.less (n.of_int (pos 100)) d)
  in_range (some fixed_amount) (some d) = not (n.at_most d (n.of_int (pos 0)))
  in_range (some free_delivery) d = true
  in_range _ _ = false

  unfoldable pub validate_create : PromotionCommand F → List (Promotion F) → Verdict
  validate_create c promotions =
      if not (in_range c.effect_type c.discount)
      then rejected out_of_range
      else if not (is_empty (select (named (text_of c.name)) promotions))
      then rejected (name_in_use (text_of c.name))
      else if code_taken c.trigger_code promotions
      then rejected (name_in_use (text_of c.trigger_code))
      else valid

  unfoldable pub validate_move : PromotionEvent → String → List (Promotion F) → Verdict
  validate_move e target promotions = elim (only (select (named target) promotions)) [
    | none ↦ rejected (unresolved target (length (select (named target) promotions)))
    | some p ↦ reject_unless (is_some (promotion_transitions p.state e)) (not_allowed target)
  ]

  unfoldable pub validate_action :
      PromotionAction → PromotionCommand F → List (Promotion F) → Verdict
  unfolding validate_create validate_move
  validate_action create c promotions = validate_create c promotions
  validate_action (move e) c promotions =
      validate_move e (text_of c.target_promotion_name) promotions

  unfoldable pub validate_apply_promotion_command : Json F → List (Promotion F) → Verdict
  unfolding validate_action
  validate_apply_promotion_command command promotions = elim (required_apply_fields t n command) [
    | none ↦ rejected malformed
    | some c ↦ validate_action c.action c promotions
  ]
