-- ===== src/Agents/Promotions/Apply.antt =====
-- `apply_promotion_command` of app/tools/promotion_agent_tools.py: the one write step.
use sieshka.Database.{varchar, text_fits}
use sieshka.Prelude.{
  ℕ, Bool, ◌&&◌, not, String, Option, none, some, List, [], ◌∷◌, ◌++◌, length, if◌then◌else◌,
}
use sieshka.Prelude.Int.{pos}
use sieshka.Prelude.Table.{select, update, is_empty, only, has_id}
use sieshka.Fsm.Machines.{PromotionState, PromotionEvent, promotion_transitions, created}
use sieshka.Agents.{
  Json, Texts, malformed, out_of_range, name_in_use, unresolved, not_allowed, Outcome, done,
  value_error, database_error, text_of,
}
use sieshka.Agents.Promotions.{
  EffectType, percent_discount, PromotionAction, create, move, Floats, Promotion, PromotionCommand,
  required_apply_fields, named, code_taken, in_range,
}

-- What the tool returns: the promotion that it wrote, and the state that it gave it.
pub record Applied : Type 0 where
  pub action : PromotionAction
  pub promotion_id : ℕ
  pub to_state : PromotionState

abbrev pub promotion_id : {F : Type 0} → Promotion F → ℕ
promotion_id p = p.id

-- `new_id` is the key that the database chooses.
module _ {F : Type 0} (t : Texts) (n : Floats F) (new_id : List (Promotion F) → ℕ) where
  abbrev stored_effect : Option EffectType → EffectType
  stored_effect none = percent_discount
  stored_effect (some effect) = effect

  -- 0 for free delivery, which has no discount.
  abbrev stored : Option F → F
  stored none = n.of_int (pos 0)
  stored (some d) = d

  abbrev pub new_promotion : PromotionCommand F → List (Promotion F) → Promotion F
  new_promotion c promotions = record {
    id = new_id promotions;
    name = text_of c.name;
    discount = stored c.discount;
    state = created;
    effect_type = stored_effect c.effect_type;
    trigger_code = c.trigger_code;
  }

  -- VARCHAR(255), NUMERIC(10, 2) and VARCHAR(64).
  abbrev pub promotion_fits : Promotion F → Bool
  promotion_fits p = varchar 255 p.name && n.is_numeric p.discount && text_fits 64 p.trigger_code

  insert_promotion : Promotion F → List (Promotion F) → Outcome Applied × List (Promotion F)
  insert_promotion p promotions = (
    done (record { action = create; promotion_id = p.id; to_state = created }),
    promotions ++ p ∷ [],
  )

  unfoldable pub apply_create :
      PromotionCommand F → List (Promotion F) → Outcome Applied × List (Promotion F)
  unfolding insert_promotion
  apply_create c promotions =
      if not (in_range t n c.effect_type c.discount)
      then (value_error out_of_range, promotions)
      else if not (is_empty (select (named t n (text_of c.name)) promotions))
      then (value_error (name_in_use (text_of c.name)), promotions)
      else if code_taken t n c.trigger_code promotions
      then (value_error (name_in_use (text_of c.trigger_code)), promotions)
      else if not (promotion_fits (new_promotion c promotions))
      then (database_error, promotions)
      else insert_promotion (new_promotion c promotions) promotions

  abbrev pub in_state : PromotionState → Promotion F → Promotion F
  in_state s p = record p { state = s }

  unfoldable pub move_promotion :
      PromotionEvent
      → String
      → Promotion F
      → List (Promotion F)
      → Outcome Applied × List (Promotion F)
  move_promotion e target p promotions = elim (promotion_transitions p.state e) [
    | none ↦ (value_error (not_allowed target), promotions)
    | some s ↦ (
      done (record { action = move e; promotion_id = p.id; to_state = s }),
      update (has_id promotion_id p.id) (in_state s) promotions,
    )
  ]

  unfoldable pub apply_move :
      PromotionEvent → String → List (Promotion F) → Outcome Applied × List (Promotion F)
  unfolding move_promotion
  apply_move e target promotions = elim (only (select (named t n target) promotions)) [
    | none ↦ (
      value_error (unresolved target (length (select (named t n target) promotions))),
      promotions,
    )
    | some p ↦ move_promotion e target p promotions
  ]

  unfoldable pub apply_action :
      PromotionAction
      → PromotionCommand F
      → List (Promotion F)
      → Outcome Applied × List (Promotion F)
  unfolding apply_create apply_move
  apply_action create c promotions = apply_create c promotions
  apply_action (move e) c promotions = apply_move e (text_of c.target_promotion_name) promotions

  unfoldable pub apply_promotion_command :
      Json F → List (Promotion F) → Outcome Applied × List (Promotion F)
  unfolding apply_action
  apply_promotion_command command promotions = elim (required_apply_fields t n command) [
    | none ↦ (value_error malformed, promotions)
    | some c ↦ apply_action c.action c promotions
  ]
