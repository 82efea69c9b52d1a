-- ===== src/Agents/Promotions/Validation.antt =====
-- The answer of `validate_apply_promotion_command` against what `apply_promotion_command` does.
use sieshka.Prelude.{
  ℕ, Bool, true, ◌&&◌, Option, none, some, ◌≡◌, refl, String, List, is_some, arith, Option-cases,
  inl, inr,
}
use sieshka.Prelude.Table.{select, only}
use sieshka.Fsm.Machines.{PromotionEvent, promotion_transitions}
use sieshka.Agents.{Json, Texts, text_of, is_valid, is_done, reject_unless, not_allowed}
use sieshka.Agents.Promotions.{
  PromotionAction, create, move, Floats, Promotion, PromotionCommand, required_apply_fields, named,
  validate_action, validate_create, validate_move, validate_apply_promotion_command,
}
use sieshka.Agents.Promotions.Apply.{
  promotion_fits, new_promotion, apply_create, move_promotion, apply_move, apply_action,
  apply_promotion_command,
}

module _ {F : Type 0} (t : Texts) (n : Floats F) (new_id : List (Promotion F) → ℕ)
    (rows : List (Promotion F)) where
  -- The columns of a new promotion; an event writes a state only.
  abbrev pub command_fits : PromotionAction → PromotionCommand F → Bool
  command_fits create c = promotion_fits t n new_id (new_promotion t n new_id c rows)
  command_fits (move e) c = true

  create_agrees :
      (c : PromotionCommand F)
      → is_done (apply_create t n new_id c rows).0
        ≡ is_valid (validate_create t n c rows) && command_fits create c
  unfolding apply_create validate_create
  create_agrees c = ground arith

  found_agrees :
      (e : PromotionEvent) (target : String) (p : Promotion F)
      → is_done (move_promotion t n new_id e target p rows).0
        ≡ is_valid (reject_unless (is_some (promotion_transitions p.state e)) (not_allowed target))
  unfolding move_promotion
  found_agrees e target p = elim (Option-cases (promotion_transitions p.state e)) [
    | inl refused ↦ rw (move_promotion, refused) refl
    | inr (s, allowed) ↦ rw (move_promotion, allowed) refl
  ]

  move_agrees :
      (e : PromotionEvent) (target : String)
      → is_done (apply_move t n new_id e target rows).0 ≡ is_valid (validate_move t n e target rows)
  unfolding apply_move validate_move move_promotion
  move_agrees e target = elim (Option-cases (only (select (named t n target) rows))) [
    | inl nothing ↦ rw (apply_move, validate_move, nothing) refl
    | inr (p, found) ↦ rw (apply_move, validate_move, found) (found_agrees e target p)
  ]

  action_agrees :
      (a : PromotionAction) (c : PromotionCommand F)
      → is_done (apply_action t n new_id a c rows).0
        ≡ is_valid (validate_action t n a c rows) && command_fits a c
  unfolding apply_action validate_action
  action_agrees create c = create_agrees c
  action_agrees (move e) c = ground (arith, move_agrees e (text_of c.target_promotion_name))

  abbrev all_fits : Option (PromotionCommand F) → Bool
  all_fits none = true
  all_fits (some c) = command_fits c.action c

  -- For every command and every table: `apply_promotion_command` writes exactly if
  -- `validate_apply_promotion_command` returns 1 on the same table and what it creates fits the columns of the
  -- table, which the validator does not check; otherwise it raises.
  pub validate_apply_promotion_command_agrees :
      (command : Json F)
      → is_done (apply_promotion_command t n new_id command rows).0
        ≡ is_valid (validate_apply_promotion_command t n command rows)
          && all_fits (required_apply_fields t n command)
  unfolding apply_promotion_command validate_apply_promotion_command
  validate_apply_promotion_command_agrees command =
      elim (Option-cases (required_apply_fields t n command)) [
        | inl nothing ↦ rw (apply_promotion_command, validate_apply_promotion_command, nothing) refl
        | inr (c, found) ↦
            rw (apply_promotion_command, validate_apply_promotion_command, found)
              (action_agrees c.action c)
      ]
