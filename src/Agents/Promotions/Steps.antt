-- ===== src/Agents/Promotions/Steps.antt =====
-- What `apply_promotion_command` may do to the table of promotions.
use mathlib.Core.Path.{subst}
use sieshka.Prelude.{
  ℕ, ◌≡◌, refl, sym, true, false, String, some, List, [], ◌∷◌, ◌++◌, any, arith, Bool-cases,
  Option-cases, inl, inr,
}
use sieshka.Prelude.Table.{
  select, update, is_empty, only, has_id, distinct, update-middle, only-Splits, select-any,
}
use sieshka.Fsm.Machines.{PromotionState, PromotionEvent, promotion_transitions, created}
use sieshka.Agents.{Json, Texts, text_of}
use sieshka.Agents.Promotions.{
  PromotionAction, create, move, Floats, Promotion, PromotionCommand, required_apply_fields, named,
  code_taken, in_range,
}
use sieshka.Agents.Promotions.Apply.{
  promotion_id, new_promotion, promotion_fits, in_state, apply_create, move_promotion, apply_move,
  apply_action, apply_promotion_command,
}

-- One step of the promotions: none, a new promotion in the state CREATED whose name no other has, or one
-- promotion that an edge of the graph moves on, with everything else as it was.
pub data Step {F : Type 0} (t : Texts) (n : Floats F)
    : List (Promotion F) → List (Promotion F) → Type 0 where
  unchanged : (rows : List (Promotion F)) → Step t n rows rows
  added :
      (rows : List (Promotion F)) (p : Promotion F)
      → p.state ≡ created
      → any (named t n p.name) rows ≡ false
      → Step t n rows (rows ++ p ∷ [])
  moved :
      (before after : List (Promotion F)) (p : Promotion F) (e : PromotionEvent)
      (s : PromotionState)
      → promotion_transitions p.state e ≡ some s
      → Step t n (before ++ p ∷ after) (before ++ record p { state = s } ∷ after)

module _ {F : Type 0} (t : Texts) (n : Floats F) (new_id : List (Promotion F) → ℕ)
    (rows : List (Promotion F)) where
  create-Step : (c : PromotionCommand F) → Step t n rows (apply_create t n new_id c rows).1
  unfolding apply_create
  create-Step c = elim (Bool-cases (in_range t n c.effect_type c.discount)) [
    | inr out ↦ rw out (unchanged rows)
    | inl within ↦ elim (Bool-cases (is_empty (select (named t n (text_of c.name)) rows))) [
      | inr taken ↦ rw (within, taken) (unchanged rows)
      | inl free ↦ elim (Bool-cases (code_taken t n c.trigger_code rows)) [
        | inl used ↦ rw (within, free, used) (unchanged rows)
        | inr unused ↦
            elim (Bool-cases (promotion_fits t n new_id (new_promotion t n new_id c rows))) [
              | inr large ↦ rw (within, free, unused, large) (unchanged rows)
              | inl fits ↦
                  rw (within, free, unused, fits)
                    (added rows (new_promotion t n new_id c rows) refl ground
                      (arith, select-any (named t n (text_of c.name)) rows))
            ]
      ]
    ]
  ]

  module _ (keys : distinct promotion_id rows ≡ true) where
    move-Step :
        (e : PromotionEvent) (target : String) (p : Promotion F)
        → only (select (named t n target) rows) ≡ some p
        → Step t n rows (move_promotion t n new_id e target p rows).1
    unfolding move_promotion
    move-Step e target p found = elim (Option-cases (promotion_transitions p.state e)) [
      | inl refused ↦ rw (move_promotion, refused) (unchanged rows)
      | inr (s, allowed) ↦
          let (before, after, split, _, _, _) = only-Splits (named t n target) rows p found in
          rw (move_promotion, allowed)
            (subst (λ r. Step t n r (update (has_id promotion_id p.id) (in_state t n new_id s) r))
              (sym split)
              (rw
                (update-middle promotion_id (in_state t n new_id s) before after p
                  (subst (λ r. distinct promotion_id r ≡ true) split keys))
                (moved before after p e s allowed)))
    ]

    apply_move-Step :
        (e : PromotionEvent) (target : String)
        → Step t n rows (apply_move t n new_id e target rows).1
    unfolding apply_move
    apply_move-Step e target = elim (Option-cases (only (select (named t n target) rows))) [
      | inl nothing ↦ rw (apply_move, nothing) (unchanged rows)
      | inr (p, found) ↦ rw (apply_move, found) (move-Step e target p found)
    ]

    action-Step :
        (a : PromotionAction) (c : PromotionCommand F)
        → Step t n rows (apply_action t n new_id a c rows).1
    unfolding apply_action
    action-Step create c = create-Step c
    action-Step (move e) c = apply_move-Step e (text_of c.target_promotion_name)

    -- If the keys of the table differ, then every command does one step: nothing, a new promotion in the
    -- state CREATED with a name that no promotion has, or one promotion moved along an edge of
    -- PROMOTION_TRANSITIONS, with all other promotions and columns as they were.
    pub apply_promotion_command-Step :
        (command : Json F) → Step t n rows (apply_promotion_command t n new_id command rows).1
    unfolding apply_promotion_command
    apply_promotion_command-Step command = elim (Option-cases (required_apply_fields t n command)) [
      | inl nothing ↦ rw (apply_promotion_command, nothing) (unchanged rows)
      | inr (c, found) ↦ rw (apply_promotion_command, found) (action-Step c.action c)
    ]
