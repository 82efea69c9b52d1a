-- ===== src/Agents/Restock.antt =====
-- app/tools/inventory_agent_tools.py: the command that adds to the stock of an item.
pub mod Effect
use sieshka.Prelude.{
  ℕ, Bool, true, false, not, String, Option, none, some, is_some, ◌==◌, string_eq, if◌then◌else◌,
}
use sieshka.Prelude.Int.{ℤ, pos, leb_ℤ}
use sieshka.Database.{Db, restock_agent, malformed_command, Session, raise, pure, ◌>>◌}
use sieshka.Tools.Inventory.{quantity_of, increment_inventory}
use sieshka.Agents.{
  Json, integer, string, Fields, Texts, malformed, missing_field, not_object, unresolved, Verdict,
  rejected, get, non_blank, as_object, with_json, reject_unless,
}

pub record Restock : Type 0 where
  pub sku : String
  pub quantity : ℤ

abbrev pub restock_of : Texts → Option String → Option ℤ → Option Restock
restock_of t (some sku) (some quantity) = some (record { sku = t.strip sku; quantity = quantity })
restock_of t _ _ = none

module _ {F : Type 0} where
  -- A positive integer; a Boolean is none.
  abbrev pub positive : Json F → Option ℤ
  positive (integer n) = if leb_ℤ n (pos 0) then none else some n
  positive _ = none

  unfoldable pub required_apply_fields : Texts → Json F → Option Restock
  required_apply_fields t command = elim (as_object command) [
    | none ↦ none
    | some fields ↦ restock_of t (non_blank t (get "sku" fields)) (positive (get "quantity" fields))
  ]

  check_restock : Texts → Json F → Verdict
  unfolding required_apply_fields
  check_restock t json = elim (as_object json) [
    | none ↦ rejected not_object
    | some fields ↦ reject_unless (is_some (required_apply_fields t json)) missing_field
  ]

  -- The collect phase, which tests the same fields.
  unfoldable pub validate_restock_command :
      Texts → (loads : String → Option (Json F)) → String → Verdict
  unfolding check_restock
  validate_restock_command t loads llm_output = with_json t loads llm_output (check_restock t)

  unfoldable pub validate_apply_restock_command : Texts → Json F → Db → Verdict
  validate_apply_restock_command t command db = elim (required_apply_fields t command) [
    | none ↦ rejected malformed
    | some r ↦ reject_unless (is_some (quantity_of r.sku db)) (unresolved r.sku 0)
  ]

  -- The answer is the command, as it was applied.
  unfoldable pub apply_restock_command : Texts → Json F → Session Restock
  apply_restock_command t command = elim (required_apply_fields t command) [
    | none ↦ raise malformed_command
    | some r ↦
        increment_inventory r.sku r.quantity (some restock_agent) (some "agent") none >> pure r
  ]
