-- ===== src/Agents/Zones/Agreement.antt =====
-- `validate_apply_zone_command` against `apply_zone_command`: the early check and the write step.
use mathlib.Core.List.{append-nil}
use mathlib.Core.Path.{subst}
use sieshka.Prelude.{
  ℕ, ◌≡◌, refl, sym, ap, Bool, true, false, not, ◌&&◌, String, Option, none, some, List, [], ◌∷◌,
  ◌++◌, any, arith, eq_iff, ◌==◌, nat_eq, nat_beq_iff, string_eq, inl, inr, Option-cases,
}
use sieshka.Prelude.Table.{
  select, is_empty, only, has_id, distinct, any-middle, distinct-middle, update-middle, only-Splits,
  select-any,
}
use sieshka.Agents.{Texts, Outcome, text_of, is_valid, is_done}
use sieshka.Agents.Zones.{
  ZoneAction, create, revise, activate, ZoneRow, ZoneCommand, active_named, retired_named,
  other_active_named, index_holds, validate_action,
}
use sieshka.Agents.Zones.Apply.{
  zone_fits, Applied, write, change, with_target, rename_clashes, restored, revised, new_zone,
  apply_create, apply_activate, apply_revise,
}
use sieshka.Agents.Zones.Unique.{zone_id, index_holds-middle}

-- Nothing is committed between the SELECT and the write.
abbrev pub alone : List ZoneRow → List ZoneRow
alone rows = rows

module _ (t : Texts) (new_id : List ZoneRow → ℕ) where
  write_done :
      (name : String) (answer : Applied) (new old : List ZoneRow)
      → is_done (write t alone new_id name answer new old).0 ≡ index_holds t new
  write_done name answer new old = ground arith

  pub create_agrees :
      (c : ZoneCommand) (zones : List ZoneRow)
      → index_holds t zones ≡ true
      → is_done (apply_create t alone new_id c zones).0
        ≡ is_valid (validate_action t create c zones) && zone_fits c
  unfolding apply_create validate_action index_holds
  create_agrees c zones unique = ground (
    arith,
    index_holds-middle t zones [] (new_zone (new_id zones) c),
    append-nil zones,
    select-any (active_named t (text_of c.name)) zones,
  )

  rest_holds :
      (before after : List ZoneRow) (z : ZoneRow)
      → index_holds t (before ++ z ∷ after) ≡ true
      → (index_holds t (before ++ after) ≡ true)
        × (z.is_active && any (active_named t z.name) (before ++ after) ≡ false)
  unfolding index_holds
  rest_holds before after z h = (
    ground (arith, index_holds-middle t before after z),
    ground (arith, index_holds-middle t before after z),
  )

  change_done :
      (action : ZoneAction) (name : String) (f : ZoneRow → ZoneRow) (before after : List ZoneRow)
      (z : ZoneRow)
      → index_holds t (before ++ z ∷ after) ≡ true
      → distinct zone_id (before ++ z ∷ after) ≡ true
      → is_done (change t alone new_id action name z.id f (before ++ z ∷ after)).0
        ≡ not ((f z).is_active && any (active_named t (f z).name) (before ++ after))
  unfolding index_holds
  change_done action name f before after z unique keys = ground (
    arith,
    update-middle zone_id f before after z keys,
    index_holds-middle t before after (f z),
    (rest_holds before after z unique).0,
  )

  others_lem :
      (i : ℕ) (name : String) (rows : List ZoneRow)
      → any (has_id zone_id i) rows ≡ false
      → any (other_active_named t i name) rows ≡ any (active_named t name) rows
  others_lem i name [] h = refl
  others_lem i name (z ∷ rows) h = ground (arith, others_lem i name rows)

  -- Another active row of a name, in a table in which the row `z` stands between the others.
  others_middle :
      (name : String) (before after : List ZoneRow) (z : ZoneRow)
      → distinct zone_id (before ++ z ∷ after) ≡ true
      → any (other_active_named t z.id name) (before ++ z ∷ after)
        ≡ any (active_named t name) (before ++ after)
  unfolding distinct
  others_middle name before after z keys = ground (
    arith,
    any-middle (other_active_named t z.id name) before after z,
    others_lem z.id name (before ++ after),
    distinct-middle zone_id before after z,
    nat_beq_iff z.id z.id,
  )

  same_names :
      (a b : String) (rows : List ZoneRow)
      → t.lower a ≡ t.lower b
      → any (active_named t a) rows ≡ any (active_named t b) rows
  same_names a b rows h =
      ap (λ s. any (λ (z : ZoneRow). z.is_active && (t.lower z.name == s)) rows) h

  activate_done :
      (c : ZoneCommand) (before after : List ZoneRow) (z : ZoneRow)
      → index_holds t (before ++ z ∷ after) ≡ true
      → distinct zone_id (before ++ z ∷ after) ≡ true
      → retired_named t (text_of c.target_zone_name) z ≡ true
      → is_done (apply_activate t alone new_id c z (before ++ z ∷ after)).0
        ≡ is_empty (select (active_named t (text_of c.target_zone_name)) (before ++ z ∷ after))
  unfolding apply_activate
  activate_done c before after z unique keys named =
      let target = text_of c.target_zone_name in
      ground (
        arith,
        change_done activate target restored before after z unique keys,
        others_middle target before after z keys,
        any-middle (active_named t target) before after z,
        select-any (active_named t target) (before ++ z ∷ after),
        select-any (other_active_named t z.id target) (before ++ z ∷ after),
        same_names z.name target (before ++ after),
        eq_iff (t.lower z.name) (t.lower target),
      )

  revise_done :
      (c : ZoneCommand) (before after : List ZoneRow) (z : ZoneRow)
      → index_holds t (before ++ z ∷ after) ≡ true
      → distinct zone_id (before ++ z ∷ after) ≡ true
      → is_done (apply_revise t alone new_id c z (before ++ z ∷ after)).0
        ≡ not (rename_clashes t alone new_id c.name z.id (before ++ z ∷ after)) && zone_fits c
  unfolding apply_revise
  revise_done c before after z unique keys = elim (Option-cases c.name) [
    | inl no_name ↦ rw no_name ground (
      arith,
      change_done revise "" (revised (record c { name = none })) before after z unique keys,
      (rest_holds before after z unique).1,
    )
    | inr (name, renames) ↦ rw renames ground (
      arith,
      change_done revise name (revised (record c { name = some name })) before after z unique keys,
      others_middle name before after z keys,
    )
  ]

  -- Whether the new name of an update is that of another active zone.
  abbrev pub clash_of : ZoneCommand → Option ZoneRow → List ZoneRow → Bool
  clash_of c none zones = false
  clash_of c (some z) zones = rename_clashes t alone new_id c.name z.id zones

  abbrev pub rename_refused : ZoneAction → ZoneCommand → List ZoneRow → Bool
  rename_refused revise c zones =
      clash_of c (only (select (active_named t (text_of c.target_zone_name)) zones)) zones
  rename_refused _ c zones = false

  pub target_agrees :
      (p : ZoneRow → Bool) (target : String) (zones : List ZoneRow)
      (k : ZoneRow → Outcome Applied × List ZoneRow) (expected : Option ZoneRow → Bool)
      → (expected none ≡ false)
      → ((z : ZoneRow) → only (select p zones) ≡ some z → is_done (k z).0 ≡ expected (some z))
      → is_done (with_target t alone new_id target (select p zones) zones k).0
        ≡ expected (only (select p zones))
  target_agrees p target zones k expected absent h = elim (Option-cases (only (select p zones))) [
    | inl nothing ↦ rw (with_target, nothing) (sym absent)
    | inr (z, found) ↦ rw (with_target, found) (h z found)
  ]

  module _ (zones : List ZoneRow) (unique : index_holds t zones ≡ true)
      (keys : distinct zone_id zones ≡ true) where
    pub activate_found :
        (c : ZoneCommand) (z : ZoneRow)
        → only (select (retired_named t (text_of c.target_zone_name)) zones) ≡ some z
        → is_done (apply_activate t alone new_id c z zones).0
          ≡ is_empty (select (active_named t (text_of c.target_zone_name)) zones)
    activate_found c z found =
        let (before, after, split, named, _, _) =
          only-Splits (retired_named t (text_of c.target_zone_name)) zones z found in
        subst
          (λ rows.
            is_done (apply_activate t alone new_id c z rows).0
            ≡ is_empty (select (active_named t (text_of c.target_zone_name)) rows))
          (sym split)
          (activate_done c before after z (subst (λ rows. index_holds t rows ≡ true) split unique)
            (subst (λ rows. distinct zone_id rows ≡ true) split keys) named)

    pub revise_found :
        (c : ZoneCommand) (z : ZoneRow)
        → only (select (active_named t (text_of c.target_zone_name)) zones) ≡ some z
        → is_done (apply_revise t alone new_id c z zones).0
          ≡ not (rename_clashes t alone new_id c.name z.id zones) && zone_fits c
    revise_found c z found =
        let (before, after, split, named, _, _) =
          only-Splits (active_named t (text_of c.target_zone_name)) zones z found in
        subst
          (λ rows.
            is_done (apply_revise t alone new_id c z rows).0
            ≡ not (rename_clashes t alone new_id c.name z.id rows) && zone_fits c)
          (sym split)
          (revise_done c before after z (subst (λ rows. index_holds t rows ≡ true) split unique)
            (subst (λ rows. distinct zone_id rows ≡ true) split keys))
