-- ===== src/Agents/Zones/Apply.antt =====
-- `apply_zone_command` of app/tools/zone_agent_tools.py: the one write step.
use sieshka.Database.{text_fits, int_fits}
use sieshka.Prelude.{
  ◌&&◌, ℕ, Bool, true, false, String, Option, none, some, List, [], ◌∷◌, ◌++◌, length, any,
  if◌then◌else◌,
}
use sieshka.Prelude.Int.{pos}
use sieshka.Prelude.Table.{select, update, is_empty, only, has_id}
use sieshka.Agents.{
  Json, Texts, malformed, name_in_use, unresolved, Outcome, done, value_error, database_error,
  coalesce, text_of,
}
use sieshka.Agents.Zones.{
  ZoneAction, create, revise, deactivate, activate, ZoneRow, ZoneCommand, required_command_shape,
  active_named, retired_named, other_active_named, index_holds,
}

-- What the tool returns; the other columns of the row that it wrote are left out.
pub record Applied : Type 0 where
  pub action : ZoneAction
  pub id : ℕ

-- The default of the column `delivery_fee_rub` is 99.
abbrev pub new_zone : ℕ → ZoneCommand → ZoneRow
new_zone id c = record {
  id = id;
  name = text_of c.name;
  delivery_time_minutes = coalesce c.delivery_time_minutes (pos 0);
  is_active = true;
  delivery_fee_rub = coalesce c.delivery_fee_rub (pos 99);
}

abbrev pub revised : ZoneCommand → ZoneRow → ZoneRow
revised c z = record z {
  name = coalesce c.name z.name;
  delivery_time_minutes = coalesce c.delivery_time_minutes z.delivery_time_minutes;
  delivery_fee_rub = coalesce c.delivery_fee_rub z.delivery_fee_rub;
}

abbrev pub restored : ZoneRow → ZoneRow
restored z = record z { is_active = true }

abbrev pub retired : ZoneRow → ZoneRow
retired z = record z { is_active = false }

-- VARCHAR(255) and INTEGER, of the columns that a command gives.
unfoldable pub zone_fits : ZoneCommand → Bool
zone_fits c =
    text_fits 255 c.name && int_fits c.delivery_time_minutes && int_fits c.delivery_fee_rub

-- `meanwhile` is what other sessions commit between a SELECT of the tool and its write, and `new_id`
-- the key that the database chooses.
module _ (t : Texts) (meanwhile : List ZoneRow → List ZoneRow) (new_id : List ZoneRow → ℕ) where
  -- A write that the unique index refuses is raised again as a ValueError, and changes nothing.
  abbrev pub write : String → Applied → List ZoneRow → List ZoneRow → Outcome Applied × List ZoneRow
  write name answer new old =
      if index_holds t new then (done answer, new) else (value_error (name_in_use name), old)

  abbrev pub refuse : String → List ZoneRow → Outcome Applied × List ZoneRow
  refuse name zones = (value_error (name_in_use name), zones)

  abbrev pub change :
      ZoneAction → String → ℕ → (ZoneRow → ZoneRow) → List ZoneRow → Outcome Applied × List ZoneRow
  change action name id f zones =
      write name (record { action = action; id = id })
        (update (has_id (λ (z : ZoneRow). z.id) id) f zones) zones

  insert_zone : ZoneCommand → List ZoneRow → Outcome Applied × List ZoneRow
  insert_zone c zones =
      write (text_of c.name) (record { action = create; id = new_id zones })
        (zones ++ new_zone (new_id zones) c ∷ []) zones

  unfoldable pub apply_create : ZoneCommand → List ZoneRow → Outcome Applied × List ZoneRow
  unfolding insert_zone
  apply_create c zones =
      if is_empty (select (active_named t (text_of c.name)) zones)
      then (if zone_fits c
          then insert_zone c (meanwhile zones)
          else (database_error, meanwhile zones))
      else refuse (text_of c.name) zones

  unfoldable pub apply_activate :
      ZoneCommand → ZoneRow → List ZoneRow → Outcome Applied × List ZoneRow
  apply_activate c z zones =
      let target = text_of c.target_zone_name in
      if is_empty (select (other_active_named t z.id target) zones)
      then change activate target z.id restored (meanwhile zones)
      else refuse target zones

  -- The new name of an update is taken by another active zone.
  abbrev pub rename_clashes : Option String → ℕ → List ZoneRow → Bool
  rename_clashes none id zones = false
  rename_clashes (some name) id zones = any (other_active_named t id name) zones

  unfoldable pub apply_revise :
      ZoneCommand → ZoneRow → List ZoneRow → Outcome Applied × List ZoneRow
  apply_revise c z zones =
      if rename_clashes c.name z.id zones
      then refuse (text_of c.name) zones
      else if zone_fits c
      then change revise (text_of c.name) z.id (revised c) (meanwhile zones)
      else (database_error, meanwhile zones)

  unfoldable pub apply_deactivate : ZoneRow → List ZoneRow → Outcome Applied × List ZoneRow
  apply_deactivate z zones = (
    done (record { action = deactivate; id = z.id }),
    update (has_id (λ (z : ZoneRow). z.id) z.id) retired (meanwhile zones),
  )

  abbrev pub with_target :
      String
      → List ZoneRow
      → List ZoneRow
      → (ZoneRow → Outcome Applied × List ZoneRow)
      → Outcome Applied × List ZoneRow
  with_target target rows zones k = elim (only rows) [
    | none ↦ (value_error (unresolved target (length rows)), zones)
    | some z ↦ k z
  ]

  unfoldable pub apply_action :
      ZoneAction → ZoneCommand → List ZoneRow → Outcome Applied × List ZoneRow
  unfolding apply_create apply_activate apply_revise apply_deactivate
  apply_action create c zones = apply_create c zones
  apply_action activate c zones =
      let target = text_of c.target_zone_name in
      with_target target (select (retired_named t target) zones) zones λ z. apply_activate c z zones
  apply_action revise c zones =
      let target = text_of c.target_zone_name in
      with_target target (select (active_named t target) zones) zones λ z. apply_revise c z zones
  apply_action deactivate c zones =
      let target = text_of c.target_zone_name in
      with_target target (select (active_named t target) zones) zones λ z. apply_deactivate z zones

  unfoldable pub apply_zone_command :
      {F : Type 0} → Json F → List ZoneRow → Outcome Applied × List ZoneRow
  unfolding apply_action
  apply_zone_command command zones = elim (required_command_shape t command) [
    | none ↦ (value_error malformed, zones)
    | some c ↦ apply_action c.action c zones
  ]
