-- ===== src/Agents/Zones/Steps.antt =====
-- What `apply_zone_command` may do to the table of zones.
use sieshka.Prelude.{
  ℕ, ◌≡◌, refl, true, false, String, Option, none, some, List, [], ◌∷◌, ◌++◌, any, arith,
  Bool-cases, Option-cases, inl, inr,
}
use sieshka.Prelude.Table.{select, update, is_empty, only, has_id, select-any}
use sieshka.Agents.{Reason, Json, Texts, Outcome, done, value_error, database_error, text_of}
use sieshka.Agents.Zones.{
  ZoneAction, create, revise, deactivate, activate, ZoneRow, ZoneCommand, required_command_shape,
  active_named, retired_named, other_active_named, index_holds,
}
use sieshka.Agents.Zones.Apply.{
  Applied, write, with_target, rename_clashes, restored, revised, retired, new_zone, zone_fits,
  apply_create, apply_activate, apply_revise, apply_deactivate, apply_action, apply_zone_command,
}
use sieshka.Agents.Zones.Unique.{zone_id}

-- One call that read the table `zones` and wrote when it was `now`. A failure writes nothing. A zone is
-- created, restored or renamed only if no other active zone had the name in `zones`, and the table that
-- is left satisfies the unique index; the zone of a command is the only one of its target's name.
pub data ZoneStep (t : Texts) (zones now : List ZoneRow)
    : Outcome Applied × List ZoneRow → Type 0 where
  refused : (e : Reason) → ZoneStep t zones now (value_error e, zones)
  lost_race : (e : Reason) → ZoneStep t zones now (value_error e, now)
  failed : ZoneStep t zones now (database_error, now)
  added :
      (z : ZoneRow)
      → z.is_active ≡ true
      → any (active_named t z.name) zones ≡ false
      → index_holds t (now ++ z ∷ []) ≡ true
      → ZoneStep t zones now (done (record { action = create; id = z.id }), now ++ z ∷ [])
  brought_back :
      (target : String) (z : ZoneRow)
      → only (select (retired_named t target) zones) ≡ some z
      → any (other_active_named t z.id target) zones ≡ false
      → index_holds t (update (has_id zone_id z.id) restored now) ≡ true
      → ZoneStep t zones now (
        done (record { action = activate; id = z.id }),
        update (has_id zone_id z.id) restored now,
      )
  changed :
      (target : String) (c : ZoneCommand) (z : ZoneRow)
      → only (select (active_named t target) zones) ≡ some z
      → ((name : String) → c.name ≡ some name → any (other_active_named t z.id name) zones ≡ false)
      → index_holds t (update (has_id zone_id z.id) (revised c) now) ≡ true
      → ZoneStep t zones now (
        done (record { action = revise; id = z.id }),
        update (has_id zone_id z.id) (revised c) now,
      )
  closed :
      (target : String) (z : ZoneRow)
      → only (select (active_named t target) zones) ≡ some z
      → ZoneStep t zones now (
        done (record { action = deactivate; id = z.id }),
        update (has_id zone_id z.id) retired now,
      )

module _ (t : Texts) (meanwhile : List ZoneRow → List ZoneRow) (new_id : List ZoneRow → ℕ)
    (zones : List ZoneRow) where
  write-Step :
      (name : String) (answer : Applied) (new : List ZoneRow)
      → (index_holds t new ≡ true → ZoneStep t zones (meanwhile zones) (done answer, new))
      → ZoneStep t zones
          (meanwhile zones)
          (write t meanwhile new_id name answer new (meanwhile zones))
  write-Step name answer new k = elim (Bool-cases (index_holds t new)) [
    | inl holds ↦ rw holds (k holds)
    | inr fails ↦ rw fails (lost_race _)
  ]

  create-Step :
      (c : ZoneCommand)
      → ZoneStep t zones (meanwhile zones) (apply_create t meanwhile new_id c zones)
  unfolding apply_create
  create-Step c = elim (Bool-cases (is_empty (select (active_named t (text_of c.name)) zones))) [
    | inr taken ↦ rw taken (refused _)
    | inl free ↦ elim (Bool-cases (zone_fits c)) [
      | inr large ↦ rw (free, large) failed
      | inl fits ↦
          rw (free, fits)
            (write-Step _ _ _ (
              added (new_zone (new_id (meanwhile zones)) c) refl ground
                (arith, select-any (active_named t (text_of c.name)) zones)))
    ]
  ]

  activate-Step :
      (c : ZoneCommand) (z : ZoneRow)
      → only (select (retired_named t (text_of c.target_zone_name)) zones) ≡ some z
      → ZoneStep t zones (meanwhile zones) (apply_activate t meanwhile new_id c z zones)
  unfolding apply_activate
  activate-Step c z found =
      let other = other_active_named t z.id (text_of c.target_zone_name) in
      elim (Bool-cases (is_empty (select other zones))) [
        | inr taken ↦ rw taken (refused _)
        | inl free ↦ rw free (
            write-Step _ _ _ (
              brought_back (text_of c.target_zone_name) z found ground
                (arith, select-any other zones)))
      ]

  no_clash :
      (given : Option String) (id : ℕ)
      → rename_clashes t meanwhile new_id given id zones ≡ false
      → (name : String) → given ≡ some name
      → any (other_active_named t id name) zones ≡ false
  no_clash none id h name e = ground arith
  no_clash (some new) id h name e = ground arith

  revise-Step :
      (c : ZoneCommand) (z : ZoneRow)
      → only (select (active_named t (text_of c.target_zone_name)) zones) ≡ some z
      → ZoneStep t zones (meanwhile zones) (apply_revise t meanwhile new_id c z zones)
  unfolding apply_revise
  revise-Step c z found = elim (Bool-cases (rename_clashes t meanwhile new_id c.name z.id zones)) [
    | inl taken ↦ rw taken (refused _)
    | inr free ↦ elim (Bool-cases (zone_fits c)) [
      | inr large ↦ rw (free, large) failed
      | inl fits ↦
          rw (free, fits)
            (write-Step _ _ _
              (changed (text_of c.target_zone_name) c z found (no_clash c.name z.id free)))
    ]
  ]

  target-Step :
      (target : String) (rows : List ZoneRow) (k : ZoneRow → Outcome Applied × List ZoneRow)
      → ((z : ZoneRow) → only rows ≡ some z → ZoneStep t zones (meanwhile zones) (k z))
      → ZoneStep t zones (meanwhile zones) (with_target t meanwhile new_id target rows zones k)
  target-Step target rows k h = elim (Option-cases (only rows)) [
    | inl nothing ↦ rw (with_target, nothing) (refused _)
    | inr (z, found) ↦ rw (with_target, found) (h z found)
  ]

  action-Step :
      (a : ZoneAction) (c : ZoneCommand)
      → ZoneStep t zones (meanwhile zones) (apply_action t meanwhile new_id a c zones)
  unfolding apply_action apply_deactivate
  action-Step create c = create-Step c
  action-Step activate c = target-Step _ _ _ (activate-Step c)
  action-Step revise c = target-Step _ _ _ (revise-Step c)
  action-Step deactivate c =
      target-Step _ _ _ λ z found. closed (text_of c.target_zone_name) z found

  -- For every command, whatever other sessions commit between the tool's SELECTs and its write: a
  -- failure writes nothing; a zone is created, restored or renamed only if no other active zone had the
  -- new name when the tool looked; the target of every other action was then the only zone of its name
  -- that is active, or for a restored zone the only one that is not; what is written onto the table of
  -- the moment is the new zone, or the change of the row with the target's key, and but for a zone that
  -- is closed the table that is left satisfies the unique index; the answer names the action and the key.
  pub apply_zone_command-Step :
      {F : Type 0} (command : Json F)
      → ZoneStep t zones (meanwhile zones) (apply_zone_command t meanwhile new_id command zones)
  unfolding apply_zone_command
  apply_zone_command-Step command = elim (Option-cases (required_command_shape t command)) [
    | inl nothing ↦ rw (apply_zone_command, nothing) (refused _)
    | inr (c, found) ↦ rw (apply_zone_command, found) (action-Step c.action c)
  ]
