-- ===== src/Agents/Zones/Unique.antt =====
-- The unique index of the names of active zones, and the key of a zone.
use sieshka.Prelude.{ℕ, ◌≡◌, refl, List, [], ◌∷◌, ◌++◌, arith, eq_iff, nat_eq, string_eq}
use sieshka.Prelude.Table.{any-middle}
use sieshka.Agents.{Texts}
use sieshka.Agents.Zones.{ZoneRow, active_named, index_holds}

abbrev pub zone_id : ZoneRow → ℕ
zone_id z = z.id

module _ (t : Texts) where
  pub index_holds-middle :
      (before after : List ZoneRow) (z : ZoneRow)
      → index_holds t (before ++ z ∷ after) ≡ index_holds t (z ∷ before ++ after)
  unfolding index_holds
  index_holds-middle [] after z = refl
  index_holds-middle (b ∷ before) after z = ground (
    arith,
    index_holds-middle before after z,
    any-middle (active_named t b.name) before after z,
    eq_iff (t.lower z.name) (t.lower b.name),
    eq_iff (t.lower b.name) (t.lower z.name),
  )
