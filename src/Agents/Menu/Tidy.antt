-- ===== src/Agents/Menu/Tidy.antt =====
-- What no command of the menu breaks.
use mathlib.Core.List.{append-nil}
use mathlib.Core.Path.{subst}
use sieshka.Prelude.{
  ℕ, ◌≡◌, refl, sym, ap, ◌∙◌, Bool, true, false, String, Option, none, some, List, [], ◌∷◌, ◌++◌,
  any, arith, eq_iff, nat_beq_iff, nat_eq, string_eq, Option-cases, Bool-cases, inl, inr,
}
use sieshka.Prelude.Table.{
  select, update, only, has_id, distinct, differ, any-middle, distinct-middle, differ-middle,
  update-middle, any-Found, only-Splits,
}
use sieshka.Agents.{Texts, coalesce}
use sieshka.Agents.Menu.{Category, CategoryChange, Menu}
use sieshka.Agents.Menu.Products.{category_named, resolve_category}
use sieshka.Agents.Menu.Categories.{
  category_change_fits, category_id, is_self, renamed_like, name_taken, changed_category,
  change_category, under_parent, reparented,
}

abbrev pub same_name : Texts → Category → Category → Bool
same_name t a b = category_named t a.name b

abbrev pub own_parent : Category → Bool
own_parent c = is_self c.id c.parent_category_id

-- The keys and the names of the categories differ, and no category is its own parent.
pub record TidyCategories (t : Texts) (categories : List Category) : Type 0 where
  pub keys : distinct category_id categories ≡ true
  pub names : differ (same_name t) categories ≡ true
  pub parents : any own_parent categories ≡ false

module _ (t : Texts) where
  name_swaps : (a b : Category) → same_name t a b ≡ same_name t b a
  name_swaps a b =
      ground
        (arith, eq_iff (t.lower a.name) (t.lower b.name), eq_iff (t.lower b.name) (t.lower a.name))

  single_there :
      (name : String) (categories : List Category) (c : Category)
      → only (select (category_named t name) categories) ≡ some c
      → any (has_id category_id c.id) categories ≡ true
  single_there name categories c found =
      let (before, after, split, _, _, _) =
        only-Splits (category_named t name) categories c found in
      ap (any (has_id category_id c.id)) split
      ∙ any-middle (has_id category_id c.id) before after c
      ∙ ground (arith, nat_beq_iff c.id c.id)

  pub resolved_there :
      (name : Option String) (categories : List Category) (k : ℕ)
      → resolve_category t name categories ≡ some (some k)
      → any (has_id category_id k) categories ≡ true
  unfolding resolve_category
  resolved_there none categories k h = absurd (ground arith)
  resolved_there (some name) categories k h =
      elim (Option-cases (only (select (category_named t name) categories))) [
        | inl nothing ↦ absurd (ground (arith, nothing, h))
        | inr (c, found) ↦ ground (arith, single_there name categories c found, found, h)
      ]

  pub append-TidyCategories :
      (rows : List Category) (c : Category)
      → any (has_id category_id c.id) rows ≡ false
      → any (category_named t c.name) rows ≡ false
      → own_parent c ≡ false
      → TidyCategories t rows
      → TidyCategories t (rows ++ c ∷ [])
  unfolding distinct differ
  append-TidyCategories rows c fresh free orphan h = record {
    keys = distinct-middle category_id rows [] c ∙ rw (append-nil rows, fresh, h.keys) refl;
    names =
        differ-middle (same_name t) name_swaps rows [] c ∙ rw (append-nil rows, free, h.names) refl;
    parents = any-middle own_parent rows [] c ∙ rw (append-nil rows, orphan, h.parents) refl;
  }

  -- One row is replaced by another of the same key.
  replace-TidyCategories :
      (before after : List Category) (a b : Category)
      → b.id ≡ a.id
      → any (category_named t b.name) (before ++ after) ≡ false
      → own_parent b ≡ false
      → TidyCategories t (before ++ a ∷ after)
      → TidyCategories t (before ++ b ∷ after)
  unfolding distinct differ
  replace-TidyCategories before after a b same free orphan h = record {
    keys = ground (
      arith,
      distinct-middle category_id before after a,
      distinct-middle category_id before after b,
      h.keys,
      same,
    );
    names = ground (
      arith,
      differ-middle (same_name t) name_swaps before after a,
      differ-middle (same_name t) name_swaps before after b,
      h.names,
    );
    parents = ground (
      arith,
      any-middle own_parent before after a,
      any-middle own_parent before after b,
      h.parents,
    );
  }

  others_lem :
      (i : ℕ) (name : String) (rows : List Category)
      → any (has_id category_id i) rows ≡ false
      → any (renamed_like t i name) rows ≡ any (category_named t name) rows
  others_lem i name [] h = refl
  others_lem i name (z ∷ rows) h = ground (arith, others_lem i name rows)

  -- The name that a change leaves on a row is that of no other row.
  name_free :
      (new : Option String) (before after : List Category) (a : Category)
      → TidyCategories t (before ++ a ∷ after)
      → name_taken t new a.id (before ++ a ∷ after) ≡ false
      → any (category_named t (coalesce new a.name)) (before ++ after) ≡ false
  unfolding distinct differ
  name_free none before after a h free =
      ground (arith, differ-middle (same_name t) name_swaps before after a, h.names)
  name_free (some name) before after a h free = ground (
    arith,
    any-middle (renamed_like t a.id name) before after a,
    others_lem a.id name (before ++ after),
    distinct-middle category_id before after a,
    h.keys,
    free,
  )

  parent_ok :
      (before after : List Category) (a : Category) (parent : Option ℕ)
      → TidyCategories t (before ++ a ∷ after)
      → is_self a.id parent ≡ false
      → is_self a.id (reparented t parent a.parent_category_id) ≡ false
  parent_ok before after a none h other =
      ground (arith, any-middle own_parent before after a, h.parents)
  parent_ok before after a (some p) h other = other

  -- What the checks of a change establish, for the row of a key.
  abbrev KeepsTidy : CategoryChange → Option ℕ → ℕ → List Category → Type 0
  KeepsTidy c parent i rows =
      name_taken t c.name i rows ≡ false
      → is_self i parent ≡ false
      → TidyCategories t rows
      → TidyCategories t (update (has_id category_id i) (changed_category t c parent) rows)

  written_at :
      (c : CategoryChange) (parent : Option ℕ) (before after : List Category) (a : Category)
      → KeepsTidy c parent a.id (before ++ a ∷ after)
  written_at c parent before after a free other h =
      rw (update-middle category_id (changed_category t c parent) before after a h.keys) (
        replace-TidyCategories before after a (changed_category t c parent a) refl
          (name_free c.name before after a h free) (parent_ok before after a parent h other) h)

  write-TidyCategories :
      (c : CategoryChange) (parent : Option ℕ) (rows : List Category)
      → any (has_id category_id c.category_id) rows ≡ true
      → KeepsTidy c parent c.category_id rows
  write-TidyCategories c parent rows present =
      let (before, after, a, split, named) =
        any-Found (has_id category_id c.category_id) rows present in
      subst (λ r. KeepsTidy c parent c.category_id r) (sym split)
        (subst (λ i. KeepsTidy c parent i (before ++ a ∷ after))
          ((nat_beq_iff a.id c.category_id).0 named) (written_at c parent before after a))

  under_parent-TidyCategories :
      (c : CategoryChange) (found : Option (Option ℕ)) (menu : Menu)
      → any (has_id category_id c.category_id) menu.categories ≡ true
      → name_taken t c.name c.category_id menu.categories ≡ false
      → TidyCategories t menu.categories
      → TidyCategories t (under_parent t c found menu).1.categories
  unfolding under_parent
  under_parent-TidyCategories c none menu present free tidy = tidy
  under_parent-TidyCategories c (some parent) menu present free tidy =
      elim (Bool-cases (is_self c.category_id parent)) [
        | inl own ↦ rw own tidy
        | inr other ↦ elim (Bool-cases (category_change_fits t c)) [
          | inl fits ↦
              rw (other, fits)
                (write-TidyCategories c parent menu.categories present free other tidy)
          | inr large ↦ rw (other, large) tidy
        ]
      ]

  pub change-TidyCategories :
      (c : CategoryChange) (menu : Menu)
      → TidyCategories t menu.categories
      → TidyCategories t (change_category t c menu).1.categories
  unfolding change_category
  change-TidyCategories c menu tidy =
      elim (Bool-cases (any (has_id category_id c.category_id) menu.categories)) [
        | inr absent ↦ rw (change_category, absent) tidy
        | inl present ↦ elim (Bool-cases (name_taken t c.name c.category_id menu.categories)) [
          | inl taken ↦ rw (change_category, present, taken) tidy
          | inr free ↦
              rw (change_category, present, free)
                (under_parent-TidyCategories c
                  (resolve_category t c.parent_category menu.categories) menu present free tidy)
        ]
      ]
