-- ===== src/Prelude/Table.antt =====
-- An SQL table as the list of its rows: SELECT and UPDATE by a condition, and a row among the others.
use Prim.Native.Nat.{ℕ}
use mathlib.Core.Path.{◌≡◌, refl, ap}
use mathlib.Core.Logic.{inl, inr}
use mathlib.Core.Bool.{Bool, true, false, not, ◌&&◌}
use mathlib.Core.Option.{Option, none, some}
use mathlib.Core.List.{List, [], ◌∷◌, ◌++◌}
use native.Mathlib.Omega.{arith}
use sieshka.Prelude.Tests.{if◌then◌else◌, nat_beq_iff, Bool-cases}
use sieshka.Prelude.Lists.{any}
use sieshka.Prelude.Equality.{◌==◌, nat_eq}

module _ {ℓ} {A : Type ℓ} where
  -- `SELECT … WHERE p`.
  unfoldable pub select : (A → Bool) → List A → List A
  select p [] = []
  select p (a ∷ rows) = let rest = select p rows in if p a then a ∷ rest else rest

  -- `UPDATE … SET f WHERE p`.
  unfoldable pub update : (A → Bool) → (A → A) → List A → List A
  update p f [] = []
  update p f (a ∷ rows) = (if p a then f a else a) ∷ update p f rows

  -- `DELETE … WHERE p`.
  abbrev pub delete : (A → Bool) → List A → List A
  delete p = select (λ a. not (p a))

  abbrev pub is_empty : List A → Bool
  is_empty [] = true
  is_empty (a ∷ rows) = false

  -- The first row that meets a condition, between the others.
  abbrev pub Found : (A → Bool) → List A → Type ℓ
  Found p rows =
      (before : List A) × (after : List A) × (a : A) × (rows ≡ before ++ a ∷ after) × (p a ≡ true)

  Found-cons : (p : A → Bool) (b : A) (rows : List A) → Found p rows → Found p (b ∷ rows)
  Found-cons p b rows (before, after, a, split, holds) =
      (b ∷ before, after, a, ap (λ r. b ∷ r) split, holds)

  pub any-Found : (p : A → Bool) (rows : List A) → any p rows ≡ true → Found p rows
  any-Found p [] h = absurd (ground arith)
  any-Found p (b ∷ rows) h = elim (Bool-cases (p b)) [
    | inl here ↦ ([], rows, b, refl, here)
    | inr there ↦ Found-cons p b rows (any-Found p rows ground (arith, there, h))
  ]

  -- The row of an answer that has one row.
  abbrev pub only : List A → Option A
  only (a ∷ []) = some a
  only _ = none

  pub select-any : (p : A → Bool) (rows : List A) → any p rows ≡ not (is_empty (select p rows))
  unfolding select
  select-any p [] = refl
  select-any p (a ∷ rows) = ground (arith, select-any p rows)

  pub any-middle :
      (p : A → Bool) (before after : List A) (a : A)
      → any p (before ++ a ∷ after) ≡ any p (a ∷ before ++ after)
  any-middle p [] after a = refl
  any-middle p (b ∷ before) after a = ground (arith, any-middle p before after a)

  pub update-none :
      (p : A → Bool) (f : A → A) (rows : List A) → any p rows ≡ false → update p f rows ≡ rows
  unfolding update
  update-none p f [] h = refl
  update-none p f (a ∷ rows) h = ground (arith, update-none p f rows)

  -- A row that alone meets a condition stands between rows that do not meet it.
  abbrev pub Splits : (A → Bool) → List A → A → Type ℓ
  Splits p rows a =
      (before : List A) × (after : List A) × (rows ≡ before ++ a ∷ after)
      × (p a ≡ true)
      × (any p before ≡ false)
      × (any p after ≡ false)

  Splits-cons :
      (p : A → Bool) (a b : A) (rows : List A)
      → p b ≡ false
      → Splits p rows a
      → Splits p (b ∷ rows) a
  Splits-cons p a b rows h (before, after, eq, holds, free, after_free) =
      (b ∷ before, after, ap (λ r. b ∷ r) eq, holds, ground (arith, free), after_free)

  pub select-single :
      (p : A → Bool) (rows : List A) (a : A) → select p rows ≡ a ∷ [] → Splits p rows a
  unfolding select
  select-single p [] a h = absurd (ground arith)
  select-single p (b ∷ rows) a h = elim (Bool-cases (p b)) [
    | inl yes_b ↦ ([], rows, ground arith, ground arith, refl, ground (arith, select-any p rows))
    | inr no_b ↦ Splits-cons p a b rows no_b (select-single p rows a (ground arith))
  ]

  only_lem : (rows : List A) (a : A) → only rows ≡ some a → rows ≡ a ∷ []
  only_lem [] a h = absurd (ground arith)
  only_lem (b ∷ []) a h = ground arith
  only_lem (b ∷ c ∷ rows) a h = absurd (ground arith)

  pub only-Splits :
      (p : A → Bool) (rows : List A) (a : A) → only (select p rows) ≡ some a → Splits p rows a
  only-Splits p rows a h = select-single p rows a (only_lem (select p rows) a h)

-- The primary key.
module _ {ℓ} {A : Type ℓ} (id_of : A → ℕ) where
  abbrev pub has_id : ℕ → A → Bool
  has_id i a = id_of a == i

  unfoldable pub distinct : List A → Bool
  distinct [] = true
  distinct (a ∷ rows) = not (any (has_id (id_of a)) rows) && distinct rows

  pub distinct-middle :
      (before after : List A) (a : A)
      → distinct (before ++ a ∷ after) ≡ distinct (a ∷ before ++ after)
  unfolding distinct
  distinct-middle [] after a = refl
  distinct-middle (b ∷ before) after a = ground (
    arith,
    distinct-middle before after a,
    any-middle (has_id (id_of b)) before after a,
    nat_beq_iff (id_of a) (id_of b),
    nat_beq_iff (id_of b) (id_of a),
  )

  -- An UPDATE by the primary key changes one row.
  pub update-middle :
      (f : A → A) (before after : List A) (a : A)
      → distinct (before ++ a ∷ after) ≡ true
      → update (has_id (id_of a)) f (before ++ a ∷ after) ≡ before ++ f a ∷ after
  unfolding distinct update
  update-middle f [] after a h =
      ground (arith, update-none (has_id (id_of a)) f after, nat_beq_iff (id_of a) (id_of a))
  update-middle f (b ∷ before) after a h = ground (
    arith,
    update-middle f before after a,
    any-middle (has_id (id_of b)) before after a,
    nat_beq_iff (id_of a) (id_of b),
    nat_beq_iff (id_of b) (id_of a),
  )

  module _ (p : A → Bool) (f : A → A) (keeps : (a : A) → id_of (f a) ≡ id_of a) where
    pub any-update_id :
        (i : ℕ) (rows : List A) → any (has_id i) (update p f rows) ≡ any (has_id i) rows
    unfolding update
    any-update_id i [] = refl
    any-update_id i (a ∷ rows) = ground (arith, any-update_id i rows, keeps a)

    pub distinct-update : (rows : List A) → distinct (update p f rows) ≡ distinct rows
    unfolding update distinct
    distinct-update [] = refl
    distinct-update (a ∷ rows) = elim (Bool-cases (p a)) [
      | inl yes_a ↦ rw (yes_a, keeps a, any-update_id (id_of a) rows, distinct-update rows) refl
      | inr no_a ↦ rw (no_a, any-update_id (id_of a) rows, distinct-update rows) refl
    ]

-- No two rows of a table are alike.
module _ {ℓ} {A : Type ℓ} (like : A → A → Bool) where
  unfoldable pub differ : List A → Bool
  differ [] = true
  differ (a ∷ rows) = not (any (like a) rows) && differ rows

  pub differ-middle :
      (swaps : (a b : A) → like a b ≡ like b a) (before after : List A) (a : A)
      → differ (before ++ a ∷ after) ≡ differ (a ∷ before ++ after)
  unfolding differ
  differ-middle swaps [] after a = refl
  differ-middle swaps (b ∷ before) after a =
      ground
        (arith, differ-middle swaps before after a, any-middle (like b) before after a, swaps a b)
