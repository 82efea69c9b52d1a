-- ===== src/Agents/Hours/Slots.antt =====
-- What app/services/schedule_service.py reads after a command of app/tools/schedule_agent_tools.py.
use sieshka.Prelude.{
  ℕ, ◌≡◌, refl, Bool, true, false, Option, none, some, List, [], ◌∷◌, ◌++◌, any, arith, nat_eq,
  nat_beq_iff, Bool-cases, inl, inr, if◌then◌else◌,
}
use sieshka.Prelude.Table.{select, update, delete}
use sieshka.Schedule.{
  SchedulePeriod, morning, evening, ScheduleWindow, overrides, permanents, is_period, is_on,
  is_permanent, first_of, load_windows,
}
use sieshka.Agents.Hours.{in_slot, window, with_hours, upsert}

same_period : (p : SchedulePeriod) → is_period p p ≡ true
same_period morning = refl
same_period evening = refl

pub no_both :
    (p q : SchedulePeriod) (w : ScheduleWindow)
    → is_period p q ≡ false
    → is_period p w.period ≡ true
    → is_period q w.period ≡ false
no_both p q w h k = ground arith

pub no_permanent : (today : ℕ) (d : Option ℕ) → is_on today d ≡ true → is_permanent d ≡ false
no_permanent today none h = absurd (ground arith)
no_permanent today (some d) h = refl

-- The row of a slot that is read first.
abbrev pub first_in : (ScheduleWindow → Bool) → List ScheduleWindow → Option ScheduleWindow
first_in p [] = none
first_in p (w ∷ rows) = if p w then some w else first_in p rows

pub first_of-overrides :
    (p : SchedulePeriod) (today : ℕ) (rows : List ScheduleWindow)
    → first_of p (overrides today rows) ≡ first_in (in_slot p (some today)) rows
unfolding first_of overrides
first_of-overrides p today [] = refl
first_of-overrides p today (w ∷ rows) = ground (arith, first_of-overrides p today rows)

pub first_of-permanents :
    (p : SchedulePeriod) (rows : List ScheduleWindow)
    → first_of p (permanents rows) ≡ first_in (in_slot p none) rows
unfolding first_of permanents
first_of-permanents p [] = refl
first_of-permanents p (w ∷ rows) = ground (arith, first_of-permanents p rows)

abbrev pub or_else : Option ScheduleWindow → Option ScheduleWindow → Option ScheduleWindow
or_else none b = b
or_else (some w) b = some w

first_of-append :
    (p : SchedulePeriod) (xs ys : List ScheduleWindow)
    → first_of p (xs ++ ys) ≡ or_else (first_of p xs) (first_of p ys)
unfolding first_of
first_of-append p [] ys = refl
first_of-append p (x ∷ xs) ys = ground (arith, first_of-append p xs ys)

-- The window in effect is the first of today's slot, and otherwise that of the permanent one.
pub load_windows_slots :
    (today : ℕ) (rows : List ScheduleWindow) (p : SchedulePeriod)
    → load_windows today rows p
      ≡ or_else (first_in (in_slot p (some today)) rows) (first_in (in_slot p none) rows)
unfolding load_windows
load_windows_slots today rows p =
    rw
      (
        load_windows,
        first_of-append p (overrides today rows) (permanents rows),
        first_of-overrides p today rows,
        first_of-permanents p rows,
      )
      refl

in_slot-with_hours :
    (p : SchedulePeriod) (d : Option ℕ) (start finish : ℕ) (w : ScheduleWindow)
    → in_slot p d (with_hours start finish w) ≡ in_slot p d w
in_slot-with_hours p none start finish w = refl
in_slot-with_hours p (some date) start finish w = refl

in_slot-window :
    (p : SchedulePeriod) (d : Option ℕ) (start finish : ℕ)
    → in_slot p d (window p d start finish) ≡ true
in_slot-window p none start finish = ground (arith, same_period p)
in_slot-window p (some date) start finish = ground (arith, same_period p, nat_beq_iff date date)

-- A window with given hours that is in effect.
abbrev pub HasHours : ℕ → ℕ → Option ScheduleWindow → Type 0
HasHours start finish o =
    (w : ScheduleWindow) × (o ≡ some w)
    × (w.start_time ≡ start)
    × (w.end_time ≡ finish)
    × (w.is_active ≡ true)

updated_first :
    (p : SchedulePeriod) (d : Option ℕ) (start finish : ℕ) (rows : List ScheduleWindow)
    → any (in_slot p d) rows ≡ true
    → HasHours start finish
        (first_in (in_slot p d) (update (in_slot p d) (with_hours start finish) rows))
unfolding update
updated_first p d start finish [] h = absurd (ground arith)
updated_first p d start finish (w ∷ rows) h = elim (Bool-cases (in_slot p d w)) [
  | inl here ↦
      rw (here, in_slot-with_hours p d start finish w, here)
        (with_hours start finish w, refl, refl, refl, refl)
  | inr there ↦ rw (there, there) (updated_first p d start finish rows ground (arith, there, h))
]

appended_first :
    (p : SchedulePeriod) (d : Option ℕ) (start finish : ℕ) (rows : List ScheduleWindow)
    → any (in_slot p d) rows ≡ false
    → first_in (in_slot p d) (rows ++ window p d start finish ∷ []) ≡ some (window p d start finish)
appended_first p d start finish [] h = ground (arith, in_slot-window p d start finish)
appended_first p d start finish (w ∷ rows) h = ground (arith, appended_first p d start finish rows)

pub upsert_first :
    (p : SchedulePeriod) (d : Option ℕ) (start finish : ℕ) (rows : List ScheduleWindow)
    → HasHours start finish (first_in (in_slot p d) (upsert p d start finish rows))
unfolding upsert
upsert_first p d start finish rows = elim (Bool-cases (any (in_slot p d) rows)) [
  | inl present ↦ rw present (updated_first p d start finish rows present)
  | inr absent ↦
      rw (absent, appended_first p d start finish rows absent)
        (window p d start finish, refl, refl, refl, refl)
]

-- A slot that shares no row with the one that is written.
module _ (p : SchedulePeriod) (d : Option ℕ) (other : ScheduleWindow → Bool)
    (apart : (w : ScheduleWindow) → in_slot p d w ≡ true → other w ≡ false) where
  update_apart :
      (f : ScheduleWindow → ScheduleWindow)
      (keeps : (w : ScheduleWindow) → in_slot p d (f w) ≡ in_slot p d w)
      (rows : List ScheduleWindow)
      → first_in other (update (in_slot p d) f rows) ≡ first_in other rows
  unfolding update
  update_apart f keeps [] = refl
  update_apart f keeps (w ∷ rows) =
      ground (arith, apart w, apart (f w), keeps w, update_apart f keeps rows)

  append_apart :
      (w : ScheduleWindow) (rows : List ScheduleWindow)
      → in_slot p d w ≡ true
      → first_in other (rows ++ w ∷ []) ≡ first_in other rows
  append_apart w [] h = ground (arith, apart w)
  append_apart w (r ∷ rows) h = ground (arith, append_apart w rows h)

  pub delete_apart :
      (rows : List ScheduleWindow)
      → first_in other (delete (in_slot p d) rows) ≡ first_in other rows
  unfolding select
  delete_apart [] = refl
  delete_apart (w ∷ rows) = ground (arith, apart w, delete_apart rows)

  pub upsert_apart :
      (start finish : ℕ) (rows : List ScheduleWindow)
      → first_in other (upsert p d start finish rows) ≡ first_in other rows
  unfolding upsert
  upsert_apart start finish rows = elim (Bool-cases (any (in_slot p d) rows)) [
    | inl present ↦
        rw present
          (update_apart (with_hours start finish) (in_slot-with_hours p d start finish) rows)
    | inr absent ↦
        rw absent (append_apart (window p d start finish) rows (in_slot-window p d start finish))
  ]

pub deleted_first :
    (p : SchedulePeriod) (d : Option ℕ) (rows : List ScheduleWindow)
    → first_in (in_slot p d) (delete (in_slot p d) rows) ≡ none
unfolding select
deleted_first p d [] = refl
deleted_first p d (w ∷ rows) = ground (arith, deleted_first p d rows)
