-- ===== src/Schedule/Windows.antt =====
-- Which window is in effect, and when orders and preorders are taken.
use sieshka.Prelude.{
  ℕ, ◌<◌, ◌≡◌, refl, ap, ◌⊎◌, inl, inr, Bool, true, ◌&&◌, Option, none, some, List, [], ◌∷◌, ◌++◌,
  arith, nat_eq, nat_beq_iff,
}
use sieshka.Fsm.Machines.{BusinessScheduleState, open_state}
use sieshka.Schedule.{
  is_on, is_fsm_open, SchedulePeriod, evening, ScheduleWindow, PreorderInfo, overrides, permanents,
  is_period, first_of, load_windows, preorder_of, MenuWindowContext, get_menu_window_context,
}

first_of-append :
    (p : SchedulePeriod) (xs ys : List ScheduleWindow) (w : ScheduleWindow)
    → first_of p (xs ++ ys) ≡ some w
    → (first_of p xs ≡ some w) ⊎ ((first_of p xs ≡ none) × (first_of p ys ≡ some w))
unfolding first_of
first_of-append p [] ys w h = inr (refl, h)
first_of-append p (x ∷ xs) ys w h = ground (arith, first_of-append p xs ys w)

is_on_lem : (today : ℕ) (d : Option ℕ) → is_on today d ≡ true → d ≡ some today
is_on_lem today none h = ground arith
is_on_lem today (some date) h = ap some ((nat_beq_iff date today).0 h)

override_dated :
    (p : SchedulePeriod) (today : ℕ) (rows : List ScheduleWindow) (w : ScheduleWindow)
    → first_of p (overrides today rows) ≡ some w
    → w.effective_date ≡ some today
unfolding first_of overrides
override_dated p today [] w h = ground arith
override_dated p today (r ∷ rows) w h =
    ground (arith, is_on_lem today r.effective_date, override_dated p today rows w)

permanent_dated :
    (p : SchedulePeriod) (rows : List ScheduleWindow) (w : ScheduleWindow)
    → first_of p (permanents rows) ≡ some w
    → w.effective_date ≡ none
unfolding first_of permanents
permanent_dated p [] w h = ground arith
permanent_dated p (r ∷ rows) w h = ground (arith, permanent_dated p rows w)

period_lem :
    (p : SchedulePeriod) (rows : List ScheduleWindow) (w : ScheduleWindow)
    → first_of p rows ≡ some w
    → is_period p w.period ≡ true
unfolding first_of
period_lem p [] w h = ground arith
period_lem p (r ∷ rows) w h = ground (arith, period_lem p rows w)

-- A window that is in effect: today's override, or the permanent one if there is no override of today
-- for that period.
abbrev pub InEffect : ℕ → List ScheduleWindow → SchedulePeriod → ScheduleWindow → Type 0
InEffect today rows p w =
    (w.effective_date ≡ some today)
    ⊎ ((w.effective_date ≡ none) × (first_of p (overrides today rows) ≡ none))

-- The window that is read for a period is a window of that period, and it is today's override if there
-- is one, and otherwise a permanent window: an override of another day is never in effect.
pub load_windows-InEffect :
    (today : ℕ) (rows : List ScheduleWindow) (p : SchedulePeriod) (w : ScheduleWindow)
    → load_windows today rows p ≡ some w
    → (is_period p w.period ≡ true) × InEffect today rows p w
unfolding load_windows
load_windows-InEffect today rows p w h = (
  period_lem p (overrides today rows ++ permanents rows) w h,
  elim (first_of-append p (overrides today rows) (permanents rows) w h) [
    | inl found ↦ inl (override_dated p today rows w found)
    | inr (none_today, found) ↦ inr (permanent_dated p rows w found, none_today)
  ],
)

open_lem :
    (state : BusinessScheduleState) (b : Bool) → is_fsm_open state && b ≡ true → state ≡ open_state
open_lem state b h = ground arith

preorder_while_open : (now : ℕ) (win : Option ScheduleWindow) → preorder_of true now win ≡ none
unfolding preorder_of
preorder_while_open now none = refl
preorder_while_open now (some w) = refl

preorder_lem :
    (is_open : Bool) (now : ℕ) (win : Option ScheduleWindow) (i : PreorderInfo)
    → preorder_of is_open now win ≡ some i
    → (w : ScheduleWindow) × (win ≡ some w)
      × (w.is_active ≡ true)
      × (now < i.opens_at)
      × (i.opens_at ≡ w.start_time)
unfolding preorder_of
preorder_lem is_open now none i h = absurd (ground arith)
preorder_lem is_open now (some w) i h = (w, refl, ground arith, ground arith, ground arith)

-- What the menu and the checkout can rely on.
pub record Consistent (state : BusinessScheduleState) (now : ℕ)
    (evening_window : Option ScheduleWindow) (c : MenuWindowContext) : Type 0 where
  pub open_needs_state : c.is_open ≡ true → state ≡ open_state
  pub open_excludes_preorder : c.is_open ≡ true → c.preorder_info ≡ none
  pub preorder_is_ahead :
      (i : PreorderInfo)
      → c.preorder_info ≡ some i
      → (w : ScheduleWindow) × (evening_window ≡ some w)
        × (w.is_active ≡ true)
        × (now < i.opens_at)
        × (i.opens_at ≡ w.start_time)

-- For any state, time and rows: orders are taken only in the state OPEN, preorders never while orders
-- are taken, and a preorder is for an active evening window in effect that opens later the same day.
pub get_menu_window_context-Consistent :
    (state : BusinessScheduleState) (today now : ℕ) (rows : List ScheduleWindow)
    → Consistent state now
        (load_windows today rows evening)
        (get_menu_window_context state today now rows)
unfolding get_menu_window_context
get_menu_window_context-Consistent state today now rows = record {
  open_needs_state = λ h. open_lem state _ h;
  open_excludes_preorder = λ h. rw h (preorder_while_open now (load_windows today rows evening));
  preorder_is_ahead = λ i h. preorder_lem _ now (load_windows today rows evening) i h;
}
