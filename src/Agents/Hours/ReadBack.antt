-- ===== src/Agents/Hours/ReadBack.antt =====
-- What app/services/schedule_service.py reads after a command of app/tools/schedule_agent_tools.py.
use sieshka.Prelude.{
  ℕ, ◌≡◌, ◌≢◌, refl, sym, ◌∙◌, true, false, Option, none, some, List, arith, nat_eq, nat_beq_iff,
}
use sieshka.Schedule.{
  SchedulePeriod, ScheduleWindow, overrides, is_period, is_on, first_of, load_windows,
}
use sieshka.Agents.Hours.{in_slot, upsert}
use sieshka.Agents.Hours.Slots.{
  or_else, first_in, first_of-overrides, load_windows_slots, no_both, no_permanent, HasHours,
  upsert_first, upsert_apart,
}

pub apart_period :
    (p q : SchedulePeriod) (d e : Option ℕ)
    → is_period p q ≡ false
    → (w : ScheduleWindow) → in_slot p d w ≡ true
    → in_slot q e w ≡ false
apart_period p q none none h w k = ground (arith, no_both p q w)
apart_period p q none (some e) h w k = ground (arith, no_both p q w)
apart_period p q (some d) none h w k = ground (arith, no_both p q w)
apart_period p q (some d) (some e) h w k = ground (arith, no_both p q w)

on_other_day :
    (today day : ℕ) (d : Option ℕ) → day ≢ today → is_on today d ≡ true → is_on day d ≡ false
on_other_day today day none h k = refl
on_other_day today day (some d) h k = ground (arith, nat_beq_iff d today, nat_beq_iff d day, h)

pub apart_day :
    (p q : SchedulePeriod) (today day : ℕ)
    → day ≢ today
    → (w : ScheduleWindow) → in_slot p (some today) w ≡ true
    → in_slot q (some day) w ≡ false
apart_day p q today day h w k = ground (arith, on_other_day today day w.effective_date h)

pub apart_permanent :
    (p q : SchedulePeriod) (today : ℕ) (w : ScheduleWindow)
    → in_slot p (some today) w ≡ true
    → in_slot q none w ≡ false
apart_permanent p q today w k = ground (arith, no_permanent today w.effective_date)

apart_override :
    (p q : SchedulePeriod) (today : ℕ) (w : ScheduleWindow)
    → in_slot p none w ≡ true
    → in_slot q (some today) w ≡ false
apart_override p q today w k = ground (arith, no_permanent today w.effective_date)

has_or_else :
    (start finish : ℕ) (a b : Option ScheduleWindow)
    → HasHours start finish a
    → HasHours start finish (or_else a b)
has_or_else start finish a b (w, eq, hours, ends, active) = (w, rw eq refl, hours, ends, active)

-- After hours are set for today, they are in effect for that period today, and every other period and every other day is
-- as it was.
pub record TodaySet (p : SchedulePeriod) (today start finish : ℕ) (rows after : List ScheduleWindow)
    : Type 0 where
  pub in_effect : HasHours start finish (load_windows today after p)
  pub other_periods :
      (day : ℕ) (q : SchedulePeriod)
      → is_period p q ≡ false
      → load_windows day after q ≡ load_windows day rows q
  pub other_days :
      (day : ℕ) (q : SchedulePeriod)
      → day ≢ today
      → load_windows day after q ≡ load_windows day rows q

-- After hours are set for good, they are in effect on each day without an override, and an override
-- stays in effect on its day.
pub record PermanentSet (p : SchedulePeriod) (start finish : ℕ) (rows after : List ScheduleWindow)
    : Type 0 where
  pub in_effect :
      (day : ℕ)
      → first_of p (overrides day rows) ≡ none
      → HasHours start finish (load_windows day after p)
  pub overridden :
      (day : ℕ) (w : ScheduleWindow)
      → first_of p (overrides day rows) ≡ some w
      → load_windows day after p ≡ some w
  pub other_periods :
      (day : ℕ) (q : SchedulePeriod)
      → is_period p q ≡ false
      → load_windows day after q ≡ load_windows day rows q

module _ (p : SchedulePeriod) (start finish : ℕ) (rows : List ScheduleWindow) where
  pub same_slots :
      (after : List ScheduleWindow) (day : ℕ) (q : SchedulePeriod)
      → first_in (in_slot q (some day)) after ≡ first_in (in_slot q (some day)) rows
      → first_in (in_slot q none) after ≡ first_in (in_slot q none) rows
      → load_windows day after q ≡ load_windows day rows q
  same_slots after day q h k =
      rw (load_windows_slots day after q, load_windows_slots day rows q, h, k) refl

  pub upsert-TodaySet :
      (today : ℕ) → TodaySet p today start finish rows (upsert p (some today) start finish rows)
  upsert-TodaySet today = record {
    in_effect =
        rw (load_windows_slots today (upsert p (some today) start finish rows) p)
          (has_or_else start finish _ _ (upsert_first p (some today) start finish rows));
    other_periods = λ day q h.
        same_slots _ day q
          (upsert_apart p (some today) (in_slot q (some day))
            (apart_period p q (some today) (some day) h) start finish rows)
          (upsert_apart p (some today) (in_slot q none) (apart_period p q (some today) none h) start
            finish rows);
    other_days = λ day q h.
        same_slots _ day q
          (upsert_apart p (some today) (in_slot q (some day)) (apart_day p q today day h) start
            finish rows)
          (upsert_apart p (some today) (in_slot q none) (apart_permanent p q today) start finish
            rows);
  }

  override_kept :
      (day : ℕ)
      → first_in (in_slot p (some day)) (upsert p none start finish rows)
        ≡ first_of p (overrides day rows)
  override_kept day =
      upsert_apart p none (in_slot p (some day)) (apart_override p p day) start finish rows
      ∙ sym (first_of-overrides p day rows)

  pub upsert-PermanentSet : PermanentSet p start finish rows (upsert p none start finish rows)
  upsert-PermanentSet = record {
    in_effect = λ day free.
        rw (load_windows_slots day (upsert p none start finish rows) p, override_kept day, free)
          (upsert_first p none start finish rows);
    overridden = λ day w found.
        rw (load_windows_slots day (upsert p none start finish rows) p, override_kept day, found)
          refl;
    other_periods = λ day q h.
        same_slots _ day q
          (upsert_apart p none (in_slot q (some day)) (apart_period p q none (some day) h) start
            finish rows)
          (upsert_apart p none (in_slot q none) (apart_period p q none none h) start finish rows);
  }
