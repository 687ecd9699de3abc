-- ===== src/Trigger/Policy.antt =====
-- The decision table of the triggers (shouldReconcile, parseInterval).
use multinic.Base.{
  ◌≤◌, ◌≡◌, String, Bool, not, ◌||◌, ◌&&◌, Option, arith, ◌==◌, eq_iff, Option-cases, inl, inr,
  if◌then◌else◌, ◌*◌,
}
use multinic.Base.Int.{ℤ}
use multinic.Api.{ReconcileTriggerConfig}
use multinic.Trigger.{
  minute, hour, at_least_minute, parse_interval, interval_or_default, should_reconcile,
}

minute-le-at_least_minute : (d : ℤ) → minute ≤ at_least_minute d
unfolding at_least_minute
minute-le-at_least_minute d = ground arith

module _ (parse_duration : String → Option ℤ) where
  minute-le-interval_or_default :
      (c : ReconcileTriggerConfig) → minute ≤ interval_or_default parse_duration c
  unfolding interval_or_default parse_interval
  minute-le-interval_or_default c = elim (Option-cases (parse_duration c.interval)) [
    | inl unread ↦ ground (arith, unread)
    | inr (d, read) ↦ ground (arith, read, minute-le-at_least_minute d)
  ]

  -- The table of shouldReconcile, with the time until the next look. In scheduled mode every periodic
  -- pass goes on, and a changed CR only with ImmediateOnCRChange; the next look is after the interval,
  -- at least a minute, or at once for a changed CR that goes on. In any other mode, whatever
  -- ImmediateOnCRChange says, exactly a changed CR goes on, and else the next look is after 24 hours.
  pub should_reconcile_table :
      (c : ReconcileTriggerConfig) (has_changed : Bool)
      → (should_reconcile parse_duration c has_changed ≡ (
          if c.mode == "scheduled"
          then (
            not has_changed || c.immediate_on_cr_change,
            if has_changed && c.immediate_on_cr_change
                then 0
                else interval_or_default parse_duration c,
          )
          else (has_changed, if has_changed then 0 else 24 * hour)))
        × (minute ≤ interval_or_default parse_duration c)
  unfolding should_reconcile
  should_reconcile_table c has_changed = (
    ground (arith, eq_iff c.mode "scheduled", eq_iff c.mode "manual", eq_iff "manual" "scheduled"),
    minute-le-interval_or_default c,
  )
