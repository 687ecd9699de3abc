-- ===== src/Trigger.antt =====
-- When a reconcile may go on: getReconcileTriggerConfig, shouldReconcile,
-- getNextReconcileInterval and parseInterval of
-- MultiNic/internal/controller/openstackconfig_controller.go.
-- `time.ParseDuration` rounds fractions in floating point, so it is a parameter: the signed
-- nanoseconds of the text, or `none` where it returns an error.
pub mod Policy
use multinic.Base.{
  ℕ, String, ◌*◌, Bool, true, false, ◌&&◌, List, [], ◌∷◌, Option, none, some, Result, ok, err, ltb,
  ◌==◌, if◌then◌else◌,
}
use multinic.Base.Int.{ℤ, pos, negsuc}
use multinic.Api.{ReconcileTriggerConfig}

-- time.Second, time.Minute and time.Hour, in nanoseconds.
abbrev pub second : ℕ
second = 1000000000

abbrev pub minute : ℕ
minute = 60 * second

abbrev pub hour : ℕ
hour = 60 * minute

abbrev pub reconcile_interval : ℕ
reconcile_interval = 5 * minute

-- What the listing of MultiNicOperator objects gives: the trigger of each, in order.
abbrev pub OperatorList : Type 0
OperatorList = Result String (List ReconcileTriggerConfig)

abbrev pub immediate_trigger : ReconcileTriggerConfig
immediate_trigger = record {
  mode = "immediate";
  schedule = "";
  interval = "";
  immediate_on_cr_change = true;
  timezone = "";
}

abbrev pub manual_trigger : ReconcileTriggerConfig
manual_trigger = record immediate_trigger { mode = "manual" }

-- The two assignments below the listing.
unfoldable pub set_defaults : ReconcileTriggerConfig → ReconcileTriggerConfig
set_defaults c =
    let named = if c.mode == "" then record c { mode = "immediate" } else c in
    if named.mode == "immediate" then record named { immediate_on_cr_change = true } else named

unfoldable pub first_or_default : List ReconcileTriggerConfig → ReconcileTriggerConfig
unfolding set_defaults
first_or_default [] = immediate_trigger
first_or_default (c ∷ _) = set_defaults c

unfoldable pub get_reconcile_trigger_config : OperatorList → Result String ReconcileTriggerConfig
unfolding first_or_default
get_reconcile_trigger_config (err e) = err e
get_reconcile_trigger_config (ok items) = ok (first_or_default items)

-- reconcileNormal falls back to manual where the listing failed.
unfoldable pub trigger_or_manual : OperatorList → ReconcileTriggerConfig
unfolding get_reconcile_trigger_config
trigger_or_manual l = elim (get_reconcile_trigger_config l) [ ok c ↦ c | err _ ↦ manual_trigger ]

-- At least a minute; a negative duration is below it too.
unfoldable pub at_least_minute : ℤ → ℕ
at_least_minute (pos n) = if ltb n minute then minute else n
at_least_minute (negsuc n) = minute

module _ (parse_duration : String → Option ℤ) where
  -- Both parseInterval methods.
  unfoldable pub parse_interval : String → ℕ
  unfolding at_least_minute
  parse_interval s =
      if s == "" then 0 else elim (parse_duration s) [ none ↦ 0 | some d ↦ at_least_minute d ]

  unfoldable pub interval_or_default : ReconcileTriggerConfig → ℕ
  unfolding parse_interval
  interval_or_default c =
      let interval = parse_interval c.interval in
      if ltb 0 interval then interval else reconcile_interval

  -- Whether to go on, and when to look again.
  unfoldable pub should_reconcile : ReconcileTriggerConfig → Bool → Bool × ℕ
  unfolding interval_or_default
  should_reconcile c has_changed =
      if has_changed && c.immediate_on_cr_change
      then (true, 0)
      else if c.mode == "manual"
      then (if has_changed then (true, 0) else (false, 24 * hour))
      else if c.mode == "scheduled"
      then (if has_changed
          then (if c.immediate_on_cr_change then (true, 0) else (false, interval_or_default c))
          else (true, interval_or_default c))
      else if has_changed
      then (true, 0)
      else (false, 24 * hour)

  unfoldable pub get_next_reconcile_interval : ReconcileTriggerConfig → ℕ
  unfolding interval_or_default
  get_next_reconcile_interval c =
      if c.mode == "scheduled"
      then interval_or_default c
      else if c.mode == "manual"
      then 24 * hour
      else reconcile_interval
