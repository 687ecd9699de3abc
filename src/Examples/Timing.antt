-- ===== src/Examples/Timing.antt =====
-- Triggers and ticks of the timer.
use multinic.Base.{◌≤◌, ◌*◌, ◌≡◌, refl, String, true, List, [], ◌∷◌, Option, none, some, ok}
use multinic.Base.Int.{ℤ, pos}
use multinic.Base.Dict.{load}
use multinic.Api.{ReconcileTriggerConfig}
use multinic.Trigger.{
  immediate_trigger, second, minute, should_reconcile, interval_or_default,
  get_reconcile_trigger_config,
}
use multinic.Trigger.Policy.{should_reconcile_table}
use multinic.Predicate.{Object, TimerBasedPredicate, timer_interval}
use multinic.Predicate.Spacing.{Tick, Spaced, admitted, admitted-Spaced}

abbrev thirty_seconds : String → Option ℤ
thirty_seconds s = some (pos (30 * second))

abbrev half_minute : String
half_minute = "30s"

abbrev every_thirty : ReconcileTriggerConfig
every_thirty = record immediate_trigger { mode = "scheduled"; interval = half_minute }

should_reconcile_table_example :
    (should_reconcile thirty_seconds every_thirty true ≡ (true, 0))
    × (minute ≤ interval_or_default thirty_seconds every_thirty)
should_reconcile_table_example = should_reconcile_table thirty_seconds every_thirty true

abbrev one : Object
one = record { namespace = "team"; name = "alpha"; generation = 1 }

abbrev fresh : TimerBasedPredicate
fresh = record { last_reconcile_time = [] }

abbrev ticks : List Tick
ticks =
    record { object = one; since = 5; now = 6 }
    ∷ record { object = one; since = 7; now = 8 }
    ∷ record { object = one; since = 2 * minute; now = 2 * minute }
    ∷ []

scheduled_listing : get_reconcile_trigger_config (ok (every_thirty ∷ [])) ≡ ok every_thirty
unfolding get_reconcile_trigger_config
scheduled_listing = refl

admitted-Spaced_example :
    Spaced
      (timer_interval thirty_seconds every_thirty)
      none
      (admitted thirty_seconds (ok (every_thirty ∷ [])) "team/alpha" fresh ticks)
unfolding load
admitted-Spaced_example =
    admitted-Spaced thirty_seconds (ok (every_thirty ∷ [])) every_thirty "team/alpha" fresh ticks
      scheduled_listing refl
