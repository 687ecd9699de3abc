-- ===== src/Predicate.antt =====
-- TimerBasedPredicate (MultiNic/internal/controller/openstackconfig_controller.go): the event
-- filter in front of the OpenstackConfig controller. Each call of the clock is an argument: `since`
-- is the reading of time.Since, `now` the one that is stored.
pub mod Spacing
use multinic.Base.{
  ℕ, ◌+◌, String, Bool, true, false, not, ◌||◌, Option, none, some, Result, ok, err, ltb, leb, eqb,
  ◌==◌, if◌then◌else◌,
}
use multinic.Base.Int.{ℤ}
use multinic.Base.Strings.{concat}
use multinic.Base.Dict.{Dict, load, store}
use multinic.Api.{Time, ReconcileTriggerConfig}
use multinic.Trigger.{OperatorList, get_reconcile_trigger_config, parse_interval, minute}

-- What the filter reads of a client.Object.
pub record Object : Type 0 where
  pub namespace : String
  pub name : String
  pub generation : ℕ

pub record TimerBasedPredicate : Type 0 where
  pub last_reconcile_time : Dict Time

pub data Event : Type 0 where
  create : Object → Event
  delete : Object → Event
  update : Object → Object → Event
  generic : Object → Event

abbrev pub key_of : Object → String
key_of o = concat (concat o.namespace "/") o.name

module _ (parse_duration : String → Option ℤ) where
  -- The interval of the scheduled mode, a minute where there is none.
  unfoldable pub timer_interval : ReconcileTriggerConfig → ℕ
  timer_interval c =
      let interval = parse_interval parse_duration c.interval in
      if eqb interval 0 then minute else interval

  unfoldable pub check_timer :
      Option Time → String → ℕ → Time → Time → TimerBasedPredicate → TimerBasedPredicate × Bool
  check_timer none key interval since now p =
      (record { last_reconcile_time = store key now p.last_reconcile_time }, true)
  check_timer (some last) key interval since now p =
      if leb (last + interval) since
      then (record { last_reconcile_time = store key now p.last_reconcile_time }, true)
      else (p, false)

  unfoldable pub decide_by_mode :
      ReconcileTriggerConfig
      → Object
      → Time
      → Time
      → TimerBasedPredicate
      → TimerBasedPredicate × Bool
  unfolding check_timer timer_interval
  decide_by_mode c o since now p =
      if c.mode == "manual"
      then (p, false)
      else if (c.mode == "immediate" || c.mode == "webhook") || c.mode == ""
      then (p, false)
      else if c.mode == "scheduled"
      then check_timer (load (key_of o) p.last_reconcile_time) (key_of o) (timer_interval c) since
          now p
      else (p, true)

  unfoldable pub should_reconcile_based_on_timer :
      OperatorList → Object → Time → Time → TimerBasedPredicate → TimerBasedPredicate × Bool
  unfolding decide_by_mode
  should_reconcile_based_on_timer l o since now p = elim (get_reconcile_trigger_config l) [
    | err _ ↦ (p, true)
    | ok c ↦ decide_by_mode c o since now p
  ]

  -- Create, Delete, Update and Generic.
  unfoldable pub admit :
      OperatorList → Event → Time → Time → TimerBasedPredicate → TimerBasedPredicate × Bool
  unfolding should_reconcile_based_on_timer
  admit l (create o) since now p = (p, true)
  admit l (delete o) since now p = (p, true)
  admit l (update old new) since now p =
      if not (eqb old.generation new.generation)
      then (p, true)
      else should_reconcile_based_on_timer l new since now p
  admit l (generic o) since now p = should_reconcile_based_on_timer l o since now p
