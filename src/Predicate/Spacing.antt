-- ===== src/Predicate/Spacing.antt =====
-- Rate of the events that the timer lets through (shouldReconcileBasedOnTimer).
use multinic.Base.{
  ℕ, ◌+◌, ◌≤◌, ◌≡◌, refl, subst, ◌⊎◌, String, true, false, List, [], ◌∷◌, Option, none, some, ok,
  arith, ◌==◌, eq_iff, Bool-cases, inl, inr, if◌then◌else◌,
}
use multinic.Base.Int.{ℤ}
use multinic.Base.Dict.{load, store, load-store}
use multinic.Api.{Time, ReconcileTriggerConfig}
use multinic.Trigger.{OperatorList, get_reconcile_trigger_config}
use multinic.Predicate.{
  Object, TimerBasedPredicate, key_of, timer_interval, check_timer, decide_by_mode,
  should_reconcile_based_on_timer,
}

-- An event of one object with the two clock readings of its check.
pub record Tick : Type 0 where
  pub object : Object
  pub since : Time
  pub now : Time

-- Every tick comes at least `gap` after the one before it was recorded.
abbrev pub Spaced : ℕ → Option Time → List Tick → Type 0
Spaced gap last [] = Unit {0}
Spaced gap none (t ∷ ts) = Spaced gap (some t.now) ts
Spaced gap (some last) (t ∷ ts) = (last + gap ≤ t.since) × Spaced gap (some t.now) ts

-- The object's last record, if it has one, is at least `gap` before the tick.
abbrev Waited : ℕ → Option Time → Tick → Type 0
Waited gap none t = Unit {0}
Waited gap (some last) t = last + gap ≤ t.since

Spaced-cons :
    (gap : ℕ) (o : Option Time) (t : Tick) (ts : List Tick)
    → Waited gap o t
    → Spaced gap (some t.now) ts
    → Spaced gap o (t ∷ ts)
Spaced-cons gap none t ts w h = h
Spaced-cons gap (some last) t ts w h = (w, h)

-- The filter's state after an admitted tick.
abbrev recorded : Tick → TimerBasedPredicate → TimerBasedPredicate
recorded t p = record { last_reconcile_time = store (key_of t.object) t.now p.last_reconcile_time }

module _ (parse_duration : String → Option ℤ) where
  -- The ticks of one object that the filter admits, in a run over ticks of any objects.
  unfoldable pub admitted : OperatorList → String → TimerBasedPredicate → List Tick → List Tick
  admitted l k p [] = []
  admitted l k p (t ∷ ts) =
      let r = should_reconcile_based_on_timer parse_duration l t.object t.since t.now p in
      let rest = admitted l k r.0 ts in
      if r.1 then (if key_of t.object == k then t ∷ rest else rest) else rest

  in_scheduled_mode :
      (l : OperatorList) (c : ReconcileTriggerConfig) (t : Tick) (p : TimerBasedPredicate)
      → get_reconcile_trigger_config l ≡ ok c
      → c.mode ≡ "scheduled"
      → should_reconcile_based_on_timer parse_duration l t.object t.since t.now p
        ≡ check_timer parse_duration
            (load (key_of t.object) p.last_reconcile_time)
            (key_of t.object)
            (timer_interval parse_duration c)
            t.since
            t.now
            p
  unfolding should_reconcile_based_on_timer
  in_scheduled_mode l c t p e m =
      rw (e, should_reconcile_based_on_timer) (rw (m, decide_by_mode) refl)

  check_timer_cases :
      (o : Option Time) (key : String) (gap : ℕ) (t : Tick) (p : TimerBasedPredicate)
      → (check_timer parse_duration o key gap t.since t.now p
            ≡ (record { last_reconcile_time = store key t.now p.last_reconcile_time }, true))
          × Waited gap o t
        ⊎ (check_timer parse_duration o key gap t.since t.now p ≡ (p, false))
  unfolding check_timer
  check_timer_cases none key gap t p = inl (refl, tt)
  check_timer_cases (some last) key gap t p = ground arith

  after_store :
      (gap : ℕ) (k : String) (t : Tick) (p : TimerBasedPredicate) (ts : List Tick)
      → Waited gap (load (key_of t.object) p.last_reconcile_time) t
      → Spaced gap (load k (store (key_of t.object) t.now p.last_reconcile_time)) ts
      → Spaced gap (load k p.last_reconcile_time) (if key_of t.object == k then t ∷ ts else ts)
  after_store gap k t p ts w h = elim (Bool-cases (key_of t.object == k)) [
    | inl same ↦ rw same (
        Spaced-cons gap _ t ts
          (subst (λ j. Waited gap (load j p.last_reconcile_time) t) ((eq_iff _ k).0 same) w)
          (rw (load-store, same) at h))
    | inr other ↦ rw other (rw (load-store, other) at h)
  ]

  -- With a scheduled trigger, the timer lets events of one object through at least an interval
  -- apart, and the first at least an interval after the last one on record, however the events of
  -- the objects are interleaved.
  pub admitted-Spaced :
      (l : OperatorList) (c : ReconcileTriggerConfig) (k : String) (p : TimerBasedPredicate)
      (ts : List Tick)
      → get_reconcile_trigger_config l ≡ ok c
      → c.mode ≡ "scheduled"
      → Spaced (timer_interval parse_duration c) (load k p.last_reconcile_time) (admitted l k p ts)
  unfolding admitted
  admitted-Spaced l c k p [] e m = tt
  admitted-Spaced l c k p (t ∷ ts) e m =
      elim (check_timer_cases (load (key_of t.object) p.last_reconcile_time) (key_of t.object)
        (timer_interval parse_duration c) t p) [
          | inl (r, w) ↦
              rw (in_scheduled_mode l c t p e m)
                (rw r (after_store _ k t p _ w (admitted-Spaced l c k (recorded t p) ts e m)))
          | inr r ↦ rw (in_scheduled_mode l c t p e m) (rw r (admitted-Spaced l c k p ts e m))
        ]
