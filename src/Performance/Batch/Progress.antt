-- ===== src/Performance/Batch/Progress.antt =====
-- When a batch can go on.
use multinic.Base.{
  ℕ, zero, suc, ◌≡◌, refl, String, Bool, true, false, List, [], ◌∷◌, Option, none, some, arith, inl,
  inr, ◌⊎◌,
}
use multinic.Performance.Limiter.{TokenBucketLimiter}
use multinic.Performance.Batch.{
  RequestItem, BatchResult, Batch, BatchEvent, refuse, admit, begin, finish, close, tick,
  process_event, outside_event,
}

module _ {V : Type 0} where
  -- All that are left wait for a token, there is none, and the context has not ended. Then a tick
  -- lets one of them go on, unless the goroutine of the ticks has returned.
  abbrev pub Starves : Batch V → Type 0
  Starves b =
      (b.admitted ≡ [])
      × (b.running ≡ [])
      × (b.limiter.tokens ≡ 0)
      × (b.context ≡ none)
      × ((b.limiter.capacity ≡ 0)
          ⊎ (b.limiter.refilling ≡ false)
          ⊎ ((b' : Batch V) × (b'' : Batch V) × (outside_event tick b ≡ some b')
              × (process_event (admit 0) b' ≡ some b'')))

  -- Until the channel is closed, some event of the batch can happen, or it starves.
  abbrev pub CanGo : Batch V → Type 0
  CanGo b =
      (b.closed ≡ true)
      ⊎ ((event : BatchEvent) × (b' : Batch V) × (process_event event b ≡ some b'))
      ⊎ Starves b

  module _ (x : RequestItem V) (w : List (RequestItem V)) (results : List (BatchResult V)) where
    -- Goroutines that all ask the limiter.
    abbrev asking : TokenBucketLimiter → Batch V
    asking l = record {
      waiting = x ∷ w;
      admitted = [];
      running = [];
      results = results;
      closed = false;
      limiter = l;
      context = none;
    }

    ticked :
        (l : TokenBucketLimiter)
        → l.tokens ≡ 0
        → (l.capacity ≡ 0)
          ⊎ (l.refilling ≡ false)
          ⊎ (outside_event tick (asking l) ≡ some (asking (record l { tokens = 1 })))
    unfolding outside_event
    ticked l dry = ground (arith, dry)

    starved : (l : TokenBucketLimiter) → l.tokens ≡ 0 → Starves (asking l)
    unfolding process_event
    starved l dry = elim (ticked l dry) [
      | inl none_fit ↦ (refl, refl, dry, refl, inl none_fit)
      | inr (inl returned) ↦ (refl, refl, dry, refl, inr (inl returned))
      | inr (inr token) ↦
          (refl, refl, dry, refl, inr (inr (asking (record l { tokens = 1 }), _, token, refl)))
    ]

    asking-CanGo : (l : TokenBucketLimiter) (n : ℕ) → l.tokens ≡ n → CanGo (asking l)
    unfolding process_event
    asking-CanGo l zero dry = inr (inr (starved l dry))
    asking-CanGo l (suc n) some_left =
        let rest = record (asking (record l { tokens = n })) { waiting = w; admitted = x ∷ [] } in
        let admitted : process_event (admit 0) (asking l) ≡ some rest = ground (arith, some_left) in
        inr (inl (admit 0, rest, admitted))

  -- In every state some event can happen, the batch starves, or its channel is closed.
  pub lists-CanGo :
      (w a r : List (RequestItem V)) (results : List (BatchResult V)) (closed : Bool)
      (l : TokenBucketLimiter) (context : Option String)
      → CanGo (record {
        waiting = w;
        admitted = a;
        running = r;
        results = results;
        closed = closed;
        limiter = l;
        context = context;
      })
  unfolding process_event
  lists-CanGo w a r results true l context = inl refl
  lists-CanGo w a (x ∷ r) results false l context = inr (inl (finish 0, _, refl))
  lists-CanGo w (x ∷ a) [] results false l context = inr (inl (begin 0, _, refl))
  lists-CanGo (x ∷ w) [] [] results false l (some e) = inr (inl (refuse 0, _, refl))
  lists-CanGo (x ∷ w) [] [] results false l none = asking-CanGo x w results l l.tokens refl
  lists-CanGo [] [] [] results false l context = inr (inl (close, _, refl))
