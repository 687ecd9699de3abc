-- ===== src/Performance/Batch.antt =====
-- ProcessBatchRequests: one goroutine for each request, which asks the rate limiter, takes one of ten
-- places of the semaphore, calls the request and sends the result; the last closes the channel. A
-- goroutine is in the list of the stage that it has reached. The results are received as they come.
-- The rate limiter is shared, so its other callers, its ticks and its Stop come in between.
pub mod Progress
pub mod Once
use multinic.Base.{
  ◌≡◌, ℕ, zero, suc, ◌+◌, String, Bool, true, false, not, ◌&&◌, List, [], ◌∷◌, ◌++◌, Option, none,
  some, Result, ok, err, length, ltb, eqb, if◌then◌else◌,
}
use multinic.Performance.Limiter.{TokenBucketLimiter, acquire, refill_token, stop}

-- What calling the request returns is a field of it.
pub record RequestItem (V : Type 0) : Type 0 where
  pub id : String
  pub request : Result String V

pub record BatchResult (V : Type 0) : Type 0 where
  pub id : String
  pub outcome : Result String V

pub record Batch (V : Type 0) : Type 0 where
  pub waiting : List (RequestItem V)
  pub admitted : List (RequestItem V)
  pub running : List (RequestItem V)
  pub results : List (BatchResult V)
  pub closed : Bool
  pub limiter : TokenBucketLimiter
  pub context : Option String

-- What the scheduler does next: the i-th that waits finds its context ended, or takes a token of the
-- limiter; the i-th that is admitted takes a place; the i-th that runs sends its result and leaves;
-- the channel is closed.
pub data BatchEvent : Type 0 where
  refuse : ℕ → BatchEvent
  admit : ℕ → BatchEvent
  begin : ℕ → BatchEvent
  finish : ℕ → BatchEvent
  close : BatchEvent

-- What happens around the batch: a tick of the limiter's goroutine, its return, Stop, an Acquire of
-- another caller, and the end of the context with its error.
pub data OutsideEvent : Type 0 where
  tick : OutsideEvent
  leave : OutsideEvent
  halt : OutsideEvent
  taken : OutsideEvent
  end_context : String → OutsideEvent

-- The i-th, and the others.
unfoldable pub take_out : {A : Type 0} → ℕ → List A → Option (A × List A)
take_out i [] = none
take_out zero (x ∷ xs) = some (x, xs)
take_out (suc i) (x ∷ xs) = elim (take_out i xs) [
  | none ↦ none
  | some (y, rest) ↦ some (y, x ∷ rest)
]

module _ {V : Type 0} where
  abbrev pub result_of : RequestItem V → Result String V → BatchResult V
  result_of item outcome = record { id = item.id; outcome = outcome }

  unfoldable pub start_batch : TokenBucketLimiter → List (RequestItem V) → Batch V
  start_batch limiter requests = record {
    waiting = requests;
    admitted = [];
    running = [];
    results = [];
    closed = false;
    limiter = limiter;
    context = none;
  }

  -- Acquire returns the context's error.
  unfoldable pub refuse_item : ℕ → Batch V → Option (Batch V)
  unfolding take_out
  refuse_item i b = elim b.context [
    | none ↦ none
    | some e ↦ elim (take_out i b.waiting) [
      | none ↦ none
      | some (item, rest) ↦
          some (record b { waiting = rest; results = b.results ++ result_of item (err e) ∷ [] })
    ]
  ]

  -- Acquire takes a token, and waits where there is none.
  unfoldable pub admit_item : ℕ → Batch V → Option (Batch V)
  unfolding take_out acquire
  admit_item i b = elim (acquire b.limiter) [
    | none ↦ none
    | some l ↦ elim (take_out i b.waiting) [
      | none ↦ none
      | some (item, rest) ↦
          some (record b { waiting = rest; admitted = item ∷ b.admitted; limiter = l })
    ]
  ]

  -- The semaphore has ten places.
  unfoldable pub begin_item : ℕ → Batch V → Option (Batch V)
  unfolding take_out
  begin_item i b =
      if ltb (length b.running) 10
      then (elim (take_out i b.admitted) [
        | none ↦ none
        | some (item, rest) ↦ some (record b { admitted = rest; running = item ∷ b.running })
      ])
      else none

  unfoldable pub finish_item : ℕ → Batch V → Option (Batch V)
  unfolding take_out
  finish_item i b = elim (take_out i b.running) [
    | none ↦ none
    | some (item, rest) ↦
        some (record b { running = rest; results = b.results ++ result_of item item.request ∷ [] })
  ]

  -- wg.Wait: no goroutine is left.
  unfoldable pub close_results : Batch V → Option (Batch V)
  close_results b =
      if eqb (length b.waiting + length b.admitted + length b.running) 0 && not b.closed
      then some (record b { closed = true })
      else none

  -- Nothing where the event cannot happen.
  unfoldable pub process_event : BatchEvent → Batch V → Option (Batch V)
  unfolding refuse_item admit_item begin_item finish_item close_results
  process_event (refuse i) b = refuse_item i b
  process_event (admit i) b = admit_item i b
  process_event (begin i) b = begin_item i b
  process_event (finish i) b = finish_item i b
  process_event close b = close_results b

  abbrev with_limiter : Batch V → Option TokenBucketLimiter → Option (Batch V)
  with_limiter b none = none
  with_limiter b (some l) = some (record b { limiter = l })

  unfoldable pub outside_event : OutsideEvent → Batch V → Option (Batch V)
  unfolding acquire refill_token stop
  outside_event tick b =
      if b.limiter.refilling then some (record b { limiter = refill_token b.limiter }) else none
  outside_event leave b =
      if b.limiter.stopped
      then some (record b { limiter = record (b.limiter) { refilling = false } })
      else none
  outside_event halt b = with_limiter b (stop b.limiter)
  outside_event taken b = with_limiter b (acquire b.limiter)
  outside_event (end_context e) b = elim b.context [
    | some _ ↦ none
    | none ↦ some (record b { context = some e })
  ]

  -- The runs over some number of events of the batch, with any others in between.
  pub data Runs (limiter : TokenBucketLimiter) (requests : List (RequestItem V))
      : ℕ → Batch V → Type 0 where
    started : Runs limiter requests 0 (start_batch limiter requests)
    next :
        {n : ℕ} {b b' : Batch V} (event : BatchEvent)
        → Runs limiter requests n b
        → process_event event b ≡ some b'
        → Runs limiter requests (n + 1) b'
    outside :
        {n : ℕ} {b b' : Batch V} (event : OutsideEvent)
        → Runs limiter requests n b
        → outside_event event b ≡ some b'
        → Runs limiter requests n b'
