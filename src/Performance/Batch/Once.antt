-- ===== src/Performance/Batch/Once.antt =====
-- Every request of a batch gets one result.
use multinic.Base.{
  ℕ, zero, suc, ◌+◌, ◌*◌, ◌≤◌, ◌≡◌, refl, String, Bool, false, List, [], ◌∷◌, ◌++◌, some, err,
  subst, sym, length, arith, inl, inr, Option-cases, ◌⊎◌, ◌==◌, ◌∙◌, if◌then◌else◌, not,
}
use multinic.Performance.Limiter.{TokenBucketLimiter, acquire}
use multinic.Performance.Batch.{
  RequestItem, BatchResult, Batch, BatchEvent, OutsideEvent, tick, leave, halt, taken, end_context,
  outside_event, outside, refuse, admit, begin, finish, close, take_out, result_of, start_batch,
  refuse_item, admit_item, begin_item, finish_item, close_results, process_event, Runs, started,
  next,
}
use multinic.Performance.Batch.Progress.{CanGo, lists-CanGo}

abbrev pub one_if : Bool → ℕ
one_if b = if b then 1 else 0

module _ {V : Type 0} where
  -- How many requests, and how many results, have the identifier.
  unfoldable pub requests_of : String → List (RequestItem V) → ℕ
  requests_of i [] = 0
  requests_of i (x ∷ xs) = one_if (x.id == i) + requests_of i xs

  unfoldable pub results_of : String → List (BatchResult V) → ℕ
  results_of i [] = 0
  results_of i (x ∷ xs) = one_if (x.id == i) + results_of i xs

  results_of-append :
      (i : String) (rs : List (BatchResult V)) (r : BatchResult V)
      → results_of i (rs ++ r ∷ []) ≡ results_of i rs + one_if (r.id == i)
  unfolding results_of
  results_of-append i [] r = omega arith
  results_of-append i (x ∷ xs) r = omega (arith, results_of-append i xs r)

  -- Taking one out takes one from the count of its identifier and from the length.
  take_out-some :
      (i : String) (k : ℕ) (xs rest : List (RequestItem V)) (x : RequestItem V)
      → take_out k xs ≡ some (x, rest)
      → (requests_of i xs ≡ one_if (x.id == i) + requests_of i rest)
        × (length xs ≡ suc (length rest))
  unfolding take_out requests_of
  take_out-some i k [] rest x h = cc
  take_out-some i zero (y ∷ ys) rest x h = (ground (arith, h), ground (arith, h))
  take_out-some i (suc k) (y ∷ ys) rest x h = elim (Option-cases (take_out k ys)) [
    | inl none_left ↦ ground (arith, h, none_left)
    | inr ((z, zs), there) ↦
        let (counted, measured) = take_out-some i k ys zs z there in
        (ground (arith, h, there, counted), ground (arith, h, there, measured))
  ]

  -- The requests and results of the identifier, in any stage.
  abbrev pub total : String → Batch V → ℕ
  total i b =
      requests_of i b.waiting
      + requests_of i b.admitted
      + requests_of i b.running
      + results_of i b.results

  -- The events that are left at most.
  abbrev pub work : Batch V → ℕ
  work b = 3 * length b.waiting + 2 * length b.admitted + length b.running + one_if (not b.closed)

  -- The channel is closed only when no goroutine is left.
  abbrev pub Ended : Batch V → Type 0
  Ended b = (b.closed ≡ false) ⊎ (length b.waiting + length b.admitted + length b.running ≡ 0)

  -- What one event does to the books.
  pub record Booked (b b' : Batch V) : Type 0 where
    pub counted : (i : String) → total i b' ≡ total i b
    pub worked : work b' + 1 ≤ work b
    pub places : length b.running ≤ 10 → length b'.running ≤ 10
    pub ended : Ended b → Ended b'

  refuse-Booked : (k : ℕ) (b b' : Batch V) → refuse_item k b ≡ some b' → Booked b b'
  unfolding refuse_item requests_of
  refuse-Booked k b b' h = elim (Option-cases b.context) [
    | inl alive ↦ absurd (ground (arith, h, alive))
    | inr (e, ended) ↦ (elim (Option-cases (take_out k b.waiting)) [
      | inl no_item ↦ absurd (ground (arith, h, ended, no_item))
      | inr ((x, rest), there) ↦
          let q = take_out-some "" k b.waiting rest x there in
          record {
            counted = λ i. ground (
              arith,
              h,
              ended,
              there,
              take_out-some i k b.waiting rest x there,
              results_of-append i b.results (result_of x (err e)),
            );
            worked = ground (arith, h, ended, there, q);
            places = λ p. ground (arith, h, ended, there, p, q);
            ended = λ p. ground (arith, h, ended, there, p, q);
          }
    ])
  ]

  admit-Booked : (k : ℕ) (b b' : Batch V) → admit_item k b ≡ some b' → Booked b b'
  unfolding admit_item requests_of
  admit-Booked k b b' h = elim (Option-cases (acquire b.limiter)) [
    | inl dry ↦ absurd (ground (arith, h, dry))
    | inr (l, token) ↦ (elim (Option-cases (take_out k b.waiting)) [
      | inl no_item ↦ absurd (ground (arith, h, token, no_item))
      | inr ((x, rest), there) ↦
          let q = take_out-some "" k b.waiting rest x there in
          record {
            counted =
                λ i. ground (arith, h, token, there, take_out-some i k b.waiting rest x there);
            worked = ground (arith, h, token, there, q);
            places = λ p. ground (arith, h, token, there, p, q);
            ended = λ p. ground (arith, h, token, there, p, q);
          }
    ])
  ]

  begin-Booked : (k : ℕ) (b b' : Batch V) → begin_item k b ≡ some b' → Booked b b'
  unfolding begin_item requests_of
  begin-Booked k b b' h = elim (Option-cases (take_out k b.admitted)) [
    | inl no_item ↦ absurd (ground (arith, h, no_item))
    | inr ((x, rest), there) ↦ record {
      counted = λ i. ground (arith, h, there, take_out-some i k b.admitted rest x there);
      worked = ground (arith, h, there, take_out-some "" k b.admitted rest x there);
      places = λ q. ground (arith, h, there, q, take_out-some "" k b.admitted rest x there);
      ended = λ q. ground (arith, h, there, q, take_out-some "" k b.admitted rest x there);
    }
  ]

  finish-Booked : (k : ℕ) (b b' : Batch V) → finish_item k b ≡ some b' → Booked b b'
  unfolding finish_item requests_of
  finish-Booked k b b' h = elim (Option-cases (take_out k b.running)) [
    | inl no_item ↦ absurd (ground (arith, h, no_item))
    | inr ((x, rest), there) ↦ record {
      counted = λ i. ground (
        arith,
        h,
        there,
        take_out-some i k b.running rest x there,
        results_of-append i b.results (result_of x x.request),
      );
      worked = ground (arith, h, there, take_out-some "" k b.running rest x there);
      places = λ q. ground (arith, h, there, q, take_out-some "" k b.running rest x there);
      ended = λ q. ground (arith, h, there, q, take_out-some "" k b.running rest x there);
    }
  ]

  close-Booked : (b b' : Batch V) → close_results b ≡ some b' → Booked b b'
  unfolding close_results
  close-Booked b b' h = record {
    counted = λ i. ground (arith, h);
    worked = ground (arith, h);
    places = λ q. ground (arith, h, q);
    ended = λ q. ground (arith, h, q);
  }

  event-Booked :
      (event : BatchEvent) (b b' : Batch V) → process_event event b ≡ some b' → Booked b b'
  unfolding process_event
  event-Booked (refuse k) b b' h = refuse-Booked k b b' h
  event-Booked (admit k) b b' h = admit-Booked k b b' h
  event-Booked (begin k) b b' h = begin-Booked k b b' h
  event-Booked (finish k) b b' h = finish-Booked k b b' h
  event-Booked close b b' h = close-Booked b b' h

  -- What happens around the batch leaves its goroutines and results alone.
  outside-same :
      (event : OutsideEvent) (b b' : Batch V)
      → outside_event event b ≡ some b'
      → b' ≡ record b { limiter = b'.limiter; context = b'.context }
  unfolding outside_event
  outside-same tick b b' h = ground (arith, h)
  outside-same leave b b' h = ground (arith, h)
  outside-same halt b b' h = ground (arith, h)
  outside-same taken b b' h = ground (arith, h)
  outside-same (end_context e) b b' h = ground (arith, h)

  -- The books after a run.
  pub record Kept (requests : List (RequestItem V)) (n : ℕ) (b : Batch V) : Type 0 where
    pub counted : (i : String) → total i b ≡ requests_of i requests
    pub worked : n + work b ≤ 3 * length requests + 1
    pub places : length b.running ≤ 10
    pub ended : Ended b

  Runs-Kept :
      (limiter : TokenBucketLimiter) (requests : List (RequestItem V)) {n : ℕ} {b : Batch V}
      → Runs limiter requests n b
      → Kept requests n b
  unfolding start_batch requests_of results_of
  Runs-Kept limiter requests started = record {
    counted = λ i. omega arith;
    worked = ground arith;
    places = ground arith;
    ended = inl refl;
  }
  Runs-Kept limiter requests (next {b = b} {b' = b'} event run h) =
      let kept = Runs-Kept limiter requests run in
      let step = event-Booked event b b' h in
      record {
        counted = λ i. step.counted i ∙ kept.counted i;
        worked = omega (arith, kept.worked, step.worked);
        places = step.places kept.places;
        ended = step.ended kept.ended;
      }
  Runs-Kept limiter requests (outside {n = n} {b = b} {b' = b'} event run h) =
      let kept = Runs-Kept limiter requests run in
      subst (Kept requests n) (sym (outside-same event b b' h)) (record {
        counted = kept.counted;
        worked = kept.worked;
        places = kept.places;
        ended = kept.ended;
      })

  empty_requests : (i : String) (xs : List (RequestItem V)) → length xs ≡ 0 → requests_of i xs ≡ 0
  unfolding requests_of
  empty_requests i [] h = refl
  empty_requests i (x ∷ xs) h = absurd (omega (arith, h))

  -- In every order of events, with ticks of the rate limiter, its Stop, its other callers and the end
  -- of the context at any time, a batch ends after at most three of its own events for each request
  -- and one more, and never calls more than ten requests at a time. Until its channel of results is
  -- closed, some event of it can happen, or all that are left wait for a token of an empty limiter
  -- under a live context; then a tick lets one go on, unless the limiter's goroutine has returned.
  -- Once the channel is closed, every identifier has as many results as requests.
  pub Runs-once :
      (limiter : TokenBucketLimiter) (requests : List (RequestItem V)) (n : ℕ) (b : Batch V)
      (i : String)
      → Runs limiter requests n b
      → (n ≤ 3 * length requests + 1)
        × (length b.running ≤ 10)
        × CanGo b
        × ((b.closed ≡ false) ⊎ (results_of i b.results ≡ requests_of i requests))
  Runs-once limiter requests n b i run =
      let kept = Runs-Kept limiter requests run in
      (
        omega (arith, kept.worked),
        kept.places,
        lists-CanGo b.waiting b.admitted b.running b.results b.closed b.limiter b.context,
        elim kept.ended [
          | inl open_still ↦ inl open_still
          | inr empty ↦ inr (
              omega (
                arith,
                kept.counted i,
                empty_requests i b.waiting (omega (arith, empty)),
                empty_requests i b.admitted (omega (arith, empty)),
                empty_requests i b.running (omega (arith, empty)),
              ))
        ],
      )
