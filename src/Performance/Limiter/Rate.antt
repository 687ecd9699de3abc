-- ===== src/Performance/Limiter/Rate.antt =====
-- How many tokens a limiter can give out.
use multinic.Base.{ℕ, ◌+◌, ◌≤◌, ◌≡◌, refl, some, arith}
use multinic.Performance.Limiter.{
  TokenBucketLimiter, new_token_bucket_limiter, acquire, refill_token, stop, Runs, started,
  acquired, ticked, closed, returned,
}

-- What holds in every state of a run.
abbrev pub Accounted : TokenBucketLimiter → ℕ → ℕ → TokenBucketLimiter → Type 0
Accounted start a t l =
    (a + l.tokens ≤ start.capacity + t) × (l.tokens ≤ l.capacity) × (l.capacity ≡ start.capacity)

Runs-Accounted :
    (start : TokenBucketLimiter) {a t : ℕ} {l : TokenBucketLimiter}
    → start.tokens ≡ start.capacity
    → Runs start a t l
    → Accounted start a t l
unfolding acquire refill_token stop
Runs-Accounted start full started = (ground arith, ground arith, refl)
Runs-Accounted start full (acquired {l = l} run h) =
    let i = Runs-Accounted start full run in
    (
      ground (arith, i.0, i.1, i.2, h),
      ground (arith, i.0, i.1, i.2, h),
      ground (arith, i.0, i.1, i.2, h),
    )
Runs-Accounted start full (ticked {l = l} run on) =
    let i = Runs-Accounted start full run in
    (ground (arith, i.0, i.1, i.2), ground (arith, i.0, i.1, i.2), ground (arith, i.0, i.1, i.2))
Runs-Accounted start full (closed {l = l} run h) =
    let i = Runs-Accounted start full run in
    (
      ground (arith, i.0, i.1, i.2, h),
      ground (arith, i.0, i.1, i.2, h),
      ground (arith, i.0, i.1, i.2, h),
    )
Runs-Accounted start full (returned run h) = Runs-Accounted start full run

new_limiter-full :
    (capacity interval : ℕ) (start : TokenBucketLimiter)
    → new_token_bucket_limiter capacity interval ≡ some start
    → (start.tokens ≡ start.capacity) × (start.capacity ≡ capacity)
unfolding new_token_bucket_limiter
new_limiter-full capacity interval start made = (ground (arith, made), ground (arith, made))

-- In every run of a limiter that newTokenBucketLimiter makes, no more tokens are given out than its
-- capacity and the ticks so far together, and never more are left than the capacity.
pub new_limiter-Accounted :
    (capacity interval : ℕ) (start : TokenBucketLimiter) (a t : ℕ) (l : TokenBucketLimiter)
    → new_token_bucket_limiter capacity interval ≡ some start
    → Runs start a t l
    → (a + l.tokens ≤ capacity + t) × (l.tokens ≤ capacity)
new_limiter-Accounted capacity interval start a t l made run =
    let (full, is) = new_limiter-full capacity interval start made in
    let (given, kept, same) = Runs-Accounted start full run in
    (ground (arith, given, is), ground (arith, kept, same, is))
