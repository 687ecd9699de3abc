-- ===== src/Performance/Limiter.antt =====
-- TokenBucketLimiter. The channel of tokens is their number; the goroutine of refillTokens is the
-- field `refilling`.
pub mod Rate
use multinic.Base.{
  ◌≡◌, ℕ, zero, suc, ◌+◌, ◌/◌, Bool, true, false, Option, none, ◌||◌, some, ltb, eqb, if◌then◌else◌,
}

pub record TokenBucketLimiter : Type 0 where
  pub tokens : ℕ
  pub capacity : ℕ
  pub interval : ℕ
  pub stopped : Bool
  pub refilling : Bool

-- With capacity 0 the division panics, and with an interval of 0 the ticker of the goroutine does.
unfoldable pub new_token_bucket_limiter : ℕ → ℕ → Option TokenBucketLimiter
new_token_bucket_limiter capacity interval =
    if eqb capacity 0 || eqb (interval / capacity) 0
    then none
    else some (record {
      tokens = capacity;
      capacity = capacity;
      interval = interval / capacity;
      stopped = false;
      refilling = true;
    })

-- The case of Acquire that takes a token; nothing where it has to wait.
unfoldable pub acquire : TokenBucketLimiter → Option TokenBucketLimiter
acquire l = elim l.tokens [ zero ↦ none | suc n ↦ some (record l { tokens = n }) ]

-- A tick: a full bucket stays full.
unfoldable pub refill_token : TokenBucketLimiter → TokenBucketLimiter
refill_token l = if ltb l.tokens l.capacity then record l { tokens = l.tokens + 1 } else l

-- Closing a closed channel panics.
unfoldable pub stop : TokenBucketLimiter → Option TokenBucketLimiter
stop l = if l.stopped then none else some (record l { stopped = true })

-- The runs of a limiter from the start, with the tokens given out and the ticks so far. An Acquire
-- whose context ends changes nothing. The goroutine may take a tick also after the stop, until it
-- sees that.
pub data Runs (start : TokenBucketLimiter) : ℕ → ℕ → TokenBucketLimiter → Type 0 where
  started : Runs start 0 0 start
  acquired :
      {a t : ℕ} {l l' : TokenBucketLimiter}
      → Runs start a t l
      → acquire l ≡ some l'
      → Runs start (a + 1) t l'
  ticked :
      {a t : ℕ} {l : TokenBucketLimiter}
      → Runs start a t l
      → l.refilling ≡ true
      → Runs start a (t + 1) (refill_token l)
  closed :
      {a t : ℕ} {l l' : TokenBucketLimiter}
      → Runs start a t l
      → stop l ≡ some l'
      → Runs start a t l'
  returned :
      {a t : ℕ} {l : TokenBucketLimiter}
      → Runs start a t l
      → l.stopped ≡ true
      → Runs start a t (record l { refilling = false })
