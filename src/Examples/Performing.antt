-- ===== src/Examples/Performing.antt =====
-- Short runs of the limiter, the client pool and a batch.
use multinic.Base.{ℕ, ◌+◌, ◌*◌, ◌≤◌, ◌≡◌, refl, ◌⊎◌, true, false, [], ◌∷◌, none, some, ok, err}
use multinic.Performance.Limiter.{
  TokenBucketLimiter, new_token_bucket_limiter, acquire, refill_token,
}
use multinic.Performance.Limiter
use multinic.Performance.Limiter.Rate.{new_limiter-Accounted}
use multinic.Performance.Pool.{ClientPool, new_client_pool, ask_client, put_client, got}
use multinic.Performance.Pool
use multinic.Performance.Pool.Balance.{put_client_keeps}
use multinic.Performance.Batch.{
  RequestItem, Batch, start_batch, process_event, outside_event, end_context, admit, refuse, close,
}
use multinic.Performance.Batch
use multinic.Performance.Batch.Once.{Runs-once, results_of, requests_of}
use multinic.Performance.Batch.Progress.{CanGo}

abbrev two_tokens : TokenBucketLimiter
two_tokens = record { tokens = 2; capacity = 2; interval = 500; stopped = false; refilling = true }

abbrev one_token : TokenBucketLimiter
one_token = record two_tokens { tokens = 1 }

limiter_made : new_token_bucket_limiter 2 1000 ≡ some two_tokens
unfolding new_token_bucket_limiter
limiter_made = refl

one_taken : acquire two_tokens ≡ some one_token
unfolding acquire
one_taken = refl

taken_and_ticked : Limiter.Runs two_tokens 1 1 (refill_token one_token)
taken_and_ticked = Limiter.ticked (Limiter.acquired Limiter.started one_taken) refl

new_limiter-Accounted_example :
    (1 + (refill_token one_token).tokens ≤ 2 + 1) × ((refill_token one_token).tokens ≤ 2)
new_limiter-Accounted_example =
    new_limiter-Accounted 2 1000 two_tokens 1 1 (refill_token one_token) limiter_made
      taken_and_ticked

abbrev lending : ClientPool
lending = record { idle = []; created = 1; max_size = 1; locked = false }

first_client : ask_client false (ok 7) (new_client_pool 1) ≡ (got 7, lending)
unfolding ask_client new_client_pool
first_client = refl

one_lent : Pool.Runs 1 1 lending
one_lent = Pool.lends false (ok 7) 7 Pool.fresh first_client

put_client_keeps_example :
    (0 + 1 ≡ 1)
    × (1 ≤ 1)
    × ((lending.locked ≡ false) ⊎ (0 + 1 ≡ 1))
    × ((put_client 7 lending).idle ≡ 7 ∷ [])
put_client_keeps_example = put_client_keeps 1 0 7 lending one_lent

abbrev port_list : RequestItem ℕ
port_list = record { id = "ports"; request = ok 3 }

abbrev closed_batch : Batch ℕ
closed_batch = record {
  waiting = [];
  admitted = [];
  running = [];
  results = record { id = "ports"; outcome = err "context canceled" } ∷ [];
  closed = true;
  limiter = two_tokens;
  context = some "context canceled";
}

abbrev refused_batch : Batch ℕ
refused_batch = record closed_batch { closed = false }

abbrev cancelled_batch : Batch ℕ
cancelled_batch = record refused_batch { waiting = port_list ∷ []; results = [] }

context_ended :
    outside_event (end_context "context canceled") (start_batch two_tokens (port_list ∷ []))
    ≡ some cancelled_batch
unfolding outside_event start_batch
context_ended = refl

item_refused : process_event (refuse 0) cancelled_batch ≡ some refused_batch
unfolding process_event
item_refused = refl

batch_closed : process_event close refused_batch ≡ some closed_batch
unfolding process_event
batch_closed = refl

Runs-once_example :
    (2 ≤ 3 * 1 + 1)
    × (0 ≤ 10)
    × CanGo closed_batch
    × ((closed_batch.closed ≡ false)
        ⊎ (results_of "ports" closed_batch.results ≡ requests_of "ports" (port_list ∷ [])))
Runs-once_example = Runs-once two_tokens (port_list ∷ []) 2 closed_batch "ports" (
    Batch.next close
      (Batch.next (refuse 0)
        (Batch.outside (end_context "context canceled") Batch.started context_ended) item_refused)
      batch_closed)

-- With an empty limiter that is stopped, no event of a batch under a live context can happen.
abbrev stuck_batch : Batch ℕ
stuck_batch =
    start_batch (record two_tokens { tokens = 0; stopped = true; refilling = false })
      (port_list ∷ [])

nothing_admitted : process_event (admit 0) stuck_batch ≡ none
unfolding process_event start_batch
nothing_admitted = refl
