-- ===== src/Performance/Pool.antt =====
-- ClientPool. A client is a number; the channel of idle clients is a list, `locked` the mutex while a
-- Get holds it and waits for a client.
pub mod Balance
use multinic.Base.{
  ◌≡◌, ℕ, suc, ◌+◌, String, Bool, true, false, List, [], ◌∷◌, ◌++◌, Result, ok, err, length, ltb,
  if◌then◌else◌,
}

pub record ClientPool : Type 0 where
  pub idle : List ℕ
  pub created : ℕ
  pub max_size : ℕ
  pub locked : Bool

unfoldable pub new_client_pool : ℕ → ClientPool
new_client_pool max_size = record { idle = []; created = 0; max_size = max_size; locked = false }

-- A client, the factory's error, or the goroutine waits: for the mutex, or for a client with the mutex
-- in its hand.
pub data GetAnswer : Type 0 where
  got : ℕ → GetAnswer
  failed : String → GetAnswer
  waits : GetAnswer

-- The default case of Get: with the mutex, a client is made, or one is received from the channel.
unfoldable pub make_client : Result String ℕ → ClientPool → GetAnswer × ClientPool
make_client factory p =
    if p.locked
    then (waits, p)
    else if ltb p.created p.max_size
    then (elim factory [
      | err e ↦ (failed e, p)
      | ok client ↦ (got client, record p { created = p.created + 1 })
    ])
    else (elim p.idle [
      | [] ↦ (waits, record p { locked = true })
      | ◌∷◌ client rest ↦ (got client, record p { idle = rest })
    ])

unfoldable pub get_client : Result String ℕ → ClientPool → GetAnswer × ClientPool
unfolding make_client
get_client factory p = elim p.idle [
  | [] ↦ make_client factory p
  | ◌∷◌ client rest ↦ (got client, record p { idle = rest })
]

-- A Get, or one that found the channel empty before and now has its turn with the mutex.
unfoldable pub ask_client : Bool → Result String ℕ → ClientPool → GetAnswer × ClientPool
unfolding get_client
ask_client late factory p = if late then make_client factory p else get_client factory p

-- The Get that waits with the mutex receives a client.
unfoldable pub wake : ClientPool → GetAnswer × ClientPool
wake p =
    if p.locked
    then (elim p.idle [
      | [] ↦ (waits, p)
      | ◌∷◌ client rest ↦ (got client, record p { idle = rest; locked = false })
    ])
    else (waits, p)

-- A full pool drops the client.
unfoldable pub put_client : ℕ → ClientPool → ClientPool
put_client client p =
    if ltb (length p.idle) p.max_size then record p { idle = p.idle ++ client ∷ [] } else p

-- The runs of a pool of the size, with the number of clients that are lent out. Only lent clients are
-- put back.
pub data Runs (max_size : ℕ) : ℕ → ClientPool → Type 0 where
  fresh : Runs max_size 0 (new_client_pool max_size)
  lends :
      {lent : ℕ} {p p' : ClientPool} (late : Bool) (factory : Result String ℕ) (client : ℕ)
      → Runs max_size lent p
      → ask_client late factory p ≡ (got client, p')
      → Runs max_size (lent + 1) p'
  fails :
      {lent : ℕ} {p p' : ClientPool} (late : Bool) (factory : Result String ℕ) (e : String)
      → Runs max_size lent p
      → ask_client late factory p ≡ (failed e, p')
      → Runs max_size lent p'
  sleeps :
      {lent : ℕ} {p p' : ClientPool} (late : Bool) (factory : Result String ℕ)
      → Runs max_size lent p
      → ask_client late factory p ≡ (waits, p')
      → Runs max_size lent p'
  wakes :
      {lent : ℕ} {p p' : ClientPool} (client : ℕ)
      → Runs max_size lent p
      → wake p ≡ (got client, p')
      → Runs max_size (lent + 1) p'
  returns :
      {lent : ℕ} {p : ClientPool} (client : ℕ)
      → Runs max_size (suc lent) p
      → Runs max_size lent (put_client client p)
