-- ===== src/Performance/Pool/Balance.antt =====
-- The books of a client pool.
use multinic.Base.{
  ℕ, suc, ◌+◌, ◌≤◌, ◌≡◌, Bool, true, false, Result, String, [], ◌∷◌, length, length-append, arith,
  ◌⊎◌, ◌++◌, subst,
}
use multinic.Performance.Pool.{
  ClientPool, new_client_pool, GetAnswer, got, failed, waits, make_client, get_client, ask_client,
  wake, put_client, Runs, fresh, lends, fails, sleeps, wakes, returns,
}

-- Every client is idle or lent, and a Get waits with the mutex only where all are made.
pub record Balanced (max_size lent : ℕ) (p : ClientPool) : Type 0 where
  pub size : p.max_size ≡ max_size
  pub books : length p.idle + lent ≡ p.created
  pub bound : p.created ≤ max_size
  pub waiting : (p.locked ≡ false) ⊎ (p.created ≡ max_size)

-- The clients that are lent after an answer.
unfoldable lent_after : GetAnswer → ℕ → ℕ
lent_after (got client) lent = lent + 1
lent_after (failed e) lent = lent
lent_after waits lent = lent

-- The books after an answer.
abbrev Answered : ℕ → ℕ → GetAnswer × ClientPool → Type 0
Answered max_size lent r = Balanced max_size (lent_after r.0 lent) r.1

make_client-Balanced :
    (max_size lent : ℕ) (factory : Result String ℕ) (p : ClientPool)
    → Balanced max_size lent p
    → Answered max_size lent (make_client factory p)
unfolding make_client lent_after
make_client-Balanced max_size lent factory p b = ground (arith, b.size, b.books, b.bound, b.waiting)

get_client-Balanced :
    (max_size lent : ℕ) (factory : Result String ℕ) (p : ClientPool)
    → Balanced max_size lent p
    → Answered max_size lent (get_client factory p)
unfolding get_client lent_after
get_client-Balanced max_size lent factory p b =
    ground
      (arith, b.size, b.books, b.bound, b.waiting, make_client-Balanced max_size lent factory p b)

ask_client-Balanced :
    (max_size lent : ℕ) (late : Bool) (factory : Result String ℕ) (p : ClientPool)
    → Balanced max_size lent p
    → Answered max_size lent (ask_client late factory p)
unfolding ask_client
ask_client-Balanced max_size lent true factory p b = make_client-Balanced max_size lent factory p b
ask_client-Balanced max_size lent false factory p b = get_client-Balanced max_size lent factory p b

wake-Balanced :
    (max_size lent : ℕ) (p : ClientPool)
    → Balanced max_size lent p
    → Answered max_size lent (wake p)
unfolding wake lent_after
wake-Balanced max_size lent p b = ground (arith, b.size, b.books, b.bound, b.waiting)

put_client-Balanced :
    (max_size lent client : ℕ) (p : ClientPool)
    → Balanced max_size (suc lent) p
    → Balanced max_size lent (put_client client p)
unfolding put_client
put_client-Balanced max_size lent client p b =
    ground (arith, b.size, b.books, b.bound, b.waiting, length-append p.idle (client ∷ []))

Runs-Balanced :
    (max_size : ℕ) {lent : ℕ} {p : ClientPool} → Runs max_size lent p → Balanced max_size lent p
unfolding new_client_pool lent_after
Runs-Balanced max_size fresh = ground arith
Runs-Balanced max_size (lends {lent = lent} {p = p} late factory client run h) =
    let b = Runs-Balanced max_size run in
    subst (Answered max_size lent) h (ask_client-Balanced max_size lent late factory p b)
Runs-Balanced max_size (fails {lent = lent} {p = p} late factory e run h) =
    let b = Runs-Balanced max_size run in
    subst (Answered max_size lent) h (ask_client-Balanced max_size lent late factory p b)
Runs-Balanced max_size (sleeps {lent = lent} {p = p} late factory run h) =
    let b = Runs-Balanced max_size run in
    subst (Answered max_size lent) h (ask_client-Balanced max_size lent late factory p b)
Runs-Balanced max_size (wakes {lent = lent} {p = p} client run h) =
    let b = Runs-Balanced max_size run in
    subst (Answered max_size lent) h (wake-Balanced max_size lent p b)
Runs-Balanced max_size (returns {lent = lent} {p = p} client run) =
    put_client-Balanced max_size lent client p (Runs-Balanced max_size run)

-- In every run in which only lent clients are put back, the clients made are those idle and those
-- lent, no more than the pool's size, a Get waits with the mutex only where all of them are made, and
-- a lent client that is put back is kept: the pool is never full for it.
pub put_client_keeps :
    (max_size lent client : ℕ) (p : ClientPool)
    → Runs max_size (suc lent) p
    → (length p.idle + suc lent ≡ p.created)
      × (p.created ≤ max_size)
      × ((p.locked ≡ false) ⊎ (length p.idle + suc lent ≡ max_size))
      × ((put_client client p).idle ≡ p.idle ++ client ∷ [])
unfolding put_client
put_client_keeps max_size lent client p run =
    let b = Runs-Balanced max_size run in
    (b.books, b.bound, ground (arith, b.books, b.waiting), ground (arith, b.size, b.books, b.bound))
