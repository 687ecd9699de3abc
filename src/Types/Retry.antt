-- ===== src/Types/Retry.antt =====
-- SimpleRetry.Execute. What the function and the context answer is an argument: `fn i` is the error
-- of the call in round `i`, `cancelled i` the context's error where it ends before that round.
pub mod Outcome
use multinic.Base.{ℕ, zero, suc, ◌+◌, String, Bool, Option, none, some, ltb, if◌then◌else◌}
use multinic.Base.Int.{ℤ, pos, negsuc}

pub record SimpleRetry : Type 0 where
  pub max_retries : ℤ

-- The result and the number of calls of the function.
abbrev pub Executed : Type 0
Executed = Option String × ℕ

-- Round `i` with `left` rounds to go, the last error and the calls so far.
unfoldable pub rounds : (ℕ → Option String) → (ℕ → Option String) → ℕ → ℕ → Option String → Executed
rounds fn cancelled i zero last = (last, i)
rounds fn cancelled i (suc left) last =
    let next = rounds fn cancelled (i + 1) left (fn i) in
    let called : Executed = elim (fn i) [ none ↦ (none, i + 1) | some e ↦ next ] in
    if ltb 0 i then elim (cancelled i) [ some e ↦ (some e, i) | none ↦ called ] else called

-- How often `attempt <= MaxRetries` holds, from 0 on.
abbrev pub rounds_of : ℤ → ℕ
rounds_of (pos n) = n + 1
rounds_of (negsuc n) = 0

unfoldable pub execute : SimpleRetry → (ℕ → Option String) → (ℕ → Option String) → Executed
unfolding rounds
execute r fn cancelled = rounds fn cancelled 0 (rounds_of r.max_retries) none
