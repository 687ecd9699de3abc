-- ===== src/Types/Retry/Outcome.antt =====
-- When Execute succeeds, and how often it calls the function.
use multinic.Base.{
  ℕ, zero, suc, ◌+◌, ◌≤◌, ◌<◌, ◌≡◌, ◌≢◌, refl, sym, ap, ◌∙◌, String, Option, none, arith, ltb,
  Option-cases, Bool-cases, inl, inr,
}
use multinic.Base.Int.{pos, negsuc}
use multinic.Types.Retry.{rounds, execute}

rounds-bound :
    (fn cancelled : ℕ → Option String) (i left : ℕ) (last : Option String)
    → (rounds fn cancelled i left last).1 ≤ i + left
unfolding rounds
rounds-bound fn cancelled i zero last = ground arith
rounds-bound fn cancelled i (suc left) last =
    ground (arith, rounds-bound fn cancelled (i + 1) left (fn i))

rounds_success :
    (fn cancelled : ℕ → Option String) (i left : ℕ) (last : Option String)
    → (left ≡ 0 → last ≢ none)
    → (rounds fn cancelled i left last).0 ≡ none
    → (j : ℕ) × ((rounds fn cancelled i left last).1 ≡ j + 1) × (fn j ≡ none)
unfolding rounds
rounds_success fn cancelled i zero last l h = absurd (l refl h)
rounds_success fn cancelled i (suc left) last l h = elim (Option-cases (fn i)) [
  | inl done ↦ (i, ground (arith, done, h), done)
  | inr (e, fails) ↦
      let same : rounds fn cancelled i (suc left) last ≡ rounds fn cancelled (i + 1) left (fn i) =
        ground (arith, fails, h) in
      let (j, calls, done) =
        rounds_success fn cancelled (i + 1) left (fn i) (λ z n. ground (arith, fails, n))
          (ap (λ r. r.0) (sym same) ∙ h) in
      (j, ap (λ r. r.1) same ∙ calls, done)
]

rounds_reach :
    (fn cancelled : ℕ → Option String) (i left j : ℕ) (last : Option String)
    → ((k : ℕ) → cancelled k ≡ none)
    → i ≤ j
    → j < i + left
    → fn j ≡ none
    → (rounds fn cancelled i left last).0 ≡ none
unfolding rounds
rounds_reach fn cancelled i zero j last free below above done = ground arith
rounds_reach fn cancelled i (suc left) j last free below above done = elim (Option-cases (fn i)) [
  | inl now ↦ ground (arith, now, free i)
  | inr (e, fails) ↦
      let later : i + 1 ≤ j = elim (Bool-cases (ltb i j)) [
        | inl less ↦ ground (arith, less)
        | inr not_less ↦
            let same : i ≡ j = ground (arith, not_less, below) in
            ground (arith, fails, ap fn same ∙ done)
      ] in
      ground (
        arith,
        fails,
        free i,
        rounds_reach fn cancelled (i + 1) left j (fn i) free later (omega (arith, above)) done,
      )
]

-- For a bound that is not negative: the function is called at most once more than the bound says; if
-- Execute returns no error, the last of its calls returned none; and if some call up to the bound
-- would return none and the context never ends, Execute returns no error.
pub execute_contract :
    (n : ℕ) (fn cancelled : ℕ → Option String)
    → let r = execute (record { max_retries = pos n }) fn cancelled in
      (r.1 ≤ n + 1)
      × (r.0 ≡ none → (j : ℕ) × (r.1 ≡ j + 1) × (fn j ≡ none))
      × (((k : ℕ) → cancelled k ≡ none) → (j : ℕ) → j ≤ n → fn j ≡ none → r.0 ≡ none)
unfolding execute
execute_contract n fn cancelled = (
  omega (arith, rounds-bound fn cancelled 0 (n + 1) none),
  rounds_success fn cancelled 0 (n + 1) none (λ z. omega (arith, z)),
  (λ free j below done.
      rounds_reach fn cancelled 0 (n + 1) j none free (omega arith) (omega (arith, below)) done),
)

-- With a negative bound Execute returns no error and never calls the function.
execute_negative :
    (n : ℕ) (fn cancelled : ℕ → Option String)
    → execute (record { max_retries = negsuc n }) fn cancelled ≡ (none, 0)
unfolding execute
execute_negative n fn cancelled = refl
