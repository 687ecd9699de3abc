-- ===== src/Base/Int.antt =====
-- Signed integers over the native numbers, under the library's names, with Go's tests on them and
-- their decimal form. `negsuc n` is -(n + 1).
use Prim.Native.Nat.{ℕ, zero, suc, ◌+◌, ◌/◌, ◌%◌}
use Prim.Native.String.{String, ◌++◌}
use mathlib.Core.Bool.{Bool, true, false}
use multinic.Base.Tests.{ltb, eqb, if◌then◌else◌}

pub data ℤ : Type 0 where
  pos : ℕ → ℤ
  negsuc : ℕ → ℤ

abbrev pub is_positive : ℤ → Bool
is_positive (pos n) = ltb 0 n
is_positive (negsuc n) = false

abbrev pub is_zero : ℤ → Bool
is_zero (pos n) = eqb n 0
is_zero (negsuc n) = false

abbrev pub eqz : ℤ → ℤ → Bool
eqz (pos m) (pos n) = eqb m n
eqz (pos m) (negsuc n) = false
eqz (negsuc m) (pos n) = false
eqz (negsuc m) (negsuc n) = eqb m n

abbrev pub ltz : ℤ → ℤ → Bool
ltz (pos m) (pos n) = ltb m n
ltz (pos m) (negsuc n) = false
ltz (negsuc m) (pos n) = true
ltz (negsuc m) (negsuc n) = ltb n m

abbrev digit : ℕ → String
digit n =
    if eqb n 0
    then "0"
    else if eqb n 1
    then "1"
    else if eqb n 2
    then "2"
    else if eqb n 3
    then "3"
    else if eqb n 4
    then "4"
    else if eqb n 5
    then "5"
    else if eqb n 6
    then "6"
    else if eqb n 7
    then "7"
    else if eqb n 8
    then "8"
    else "9"

-- The digits before those already written; a number has fewer digits than its successor.
unfoldable pub digits : ℕ → ℕ → String → String
digits zero n written = written
digits (suc fuel) n written =
    let rest = digits fuel (n / 10) (digit (n % 10) ++ written) in
    if ltb n 10 then digit n ++ written else rest

-- The verb %d.
unfoldable pub decimal : ℤ → String
unfolding digits
decimal (pos n) = digits (n + 1) n ""
decimal (negsuc n) = "-" ++ digits (n + 2) (n + 1) ""
