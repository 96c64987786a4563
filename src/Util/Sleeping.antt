-- ===== src/Util/Sleeping.antt =====
-- `SleepInSeconds` of rpc/detail/util.h, where it is not WIN32's.
use gboost_rpc.Base.{
  ℕ, zero, suc, ◌+◌, ◌-◌, ◌%◌, ◌^◌, ◌≤◌, ◌≡◌, refl, List, [], ◌∷◌, Outcome, ok, stuck, arith,
}

-- The loop, by what the calls of `sleep` answer, the seconds that are left. `stuck` is a call that has
-- not returned.
unfoldable pub sleep_loop : List ℕ → ℕ → Outcome (Unit {0})
sleep_loop answers zero = ok tt
sleep_loop [] (suc left) = stuck
sleep_loop (answer ∷ answers) (suc left) = sleep_loop answers answer

-- `SleepInSeconds`, of an int32 as its bit pattern.
unfoldable pub sleep_in_seconds : List ℕ → ℕ → Outcome (Unit {0})
unfolding sleep_loop
sleep_in_seconds answers seconds = sleep_loop answers (seconds % 2 ^ 32)

-- The seconds that the calls slept, and that none is left with more than it was to sleep.
abbrev pub slept : List ℕ → ℕ → ℕ
slept answers zero = 0
slept [] (suc left) = 0
slept (answer ∷ answers) (suc left) = (suc left - answer) + slept answers answer

abbrev pub IsSleeping : List ℕ → ℕ → Type 0
IsSleeping answers zero = Unit
IsSleeping [] (suc left) = Unit
IsSleeping (answer ∷ answers) (suc left) = (answer ≤ suc left) × IsSleeping answers answer

sleep_loop_lem :
    (answers : List ℕ) (left : ℕ)
    → IsSleeping answers left
    → sleep_loop answers left ≡ ok tt
    → slept answers left ≡ left
unfolding sleep_loop
sleep_loop_lem answers zero s e = refl
sleep_loop_lem [] (suc left) s e = absurd cc
sleep_loop_lem (answer ∷ answers) (suc left) s e =
    omega (arith, s.0, sleep_loop_lem answers answer s.1 e)

-- However often `sleep` is interrupted: when `SleepInSeconds` returns, the calls slept the seconds.
pub sleep_in_seconds_lem :
    (answers : List ℕ) (seconds : ℕ)
    → IsSleeping answers (seconds % 2 ^ 32)
    → sleep_in_seconds answers seconds ≡ ok tt
    → slept answers (seconds % 2 ^ 32) ≡ seconds % 2 ^ 32
unfolding sleep_in_seconds
sleep_in_seconds_lem answers seconds s e = sleep_loop_lem answers (seconds % 2 ^ 32) s e
