-- ===== src/Event/Semaphore.antt =====
-- rpc/sem_event.h: an event over the semaphores of the system.
pub mod Counted
use gboost_rpc.Base.{
  ℕ, ◌+◌, ◌*◌, ◌/◌, ◌%◌, ◌<◌, ◌≤◌, ◌≡◌, ◌≢◌, ◌==◌, if◌then◌else◌, Bool, true, false, Option, none,
  some, Outcome, ok, ◌>>=◌, ◌>>◌, check,
}

-- A `struct timespec`.
pub record Timespec : Type 0 where
  pub tv_sec : ℕ
  pub tv_nsec : ℕ

-- The calls of the system on a semaphore in some state: the state behind the call and 0, or what
-- `errno` is then. `none` is a call that waits for as long as the semaphore is in that state.
pub record SemaphoreCalls (S : Type 0) : Type 0 where
  pub sem_init : (value : ℕ) → S × ℕ
  pub sem_destroy : S → S × ℕ
  pub sem_post : S → S × ℕ
  pub sem_wait : S → Option (S × ℕ)
  pub sem_timedwait : S → Timespec → Option (S × ℕ)
  pub sem_getvalue : S → ℕ × ℕ

-- The constants of errno.h.
abbrev pub etimedout : ℕ
etimedout = 110

abbrev pub einval : ℕ
einval = 22

module _ {S : Type 0} (sys : SemaphoreCalls S) where
  -- `CHECK_EQ(call, 0)`
  abbrev succeeds : S × ℕ → Outcome S
  succeeds (s, errno) = do check (errno == 0); ok s

  -- `Semaphore()`
  unfoldable pub new_semaphore : Outcome S
  new_semaphore = succeeds (sys.sem_init 0)

  -- `~Semaphore()`
  unfoldable pub destroy_semaphore : S → Outcome S
  destroy_semaphore s = succeeds (sys.sem_destroy s)

  -- `Semaphore::Notify`
  unfoldable pub semaphore_notify : S → Outcome S
  semaphore_notify s = succeeds (sys.sem_post s)

  -- `Semaphore::Wait`, at the time when the system lets it go on.
  unfoldable pub semaphore_wait : S → Option (Outcome S)
  semaphore_wait s = elim (sys.sem_wait s) [ none ↦ none | some answer ↦ some (succeeds answer) ]

  -- The duration that `TimedWait` computes.
  abbrev pub timespec_of : ℕ → Timespec
  timespec_of duration_in_ms = record {
    tv_sec = duration_in_ms / 1000;
    tv_nsec = duration_in_ms % 1000 * 1000000;
  }

  abbrev timed_result : S × ℕ → Outcome (S × Bool)
  timed_result (s, errno) =
      if errno == 0 then ok (s, true) else (do check (errno == etimedout); ok (s, false))

  -- `Semaphore::TimedWait`
  unfoldable pub semaphore_timed_wait : S → ℕ → Option (Outcome (S × Bool))
  semaphore_timed_wait s duration_in_ms = elim (sys.sem_timedwait s (timespec_of duration_in_ms)) [
    | none ↦ none
    | some answer ↦ some (timed_result answer)
  ]

  -- `Semaphore::GetValue`
  unfoldable pub semaphore_get_value : S → Outcome ℕ
  semaphore_get_value s = let (value, errno) = sys.sem_getvalue s in do check (errno == 0); ok value
