-- ===== src/Examples/Counting.antt =====
-- A Semaphore over a system whose semaphores are numbers.
use gboost_rpc.Base.{
  ℕ, ◌+◌, ◌-◌, ◌*◌, ◌/◌, ◌^◌, ◌<◌, ◌≡◌, ◌≢◌, ◌⊎◌, ◌==◌, ltb, if◌then◌else◌, refl, true, false,
  Option, none, some, ok, fatal, arith,
}
use gboost_rpc.Event.Semaphore.{
  Timespec, SemaphoreCalls, etimedout, einval, new_semaphore, semaphore_notify, semaphore_wait,
  timespec_of, semaphore_timed_wait, semaphore_get_value,
}
use gboost_rpc.Event.Semaphore.Counted.{
  IsSemaphore, Counting, CountingSteps, none_yet, and_then, notifies, passes, gives_up,
  new_semaphore-Counted, semaphore_timed_wait_lem,
}

abbrev counter_wait : ℕ → Option (ℕ × ℕ)
counter_wait s = if s == 0 then none else some (s - 1, 0)

abbrev counter_timedwait : ℕ → Timespec → Option (ℕ × ℕ)
counter_timedwait s t =
    if ltb t.tv_nsec 1000000000
    then (if s == 0 then some (s, etimedout) else some (s - 1, 0))
    else some (s, einval)

abbrev counters : SemaphoreCalls ℕ
counters = record {
  sem_init = λ value. (value, 0);
  sem_destroy = λ s. (s, 0);
  sem_post = λ s. (s + 1, 0);
  sem_wait = counter_wait;
  sem_timedwait = counter_timedwait;
  sem_getvalue = λ s. (s, 0);
}

counter_waits :
    (s s' errno : ℕ) → counter_wait s ≡ some (s', errno) → s ≡ (if errno == 0 then s' + 1 else s')
counter_waits s s' errno e = ground (arith, e)

counter_times :
    (s s' : ℕ) (t : Timespec) (errno : ℕ)
    → counter_timedwait s t ≡ some (s', errno)
    → s ≡ (if errno == 0 then s' + 1 else s')
counter_times s s' t errno e = ground (arith, e)

counter_valid_times :
    (s s' : ℕ) (t : Timespec) → t.tv_nsec < 1000000000 → counter_timedwait s t ≢ some (s', einval)
counter_valid_times s s' t small e = ground (arith, small, e)

counters-IsSemaphore : IsSemaphore counters
counters-IsSemaphore = record {
  count = λ s. s;
  begins = λ value good. refl;
  posts = λ s. refl;
  waits = counter_waits;
  times = counter_times;
  valid_times = counter_valid_times;
  values = λ s good. refl;
}

abbrev at : (state notified passed : ℕ) → Counting ℕ
at state notified passed = record { state = state; notified = notified; passed = passed }

-- Two notifications, a wait, a wait that gives up after it.
some_calls : CountingSteps counters (at 0 0 0) (at 1 2 1)
unfolding semaphore_notify semaphore_wait semaphore_timed_wait
some_calls =
    and_then
      (and_then (and_then (and_then none_yet (gives_up 1500 refl)) (notifies refl)) (notifies refl))
      (passes refl)

new_semaphore-Counted_example : 1 + 1 ≡ 2
unfolding new_semaphore semaphore_get_value
new_semaphore-Counted_example =
    new_semaphore-Counted counters-IsSemaphore 0 (at 1 2 1) 1 refl some_calls refl

semaphore_timed_wait_lem_example :
    ((timespec_of counters 2750).tv_sec * 1000 + (timespec_of counters 2750).tv_nsec / 1000000
      ≡ 2750)
    × ((timespec_of counters 2750).tv_nsec < 1000000000)
    × ((timespec_of counters 2750).tv_nsec < 2 ^ 32)
    × ((semaphore_timed_wait counters 1 2750 ≡ none)
        ⊎ ((s' : ℕ) × (errno : ℕ) × (counters.sem_timedwait 1 (timespec_of counters 2750)
              ≡ some (s', errno))
            × (errno ≢ einval)
            × (semaphore_timed_wait counters 1 2750
                ≡ some (
                    if errno == 0
                    then ok (s', true)
                    else if errno == etimedout
                    then ok (s', false)
                    else fatal))))
semaphore_timed_wait_lem_example =
    semaphore_timed_wait_lem counters-IsSemaphore 1 2750 (omega arith)
