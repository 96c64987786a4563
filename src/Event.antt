-- ===== src/Event.antt =====
-- rpc/sync_event.h and rpc/atomic_event.h, and rpc/sem_event.h in a child: events that threads wait
-- for. What a thread does under the mutex, or in one atomic operation, is one step.
pub mod Blocking
pub mod Spinning
pub mod Semaphore
use gboost_rpc.Base.{
  ℕ, ◌+◌, ◌-◌, ◌%◌, ◌^◌, ◌==◌, ltb, if◌then◌else◌, Bool, true, ◌&&◌, Option, none, some, Outcome,
  ok, ◌>>◌, check,
}

abbrev pub int32_max : ℕ
int32_max = 2147483647

-- `SyncEvent`. `value_` is an int32 that is never negative.
pub record SyncEvent : Type 0 where
  pub value : ℕ
  pub auto_reset : Bool

-- `SyncEvent(auto_reset)`
abbrev pub new_sync_event : Bool → SyncEvent
new_sync_event auto_reset = record { value = 0; auto_reset = auto_reset }

-- The end of `Wait` and of `TimedWait`, for a value that is not 0.
abbrev consume : SyncEvent → SyncEvent
consume e = record e { value = if e.auto_reset then 0 else e.value - 1 }

-- One round of the loop of `Wait`: `none` goes to sleep on the condition variable.
unfoldable pub try_wait : SyncEvent → Option SyncEvent
try_wait e = if e.value == 0 then none else some (consume e)

-- `TimedWait`. `signalled` is what the condition variable answers where the value is 0; the value
-- is not looked at again.
unfoldable pub timed_wait : SyncEvent → (signalled : Bool) → SyncEvent × Bool
timed_wait e signalled = if e.value == 0 then (e, signalled) else (consume e, true)

-- `SyncEvent::Notify`, behind which all sleepers are awake. Of the largest int32, `++value_` is
-- undefined: `fatal`.
unfoldable pub notify : SyncEvent → Outcome SyncEvent
notify e = check (ltb e.value int32_max) >> ok (record e { value = e.value + 1 })

-- The value of an AtomicEvent is an int, here its bit pattern of 32 bits: positive from 1 to the
-- largest int32, negative above.
abbrev pub is_positive : ℕ → Bool
is_positive value = ltb 0 value && ltb value (int32_max + 1)

-- One round of the loop of `AtomicEvent::Wait`: the value that the thread reads, and with which it
-- goes on to `compare_exchange` if it is positive.
unfoldable pub load_positive : ℕ → Option ℕ
load_positive value = if is_positive value then some value else none

-- `compare_exchange_weak` from `expected` to one less, where it does not fail without a reason.
unfoldable pub exchange : ℕ → (expected : ℕ) → Option ℕ
exchange value expected = if value == expected then some (expected - 1) else none

-- `AtomicEvent::Notify`, the `atomic_fetch_add`, which wraps, and `AtomicEvent::GetValue`, the
-- `atomic_load`.
abbrev pub atomic_notify : ℕ → ℕ
atomic_notify value = (value + 1) % 2 ^ 32

abbrev pub atomic_get_value : ℕ → ℕ
atomic_get_value value = value
