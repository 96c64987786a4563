-- ===== src/Event/Spinning.antt =====
-- The threads that wait for an AtomicEvent (rpc/atomic_event.h) or notify it.
use native.Mathlib.Nat.{mod-eq_of_lt}
use gboost_rpc.Base.{ℕ, ◌+◌, ◌-◌, ◌%◌, ◌^◌, ◌≤◌, ◌<◌, ◌≡◌, refl, some, List, [], ◌∷◌, ◌++◌, arith}
use gboost_rpc.Event.{int32_max, load_positive, exchange, atomic_notify, atomic_get_value}

-- `loaded` has the values that threads read and hold; the other threads inside of `Wait` are about
-- to read.
pub record Spinners : Type 0 where
  pub value : ℕ
  pub reading : ℕ
  pub loaded : List ℕ
  pub returned : ℕ
  pub notified : ℕ

pub data Spin (s : Spinners) : Spinners → Type 0 where
  enters : Spin s (record s { reading = s.reading + 1 })
  loads :
      (expected : ℕ)
      → 0 < s.reading
      → load_positive s.value ≡ some expected
      → Spin s (record s { reading = s.reading - 1; loaded = expected ∷ s.loaded })
  -- `compare_exchange_weak` may fail for no reason; the thread reads again.
  fails :
      (front back : List ℕ) (expected : ℕ)
      → s.loaded ≡ front ++ (expected ∷ back)
      → Spin s (record s { reading = s.reading + 1; loaded = front ++ back })
  passes :
      (front back : List ℕ) (expected left : ℕ)
      → s.loaded ≡ front ++ (expected ∷ back)
      → exchange s.value expected ≡ some left
      → Spin s (record s { value = left; loaded = front ++ back; returned = s.returned + 1 })
  notifies : Spin s (record s { value = atomic_notify s.value; notified = s.notified + 1 })

pub data Spins (s : Spinners) : Spinners → Type 0 where
  stays : Spins s s
  spins : {t u : Spinners} → Spins s t → Spin t u → Spins s u

abbrev pub no_spinner : Spinners
no_spinner = record { value = 0; reading = 0; loaded = []; returned = 0; notified = 0 }

abbrev AllPositive : List ℕ → Type 0
AllPositive [] = Unit
AllPositive (n ∷ ns) = (0 < n) × AllPositive ns

AllPositive-middle :
    (front back : List ℕ) (n : ℕ)
    → AllPositive (front ++ (n ∷ back))
    → (0 < n) × AllPositive (front ++ back)
AllPositive-middle [] back n h = h
AllPositive-middle (m ∷ front) back n h =
    let (a, b) = AllPositive-middle front back n h.1 in (a, (h.0, b))

pub record IsExact (s : Spinners) : Type 0 where
  pub positive : AllPositive s.loaded
  pub counted : s.returned + atomic_get_value s.value ≡ s.notified

Spin-IsExact : {s t : Spinners} → Spin s t → t.notified ≤ int32_max → IsExact s → IsExact t
unfolding load_positive exchange
Spin-IsExact enters few x = record { positive = x.positive; counted = x.counted }
Spin-IsExact {s} (loads expected some_reading read) few x = record {
  positive = (ground arith, x.positive);
  counted = x.counted;
}
Spin-IsExact {s} (fails front back expected e) few x = record {
  positive = (AllPositive-middle front back expected (rw e at x.positive)).1;
  counted = x.counted;
}
Spin-IsExact {s} (passes front back expected left e changed) few x =
    let parts = AllPositive-middle front back expected (rw e at x.positive) in
    record { positive = parts.1; counted = ground (arith, parts.0, x.counted) }
Spin-IsExact {s} notifies few x =
    let fits : s.value + 1 < 2 ^ 32 = omega (arith, x.counted, few) in
    let exact : (s.value + 1) % 2 ^ 32 ≡ s.value + 1 = mod-eq_of_lt fits in
    record { positive = x.positive; counted = rw exact (omega (arith, x.counted)) }

Spin-notified : {s t : Spinners} → Spin s t → s.notified ≤ t.notified
Spin-notified enters = omega arith
Spin-notified (loads expected some_reading read) = omega arith
Spin-notified (fails front back expected e) = omega arith
Spin-notified (passes front back expected left e changed) = omega arith
Spin-notified notifies = omega arith

-- Along every history of the threads that wait for an AtomicEvent, and of those that notify it, with
-- fewer than 2 ^ 31 notifications, the calls of `Wait` that returned and the value make up the
-- notifications, however the loads and the exchanges of the threads interleave: no notification is
-- lost, and none lets two threads go.
pub no_spinner-IsExact : {s : Spinners} → Spins no_spinner s → s.notified ≤ int32_max → IsExact s
no_spinner-IsExact stays few = record { positive = tt; counted = refl }
no_spinner-IsExact {s} (spins {t} ss m) few =
    Spin-IsExact m few (no_spinner-IsExact ss (omega (arith, Spin-notified m, few)))
