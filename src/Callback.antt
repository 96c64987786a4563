-- ===== src/Callback.antt =====
-- EasyCallback of rpc/callback.h, the closures that users give with their calls, and CancellableWait.
-- Closures are objects that pointers name; what a closure does besides is its user's.
pub mod Once
use gboost_rpc.Event.{int32_max, SyncEvent, new_sync_event, timed_wait, notify}
use gboost_rpc.Base.{
  ◌≡◌, ◌<◌, ◌+◌, arith, ℕ, ◌==◌, if◌then◌else◌, Bool, true, false, Option, none, some, List, [],
  ◌∷◌, Outcome, ok, fatal, ◌>>=◌,
}

-- `cb_` is a name for the function of the user.
pub record EasyCallback : Type 0 where
  pub cb : ℕ
  pub self_deleting : Bool

-- The closures that are there.
abbrev pub Closures : Type 0
Closures = ℕ → Option EasyCallback

-- `NewCallback` and `NewPermanentCallback`
abbrev pub new_callback : ℕ → EasyCallback
new_callback cb = record { cb = cb; self_deleting = true }

abbrev pub new_permanent_callback : ℕ → EasyCallback
new_permanent_callback cb = record { cb = cb; self_deleting = false }

-- `Run`: the function that was called, and the closures behind it. A closure that is gone is a fault.
unfoldable pub run_callback : Closures → ℕ → Outcome (Closures × ℕ)
run_callback closures a = elim (closures a) [
  | none ↦ fatal
  | some c ↦
      ok (if c.self_deleting then (λ b. if b == a then none else closures b) else closures, c.cb)
]

-- Closures that are run one after the other.
unfoldable pub run_callbacks : Closures → List ℕ → Outcome (Closures × List ℕ)
unfolding run_callback
run_callbacks closures [] = ok (closures, [])
run_callbacks closures (a ∷ as') = do
  (closures', cb) ← run_callback closures a
  (last, cbs) ← run_callbacks closures' as'
  ok (last, cb ∷ cbs)

-- `CancellableWait`, with the messages that it deletes with itself.
pub record CancellableWait : Type 0 where
  pub request : ℕ
  pub response : ℕ
  pub event : SyncEvent

-- `CancellableWait(request, response)`
abbrev pub new_cancellable_wait : (request response : ℕ) → CancellableWait
new_cancellable_wait request response = record {
  request = request;
  response = response;
  event = new_sync_event false;
}

-- `CancellableWait::TimedWait`. `signalled` is what the condition variable answers.
unfoldable pub cancellable_timed_wait :
    CancellableWait → (signalled : Bool) → CancellableWait × Bool
unfolding timed_wait
cancellable_timed_wait w signalled =
    let (event, in_time) = timed_wait w.event signalled in (record w { event = event }, in_time)

-- `CancellableWait::Done`
unfoldable pub done : CancellableWait → Outcome CancellableWait
unfolding notify
done w = do event ← notify w.event; ok (record w { event = event })

-- `Done`, of which there are not so many that the counter is at the largest int32, returns, and a
-- wait that begins after it returns true without sleeping, and takes the notification.
pub cancellable_timed_wait-done :
    (w : CancellableWait) (signalled : Bool)
    → w.event.auto_reset ≡ false
    → w.event.value < int32_max
    → (w' : CancellableWait) × (done w ≡ ok w') × (cancellable_timed_wait w' signalled ≡ (w, true))
unfolding cancellable_timed_wait timed_wait done notify
cancellable_timed_wait-done w signalled e few =
    let event : SyncEvent = record w.event { value = w.event.value + 1 } in
    (record w { event = event }, ground (arith, few), ground (arith, e))
