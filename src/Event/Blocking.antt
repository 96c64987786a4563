-- ===== src/Event/Blocking.antt =====
-- The threads that wait for a SyncEvent (rpc/sync_event.h) or notify it.
use gboost_rpc.Base.{
  ℕ, ◌+◌, ◌-◌, ◌≤◌, ◌<◌, ◌≡◌, ◌≢◌, refl, Bool, false, true, none, some, ◌⊎◌, inl, inr, ok, arith,
}
use gboost_rpc.Event.{int32_max, SyncEvent, new_sync_event, try_wait, timed_wait, notify}

-- The threads inside of `Wait`: those that sleep, and those that are about to test the value. The
-- threads that sleep in `TimedWait`. The calls of `Wait` that returned, those of `TimedWait` that
-- found a value, and the notifications.
pub record Waiters : Type 0 where
  pub event : SyncEvent
  pub asleep : ℕ
  pub awake : ℕ
  pub timed_asleep : ℕ
  pub returned : ℕ
  pub timed : ℕ
  pub notified : ℕ

pub data Move (w : Waiters) : Waiters → Type 0 where
  -- A thread calls `Wait`.
  enters : Move w (record w { awake = w.awake + 1 })
  sleeps :
      0 < w.awake
      → try_wait w.event ≡ none
      → Move w (record w { awake = w.awake - 1; asleep = w.asleep + 1 })
  passes :
      {e : SyncEvent}
      → 0 < w.awake
      → try_wait w.event ≡ some e
      → Move w (record w { event = e; awake = w.awake - 1; returned = w.returned + 1 })
  -- A condition variable may wake a thread for no reason.
  wakes : 0 < w.asleep → Move w (record w { asleep = w.asleep - 1; awake = w.awake + 1 })
  -- A thread calls `TimedWait`, and finds a value.
  timed_passes :
      {e : SyncEvent} (signalled : Bool)
      → w.event.value ≢ 0
      → timed_wait w.event signalled ≡ (e, true)
      → Move w (record w { event = e; timed = w.timed + 1 })
  -- A thread calls `TimedWait`, and goes to sleep; what it does to the event does not depend on
  -- what will wake it.
  timed_sleeps :
      {e : SyncEvent} {in_time : Bool} (signalled : Bool)
      → w.event.value ≡ 0
      → timed_wait w.event signalled ≡ (e, in_time)
      → Move w (record w { event = e; timed_asleep = w.timed_asleep + 1 })
  -- The time of a sleeper is over, or it wakes for no reason: `TimedWait` returns.
  timed_returns : 0 < w.timed_asleep → Move w (record w { timed_asleep = w.timed_asleep - 1 })
  -- All sleepers wake: those in `TimedWait` return.
  notifies :
      {e : SyncEvent}
      → notify w.event ≡ ok e
      → Move w (record w {
        event = e;
        asleep = 0;
        awake = w.awake + w.asleep;
        timed_asleep = 0;
        notified = w.notified + 1;
      })

pub data Moves (w : Waiters) : Waiters → Type 0 where
  stays : Moves w w
  moves : {v u : Waiters} → Moves w v → Move v u → Moves w u

abbrev pub nobody : Bool → Waiters
nobody auto_reset = record {
  event = new_sync_event auto_reset;
  asleep = 0;
  awake = 0;
  timed_asleep = 0;
  returned = 0;
  timed = 0;
  notified = 0;
}

pub record IsFair (auto_reset : Bool) (w : Waiters) : Type 0 where
  pub kind : w.event.auto_reset ≡ auto_reset
  pub no_sleeper : (w.asleep + w.timed_asleep ≡ 0) ⊎ (w.event.value ≡ 0)
  pub in_range : w.event.value ≤ int32_max
  pub counted : w.returned + w.timed + w.event.value ≤ w.notified
  pub exact : auto_reset ≡ false → w.returned + w.timed + w.event.value ≡ w.notified

Move-IsFair :
    (auto_reset : Bool) {w v : Waiters} → Move w v → IsFair auto_reset w → IsFair auto_reset v
unfolding try_wait timed_wait notify
Move-IsFair auto_reset enters f = record {
  kind = f.kind;
  no_sleeper = f.no_sleeper;
  in_range = f.in_range;
  counted = f.counted;
  exact = f.exact;
}
Move-IsFair auto_reset {w} (sleeps some_awake clear) f = record {
  kind = f.kind;
  no_sleeper = inr (ground arith);
  in_range = f.in_range;
  counted = f.counted;
  exact = f.exact;
}
Move-IsFair auto_reset {w} (passes {e} some_awake set) f = record {
  kind = ground (arith, f.kind);
  no_sleeper = elim f.no_sleeper [
    | inl nobody_sleeps ↦ inl nobody_sleeps
    | inr clear ↦ absurd (ground arith)
  ];
  in_range = ground (arith, f.in_range);
  counted = ground (arith, f.counted);
  exact = λ k. ground (arith, f.exact k, f.kind);
}
Move-IsFair auto_reset {w} (wakes sleeper) f = record {
  kind = f.kind;
  no_sleeper = elim f.no_sleeper [
    | inl nobody_sleeps ↦ absurd (omega arith)
    | inr clear ↦ inr clear
  ];
  in_range = f.in_range;
  counted = f.counted;
  exact = f.exact;
}
Move-IsFair auto_reset {w} (timed_passes {e} signalled set taken) f = record {
  kind = ground (arith, f.kind);
  no_sleeper = elim f.no_sleeper [
    | inl nobody_sleeps ↦ inl nobody_sleeps
    | inr clear ↦ absurd (set clear)
  ];
  in_range = ground (arith, f.in_range);
  counted = ground (arith, f.counted);
  exact = λ k. ground (arith, f.exact k, f.kind);
}
Move-IsFair auto_reset {w} (timed_sleeps {e} signalled clear left) f = record {
  kind = ground (arith, f.kind);
  no_sleeper = inr (ground arith);
  in_range = ground (arith, f.in_range);
  counted = ground (arith, f.counted);
  exact = λ k. ground (arith, f.exact k);
}
Move-IsFair auto_reset {w} (timed_returns sleeper) f = record {
  kind = f.kind;
  no_sleeper = elim f.no_sleeper [
    | inl nobody_sleeps ↦ absurd (omega arith)
    | inr clear ↦ inr clear
  ];
  in_range = f.in_range;
  counted = f.counted;
  exact = f.exact;
}
Move-IsFair auto_reset (notifies {e} done) f = record {
  kind = ground (arith, f.kind);
  no_sleeper = inl refl;
  in_range = ground (arith, f.in_range);
  counted = ground (arith, f.counted);
  exact = λ k. ground (arith, f.exact k);
}

-- Along every history of the threads that wait for a SyncEvent by `Wait` or `TimedWait`, and of those
-- that notify it, in which no notification finds the largest int32: no thread sleeps while the value
-- is not 0, the value is an int32, and the calls of `Wait` that returned and those of `TimedWait`
-- that found a value are no more than the notifications; without automatic reset the value is
-- exactly what is left of them.
pub nobody-IsFair :
    (auto_reset : Bool) {w : Waiters} → Moves (nobody auto_reset) w → IsFair auto_reset w
nobody-IsFair auto_reset stays = record {
  kind = refl;
  no_sleeper = inl refl;
  in_range = omega arith;
  counted = omega arith;
  exact = λ k. refl;
}
nobody-IsFair auto_reset (moves ms m) = Move-IsFair auto_reset m (nobody-IsFair auto_reset ms)
