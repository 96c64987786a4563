-- ===== src/Dispatcher/Life/Stopping.antt =====
-- Stop of rpc/detail/network_dispatcher.h against Loop, in two threads.
use gboost_rpc.Base.{ℕ, ◌+◌, ◌≡◌, refl, Bool, true, false, arith}
use gboost_rpc.Dispatcher.Life.{
  Life, LoopAt, not_called, kept_work, in_run, run_ended, notified, StopAt, flagged, posted_close,
  released, returned, new_life, LifeStep, keep_work, skip_run, enter_run, handle, leave_run,
  notify_stopped, flag_stop, post_close, release_work, wait_stopped, async_post, async_release,
  begin_operation, end_operation, Lives, here, next,
}

-- How often the loop has notified, and `Stop` has taken a notification.
abbrev notices : LoopAt → ℕ
notices not_called = 0
notices kept_work = 0
notices in_run = 0
notices run_ended = 0
notices notified = 1

abbrev taken : StopAt → ℕ
taken not_called = 0
taken flagged = 0
taken posted_close = 0
taken released = 0
taken returned = 1

abbrev has_flagged : StopAt → Bool
has_flagged not_called = false
has_flagged flagged = true
has_flagged posted_close = true
has_flagged released = true
has_flagged returned = true

abbrev has_released : StopAt → Bool
has_released not_called = false
has_released flagged = false
has_released posted_close = false
has_released released = true
has_released returned = true

abbrev is_in_run : LoopAt → Bool
is_in_run not_called = false
is_in_run kept_work = false
is_in_run in_run = true
is_in_run run_ended = false
is_in_run notified = false

-- Notifications are counted; `Stop` sets the flag first; while `run` is entered, no work is kept once
-- `Stop` has released it.
pub record IsLife (l : Life) : Type 0 where
  pub counted : l.stopped + taken l.stop_at ≡ notices l.loop_at
  pub flag : has_flagged l.stop_at ≡ true → l.need_stop ≡ true
  pub unkept : has_released l.stop_at ≡ true → is_in_run l.loop_at ≡ true → l.keep_working ≡ false

released-flagged : (s : StopAt) → has_released s ≡ true → has_flagged s ≡ true
released-flagged s r = ground (arith, r)

LifeStep-IsLife : {l m : Life} → LifeStep l m → IsLife l → IsLife m
LifeStep-IsLife (keep_work a) v = record {
  counted = ground (arith, v.counted, a);
  flag = v.flag;
  unkept = λ r i. absurd cc;
}
LifeStep-IsLife (skip_run a b) v = record {
  counted = ground (arith, v.counted, a);
  flag = v.flag;
  unkept = λ r i. absurd cc;
}
LifeStep-IsLife {l} (enter_run a b) v = record {
  counted = ground (arith, v.counted, a);
  flag = v.flag;
  unkept = λ r i. absurd (ground (arith, v.flag (released-flagged l.stop_at r), b));
}
LifeStep-IsLife (handle n a b) v = record { counted = v.counted; flag = v.flag; unkept = v.unkept }
LifeStep-IsLife (leave_run a b c d) v = record {
  counted = ground (arith, v.counted, a);
  flag = v.flag;
  unkept = λ r i. absurd cc;
}
LifeStep-IsLife (notify_stopped a) v = record {
  counted = ground (arith, v.counted, a);
  flag = v.flag;
  unkept = λ r i. absurd cc;
}
LifeStep-IsLife (flag_stop a) v = record {
  counted = ground (arith, v.counted, a);
  flag = λ f. refl;
  unkept = λ r i. absurd cc;
}
LifeStep-IsLife (post_close a) v = record {
  counted = ground (arith, v.counted, a);
  flag = λ f. v.flag (ground (arith, a));
  unkept = λ r i. absurd cc;
}
LifeStep-IsLife (release_work a) v = record {
  counted = ground (arith, v.counted, a);
  flag = λ f. v.flag (ground (arith, a));
  unkept = λ r i. refl;
}
LifeStep-IsLife (wait_stopped n a b) v = record {
  counted = ground (arith, v.counted, a, b);
  flag = λ f. v.flag (ground (arith, a));
  unkept = λ r i. v.unkept (ground (arith, a)) i;
}
LifeStep-IsLife async_post v = record { counted = v.counted; flag = v.flag; unkept = v.unkept }
LifeStep-IsLife async_release v = record {
  counted = v.counted;
  flag = v.flag;
  unkept = λ r i. refl;
}
LifeStep-IsLife begin_operation v = record { counted = v.counted; flag = v.flag; unkept = v.unkept }
LifeStep-IsLife (end_operation n a) v = record {
  counted = v.counted;
  flag = v.flag;
  unkept = v.unkept;
}

Lives-IsLife : {l m : Life} → Lives l m → IsLife l → IsLife m
Lives-IsLife here v = v
Lives-IsLife (next r s) v = LifeStep-IsLife s (Lives-IsLife r v)

new_life-IsLife : IsLife new_life
new_life-IsLife = record { counted = refl; flag = λ f. absurd cc; unkept = λ r i. absurd cc }

-- However the lines of `Loop`, `Stop` and `AsyncStop` interleave, and whatever is posted: when `Stop`
-- has returned, `Loop` has ended, and its one notification is taken.
pub returned-notified :
    {m : Life} → Lives new_life m → m.stop_at ≡ returned → (m.loop_at ≡ notified) × (m.stopped ≡ 0)
returned-notified {m} r e =
    let v = Lives-IsLife r new_life-IsLife in
    let one : m.stopped + 1 ≡ notices m.loop_at = ground (arith, v.counted, e) in
    (ground (arith, one), ground (arith, one))

-- A state from which `Stop` returns.
abbrev pub Returns : Life → Type 0
Returns l = (m : Life) × Lives l m × (m.stop_at ≡ returned)
