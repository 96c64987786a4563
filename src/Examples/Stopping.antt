-- ===== src/Examples/Stopping.antt =====
-- A dispatcher whose loop is called and then stopped.
use gboost_rpc.Base.{◌≡◌, refl, true, false}
use gboost_rpc.Dispatcher.Life.{
  Life, notified, in_run, released, returned, new_life, keep_work, enter_run, handle, leave_run,
  notify_stopped, flag_stop, post_close, release_work, wait_stopped, begin_operation, end_operation,
  Lives, here, next,
}
use gboost_rpc.Dispatcher.Life.Stopping.{returned-notified}
use gboost_rpc.Dispatcher.Life.Idle.{PassesIdle, returned-PassesIdle}

abbrev waiting_stop : Life
waiting_stop = record {
  loop_at = in_run;
  stop_at = released;
  need_stop = true;
  keep_working = false;
  posted = 1;
  outstanding = 0;
  stopped = 0;
}

waiting_history : Lives new_life waiting_stop
waiting_history =
    next
      (next (next (next (next here (keep_work refl)) (enter_run refl refl)) (flag_stop refl))
        (post_close refl))
      (release_work refl)

abbrev stopped_life : Life
stopped_life = record waiting_stop { loop_at = notified; stop_at = returned; posted = 0 }

stopped_history : Lives new_life stopped_life
stopped_history =
    next
      (next (next (next waiting_history (handle 0 refl refl)) (leave_run refl refl refl refl))
        (notify_stopped refl))
      (wait_stopped 0 refl refl)

returned-notified_example : (stopped_life.loop_at ≡ notified) × (stopped_life.stopped ≡ 0)
returned-notified_example = returned-notified stopped_history refl

-- The loop runs while `Stop` has not begun, and an operation is begun and ended after.
abbrev running_life : Life
running_life = record new_life { loop_at = in_run; keep_working = true }

running_history : Lives new_life running_life
running_history = next (next here (keep_work refl)) (enter_run refl refl)

abbrev ended_life : Life
ended_life = record {
  loop_at = notified;
  stop_at = returned;
  need_stop = true;
  keep_working = false;
  posted = 0;
  outstanding = 0;
  stopped = 0;
}

ending_history : Lives running_life ended_life
ending_history =
    let stopping : Lives running_life (record running_life {
      stop_at = released;
      need_stop = true;
      keep_working = false;
      posted = 1;
      outstanding = 1;
    }) =
      next (next (next (next here begin_operation) (flag_stop refl)) (post_close refl))
        (release_work refl) in
    next
      (next
        (next
          (next (next (next stopping (end_operation 0 refl)) (handle 1 refl refl))
            (handle 0 refl refl))
          (leave_run refl refl refl refl))
        (notify_stopped refl))
      (wait_stopped 0 refl refl)

returned-PassesIdle_example : PassesIdle running_life ended_life
returned-PassesIdle_example = returned-PassesIdle running_history refl ending_history refl
