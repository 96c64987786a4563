-- ===== src/Dispatcher/Life.antt =====
-- Loop, RunOnce, Stop and AsyncStop of rpc/detail/network_dispatcher.h, line by line, in the thread that
-- runs the loop and in those that stop it, with one call of Stop. `io_service_.run` returns when it has
-- no handler, no work is kept, and no asynchronous operation is outstanding: a read, a write, an
-- accept, or the wait for signals. `dispatch`, from another thread, queues the handler, and so does
-- the end of an operation.
pub mod Stopping
pub mod Idle
use gboost_rpc.Base.{ℕ, suc, ◌+◌, ◌≡◌, Bool, true, false, not, Outcome, ok, ◌>>◌, check}

-- Where `Loop` is: not called, behind the line that keeps work, in `run`, behind `RunOnce`, ended.
pub data LoopAt : Type 0 where
  not_called kept_work in_run run_ended notified : LoopAt

-- Where `Stop` is: not called, behind each of its lines, returned.
pub data StopAt : Type 0 where
  not_called flagged posted_close released returned : StopAt

-- `keep_working_` is set or not, `posted` counts the handlers in the queue of `io_service_`,
-- `outstanding` its asynchronous operations that have not ended, and `stopped` is the value of the
-- semaphore `stopped_`.
pub record Life : Type 0 where
  pub loop_at : LoopAt
  pub stop_at : StopAt
  pub need_stop : Bool
  pub keep_working : Bool
  pub posted : ℕ
  pub outstanding : ℕ
  pub stopped : ℕ

abbrev pub new_life : Life
new_life = record {
  loop_at = not_called;
  stop_at = not_called;
  need_stop = false;
  keep_working = false;
  posted = 0;
  outstanding = 0;
  stopped = 0;
}

-- `LoopInAnotherThread`, by whether `loop_thread_` is set.
unfoldable pub loop_in_another_thread : Bool → Outcome Bool
loop_in_another_thread loop_thread = check (not loop_thread) >> ok true

-- The lines of the loop's thread, the lines of `Stop`, the two lines of `AsyncStop`, the posts of
-- others, and asynchronous operations: a handler or another thread begins one, and it ends, cancelled
-- or not, with a handler in the queue.
pub data LifeStep (l : Life) : Life → Type 0 where
  keep_work :
      l.loop_at ≡ not_called → LifeStep l (record l { loop_at = kept_work; keep_working = true })
  skip_run :
      l.loop_at ≡ kept_work → l.need_stop ≡ true → LifeStep l (record l { loop_at = run_ended })
  enter_run :
      l.loop_at ≡ kept_work → l.need_stop ≡ false → LifeStep l (record l { loop_at = in_run })
  handle : (n : ℕ) → l.loop_at ≡ in_run → l.posted ≡ suc n → LifeStep l (record l { posted = n })
  leave_run :
      l.loop_at ≡ in_run
      → l.posted ≡ 0
      → l.keep_working ≡ false
      → l.outstanding ≡ 0
      → LifeStep l (record l { loop_at = run_ended })
  notify_stopped :
      l.loop_at ≡ run_ended → LifeStep l (record l { loop_at = notified; stopped = l.stopped + 1 })
  flag_stop : l.stop_at ≡ not_called → LifeStep l (record l { stop_at = flagged; need_stop = true })
  post_close :
      l.stop_at ≡ flagged → LifeStep l (record l { stop_at = posted_close; posted = l.posted + 1 })
  release_work :
      l.stop_at ≡ posted_close → LifeStep l (record l { stop_at = released; keep_working = false })
  wait_stopped :
      (n : ℕ)
      → l.stop_at ≡ released
      → l.stopped ≡ suc n
      → LifeStep l (record l { stop_at = returned; stopped = n })
  async_post : LifeStep l (record l { posted = l.posted + 1 })
  async_release : LifeStep l (record l { keep_working = false })
  begin_operation : LifeStep l (record l { outstanding = l.outstanding + 1 })
  end_operation :
      (n : ℕ)
      → l.outstanding ≡ suc n
      → LifeStep l (record l { outstanding = n; posted = l.posted + 1 })

pub data Lives (l : Life) : Life → Type 0 where
  here : Lives l l
  next : {m n : Life} → Lives l m → LifeStep m n → Lives l n
