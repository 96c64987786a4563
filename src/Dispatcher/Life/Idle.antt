-- ===== src/Dispatcher/Life/Idle.antt =====
-- What Stop of rpc/detail/network_dispatcher.h waits for: the end of `io_service_.run` in the loop.
use gboost_rpc.Base.{◌≡◌, refl, ◌⊎◌, inl, inr, false}
use gboost_rpc.Dispatcher.Life.{
  Life, in_run, returned, new_life, LifeStep, keep_work, skip_run, enter_run, handle, leave_run,
  notify_stopped, flag_stop, post_close, release_work, wait_stopped, async_post, async_release,
  begin_operation, end_operation, Lives, here, next,
}
use gboost_rpc.Dispatcher.Life.Stopping.{returned-notified}

-- A state in which `run` may return: no handler, no kept work, and no outstanding operation.
abbrev pub IsIdle : Life → Type 0
IsIdle l = (l.loop_at ≡ in_run) × (l.posted ≡ 0) × (l.keep_working ≡ false) × (l.outstanding ≡ 0)

step_out-IsIdle : {l m : Life} → LifeStep l m → l.loop_at ≡ in_run → (m.loop_at ≡ in_run) ⊎ IsIdle l
step_out-IsIdle (keep_work a) e = absurd cc
step_out-IsIdle (skip_run a b) e = absurd cc
step_out-IsIdle (enter_run a b) e = inl refl
step_out-IsIdle (handle n a b) e = inl e
step_out-IsIdle (leave_run a b c d) e = inr (a, b, c, d)
step_out-IsIdle (notify_stopped a) e = absurd cc
step_out-IsIdle (flag_stop a) e = inl e
step_out-IsIdle (post_close a) e = inl e
step_out-IsIdle (release_work a) e = inl e
step_out-IsIdle (wait_stopped n a b) e = inl e
step_out-IsIdle async_post e = inl e
step_out-IsIdle async_release e = inl e
step_out-IsIdle begin_operation e = inl e
step_out-IsIdle (end_operation n a) e = inl e

-- A history passes an idle state.
abbrev pub PassesIdle : Life → Life → Type 0
PassesIdle l m = (k : Life) × Lives l k × IsIdle k × Lives k m

out-PassesIdle :
    {l m : Life} → Lives l m → l.loop_at ≡ in_run → (m.loop_at ≡ in_run) ⊎ PassesIdle l m
out-PassesIdle here e = inl e
out-PassesIdle (next {m} r t) e = elim (out-PassesIdle r e) [
  | inl inside ↦ elim (step_out-IsIdle t inside) [
    | inl still ↦ inl still
    | inr idle ↦ inr (m, r, idle, next here t)
  ]
  | inr (j, before, idle, after) ↦ inr (j, before, idle, next after t)
]

join-Lives : {l m n : Life} → Lives l m → Lives m n → Lives l n
join-Lives r here = r
join-Lives r (next s t) = next (join-Lives r s) t

-- While the loop is in `run`, at any point of any history of the lines of `Loop`, `Stop` and
-- `AsyncStop`: if `Stop` has returned at a later point, then the loop was between the two, still in
-- `run`, in a state without a handler, without kept work and without an outstanding asynchronous
-- operation.
pub returned-PassesIdle :
    {l m : Life}
    → Lives new_life l
    → l.loop_at ≡ in_run
    → Lives l m
    → m.stop_at ≡ returned
    → PassesIdle l m
returned-PassesIdle {l} {m} r e s back = elim (out-PassesIdle s e) [
  | inl inside ↦ let (ended, taken_all) = returned-notified (join-Lives r s) back in absurd cc
  | inr passes ↦ passes
]
