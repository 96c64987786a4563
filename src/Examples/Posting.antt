-- ===== src/Examples/Posting.antt =====
-- A dispatcher with room for one channel, to which two are posted.
use gboost_rpc.Base.{ℕ, ◌+◌, refl, ◌==◌, ◌||◌, if◌then◌else◌, none, some, List, [], arith}
use gboost_rpc.Dispatcher.{Counts, new_dispatcher}
use gboost_rpc.Dispatcher.Pool.{Kept}
use gboost_rpc.Dispatcher.Posting.{
  Posted, start_channel, terminate_channel, close_all_channels, post, queued, run_all, Ran,
}
use gboost_rpc.Dispatcher.Posting.Running.{run_all-Ran}

-- Each of the two channels is held elsewhere, and by its handler.
abbrev held_once : ℕ → ℕ
held_once b = if b == 40 || b == 41 then 1 else 0

abbrev counted_twice : Counts
counted_twice b = if b == 40 || b == 41 then some 2 else none

abbrev posts : List Posted
posts = post close_all_channels (
    post (terminate_channel 40)
      (post (terminate_channel 41) (post (start_channel 41) (post (start_channel 40) []))))

posts-Kept : Kept (λ b. held_once b + queued posts b) (new_dispatcher 1) counted_twice
posts-Kept = record {
  pool = record { sorted = tt; bounded = omega arith };
  counted = λ b. ground arith;
}

run_all-Ran_example :
    Ran posts (new_dispatcher 1) held_once (run_all posts (new_dispatcher 1) counted_twice)
run_all-Ran_example =
    run_all-Ran posts (new_dispatcher 1) counted_twice held_once posts-Kept
      (refl, refl, (refl, refl, (omega arith, (omega arith, tt))))
