-- ===== src/Dispatcher/Posting.antt =====
-- What is posted to a dispatcher (rpc/detail/network_dispatcher.h, network_dispatcher.cc): StartChannel,
-- TerminateChannel and the end of all channels, as the loop runs it.
pub mod Running
use gboost_rpc.Base.{
  ℕ, ◌+◌, ◌-◌, ◌≤◌, ◌<◌, ◌≡◌, refl, ◌==◌, if◌then◌else◌, not, ◌&&◌, map, Bool-cases, Option-cases,
  inl, inr, false, none, some, List, [], ◌∷◌, ◌++◌, length, Outcome, ok, fatal, ◌>>=◌, arith,
}
use gboost_rpc.Base.Assoc.{lookup, insert}
use gboost_rpc.Dispatcher.{
  Counts, un_ref, Order, start_to_read, terminate, Dispatcher, start_channel_in_loop,
  close_all_channels_in_loop,
}
use gboost_rpc.Dispatcher.Pool.{pooled, Kept}
use gboost_rpc.Dispatcher.Starting.{start_channel_in_loop-Kept, start_channel_in_loop-length}
use gboost_rpc.Dispatcher.Lifetime.{Channels, drop_one}

-- A handler in the queue: that of `StartChannel` holds a pointer to the channel, that of
-- `TerminateChannel` an address, and `Stop` and `AsyncStop` post the third.
pub data Posted : Type 0 where
  start_channel terminate_channel : ℕ → Posted
  close_all_channels : Posted

-- `Post`, from another thread than the loop's.
abbrev pub post : Posted → List Posted → List Posted
post f queue = queue ++ f ∷ []

-- `TerminateChannelInLoop`
unfoldable pub terminate_channel_in_loop : Counts → ℕ → Outcome (List Order)
terminate_channel_in_loop counts a = elim (counts a) [
  | none ↦ fatal
  | some n ↦ ok (terminate a ∷ [])
]

-- `Clear`
abbrev pub clear_dispatcher : Dispatcher → Dispatcher
clear_dispatcher p = record p { need_stop = false }

-- The loop runs a handler, and deletes it with its pointer.
unfoldable pub run_posted :
    Posted → Dispatcher → Counts → Outcome (Dispatcher × Counts × List Order)
unfolding start_channel_in_loop terminate_channel_in_loop close_all_channels_in_loop un_ref
run_posted (start_channel a) p counts = do
  (p', counts', orders) ← start_channel_in_loop p counts a
  counts'' ← un_ref counts' a
  ok (p', counts'', orders)
run_posted (terminate_channel a) p counts = do
  orders ← terminate_channel_in_loop counts a
  ok (p, counts, orders)
run_posted close_all_channels p counts = ok (p, counts, close_all_channels_in_loop p)

unfoldable pub run_all :
    List Posted → Dispatcher → Counts → Outcome (Dispatcher × Counts × List Order)
unfolding run_posted
run_all [] p counts = ok (p, counts, [])
run_all (f ∷ queue) p counts = do
  (p', counts', orders) ← run_posted f p counts
  (last, left, others) ← run_all queue p' counts'
  ok (last, left, orders ++ others)

-- The pointers to a channel that the queue holds.
abbrev pub queued : List Posted → ℕ → ℕ
queued [] b = 0
queued (start_channel a ∷ queue) b = (if b == a then 1 else 0) + queued queue b
queued (terminate_channel a ∷ queue) b = queued queue b
queued (close_all_channels ∷ queue) b = queued queue b

-- A channel that is to be started is not in the pool, and is posted once; one that is to be terminated
-- is held elsewhere.
abbrev pub IsReady : Dispatcher → (ℕ → ℕ) → List Posted → Type 0
IsReady p held [] = Unit
IsReady p held (start_channel a ∷ queue) =
    (pooled p a ≡ 0) × (queued queue a ≡ 0) × IsReady p held queue
IsReady p held (terminate_channel a ∷ queue) = (0 < held a) × IsReady p held queue
IsReady p held (close_all_channels ∷ queue) = IsReady p held queue

-- The channels that the handlers of a queue save in a pool with `size` channels and a bound: those of
-- `StartChannel`, while there is room.
abbrev pub started : (threshold size : ℕ) → List Posted → ℕ → ℕ
started threshold size [] b = 0
started threshold size (start_channel a ∷ queue) b =
    let full = started threshold size queue b in
    let free = (if b == a then 1 else 0) + started threshold (size + 1) queue b in
    if size == threshold then full else free
started threshold size (terminate_channel a ∷ queue) b = started threshold size queue b
started threshold size (close_all_channels ∷ queue) b = started threshold size queue b

-- What the handlers of a queue ask of the channels, in order: a channel that finds room in the pool is
-- read from, one that does not is terminated, and so is one that `TerminateChannel` names, and at the
-- end of all channels each of the pool.
abbrev pub asked : (threshold : ℕ) → List (ℕ × ℕ) → List Posted → List Order
asked threshold pool [] = []
asked threshold pool (start_channel a ∷ queue) =
    let full = terminate a ∷ asked threshold pool queue in
    let free = start_to_read a ∷ asked threshold (insert a a pool).0 queue in
    if length pool == threshold then full else free
asked threshold pool (terminate_channel a ∷ queue) = terminate a ∷ asked threshold pool queue
asked threshold pool (close_all_channels ∷ queue) =
    map (λ (entry : ℕ × ℕ). terminate entry.1) pool ++ asked threshold pool queue

-- The reads of a channel that are started.
abbrev pub reads : List Order → ℕ → ℕ
reads [] b = 0
reads (start_to_read a ∷ orders) b = (if b == a then 1 else 0) + reads orders b
reads (terminate a ∷ orders) b = reads orders b

-- What a run of the queue leaves: the channels are told what they have to be; those that found room
-- are in the pool, of each of them one read was started, and every count is exact, with one pointer
-- more for each read and no other.
pub record Ran (queue : List Posted) (p : Dispatcher) (held : ℕ → ℕ)
    (result : Outcome (Dispatcher × Counts × List Order)) : Type 0 where
  pub dispatcher : Dispatcher
  pub counts : Counts
  pub orders : List Order
  pub returns : result ≡ ok (dispatcher, counts, orders)
  pub told : orders ≡ asked p.num_channels_threshold p.channel_pool queue
  pub exact :
      Kept
        (λ b. held b + started p.num_channels_threshold (length p.channel_pool) queue b)
        dispatcher
        counts
  pub saved :
      (b : ℕ)
      → pooled dispatcher b
        ≡ pooled p b + started p.num_channels_threshold (length p.channel_pool) queue b
  pub read :
      (b : ℕ) → reads orders b ≡ started p.num_channels_threshold (length p.channel_pool) queue b
