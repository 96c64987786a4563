-- ===== src/Dispatcher/Posting/Running.antt =====
-- The loop of rpc/detail/network_dispatcher.cc runs what was posted, with the pointers to the channels.
use gboost_rpc.Base.{
  ℕ, ◌+◌, ◌-◌, ◌≤◌, ◌<◌, ◌≡◌, refl, ◌==◌, if◌then◌else◌, not, ◌&&◌, map, Bool-cases, Option-cases,
  inl, inr, none, List, [], ◌∷◌, ◌++◌, length, ok, arith,
}
use gboost_rpc.Base.Assoc.{lookup}
use gboost_rpc.Dispatcher.{
  Counts, Order, start_to_read, terminate, Dispatcher, close_all_channels_in_loop,
}
use gboost_rpc.Dispatcher.Pool.{pooled, Kept}
use gboost_rpc.Dispatcher.Starting.{
  start_channel_in_loop-Kept, start_channel_in_loop-insert, start_channel_in_loop-length,
}
use gboost_rpc.Dispatcher.Lifetime.{Channels, drop_one}
use gboost_rpc.Dispatcher.Posting.{
  Posted, start_channel, terminate_channel, close_all_channels, terminate_channel_in_loop,
  run_posted, run_all, queued, IsReady, asked, started, reads, Ran,
}

pooled-none : (p : Dispatcher) (a : ℕ) → pooled p a ≡ 0 → lookup a p.channel_pool ≡ none
pooled-none p a e = elim (Option-cases (lookup a p.channel_pool)) [
  | inl gone ↦ gone
  | inr (b, found) ↦ absurd (ground (arith, found, e))
]

Kept-as :
    (held held' : ℕ → ℕ) (p : Dispatcher) (counts : Counts)
    → ((b : ℕ) → held b ≡ held' b)
    → Kept held p counts
    → Kept held' p counts
Kept-as held held' p counts same k = record {
  pool = k.pool;
  counted = λ b. ground (arith, same b, k.counted b);
}

-- After a channel was started: the others are as they were.
IsReady_others :
    (p p' : Dispatcher) (held held' : ℕ → ℕ) (a n : ℕ) (queue : List Posted)
    → queued queue a ≡ 0
    → ((b : ℕ) → pooled p' b ≡ (if a == b then n else pooled p b))
    → ((b : ℕ) → held b ≤ held' b)
    → IsReady p held queue
    → IsReady p' held' queue
IsReady_others p p' held held' a n [] apart pool more r = tt
IsReady_others p p' held held' a n (start_channel b ∷ queue) apart pool more (new, once, r) = (
  ground (arith, pool b, apart, new),
  once,
  IsReady_others p p' held held' a n queue (ground (arith, apart)) pool more r,
)
IsReady_others p p' held held' a n (terminate_channel b ∷ queue) apart pool more (alive, r) =
    (omega (arith, alive, more b), IsReady_others p p' held held' a n queue apart pool more r)
IsReady_others p p' held held' a n (close_all_channels ∷ queue) apart pool more r =
    IsReady_others p p' held held' a n queue apart pool more r

reads-append :
    (orders others : List Order) (b : ℕ)
    → reads (orders ++ others) b ≡ reads orders b + reads others b
reads-append [] others b = omega arith
reads-append (start_to_read a ∷ orders) others b = ground (arith, reads-append orders others b)
reads-append (terminate a ∷ orders) others b = reads-append orders others b

reads-terminate :
    (pool : List (ℕ × ℕ)) (b : ℕ) → reads (map (λ (entry : ℕ × ℕ). terminate entry.1) pool) b ≡ 0
reads-terminate [] b = refl
reads-terminate (entry ∷ pool) b = reads-terminate pool b

-- What is added for a channel that is started: one, unless the pool is full.
abbrev added : Dispatcher → ℕ → ℕ → ℕ
added p a b = if b == a && not (length p.channel_pool == p.num_channels_threshold) then 1 else 0

-- What the handler of `StartChannel` leaves.
record StartedOne (p : Dispatcher) (counts : Counts) (held : ℕ → ℕ) (a : ℕ) (queue : List Posted)
    : Type 0 where
  next : Dispatcher
  counts' : Counts
  orders : List Order
  returns : run_posted (start_channel a) p counts ≡ ok (next, counts', orders)
  exact : Kept (λ b. held b + added p a b + queued queue b) next counts'
  saved : (b : ℕ) → pooled next b ≡ pooled p b + added p a b
  read : (b : ℕ) → reads orders b ≡ added p a b
  told :
      orders ++ asked next.num_channels_threshold next.channel_pool queue
      ≡ asked p.num_channels_threshold p.channel_pool (start_channel a ∷ queue)
  others :
      (b : ℕ)
      → added p a b + started next.num_channels_threshold (length next.channel_pool) queue b
        ≡ started p.num_channels_threshold (length p.channel_pool) (start_channel a ∷ queue) b

start_channel-StartedOne :
    (p : Dispatcher) (counts : Counts) (held : ℕ → ℕ) (a : ℕ) (queue : List Posted)
    → Kept (λ b. held b + queued (start_channel a ∷ queue) b) p counts
    → pooled p a ≡ 0
    → StartedOne p counts held a queue
unfolding run_posted
start_channel-StartedOne p counts held a queue k new =
    let all = λ (b : ℕ). held b + queued (start_channel a ∷ queue) b in
    let gone = pooled-none p a new in
    let (p', counts', ran, kept, pool) =
      start_channel_in_loop-Kept p counts all k a gone (ground arith) in
    let (bound, entered) = start_channel_in_loop-insert p counts a gone ran in
    let size = start_channel_in_loop-length p counts a gone ran in
    let full = length p.channel_pool == p.num_channels_threshold in
    let now : ℕ → ℕ = λ b. if b == a && not full then all b + 1 else all b in
    let l : Channels = record { dispatcher = p'; counts = counts'; held = now } in
    let (counts'', dropped, kept') = drop_one l kept a (now a - 1) (ground arith) in
    record {
      next = p';
      counts' = counts'';
      orders = (if full then terminate a else start_to_read a) ∷ [];
      returns = rw (run_posted, ran, dropped) refl;
      exact = Kept-as _ _ p' counts'' (λ b. ground arith) kept';
      saved = λ b. ground (arith, pool b, new);
      read = λ b. ground arith;
      told = elim (Bool-cases full) [
        | inl no_room ↦ rw (bound, entered) (ground (arith, no_room))
        | inr room ↦ rw (bound, entered) (ground (arith, room))
      ];
      others = λ b. elim (Bool-cases full) [
        | inl no_room ↦ rw (bound, size) (ground (arith, no_room))
        | inr room ↦ rw (bound, size) (ground (arith, room))
      ];
    }

terminate_channel-alive :
    (p : Dispatcher) (counts : Counts) (held : ℕ → ℕ) (a : ℕ)
    → Kept held p counts
    → 0 < held a
    → run_posted (terminate_channel a) p counts ≡ ok (p, counts, terminate a ∷ [])
unfolding run_posted terminate_channel_in_loop
terminate_channel-alive p counts held a k alive = ground (arith, k.counted a, alive)

run_all-next :
    (f : Posted) (queue : List Posted) (p : Dispatcher) (counts : Counts) {p' : Dispatcher}
    {counts' : Counts} {orders : List Order} {last : Dispatcher} {left : Counts}
    {others : List Order}
    → run_posted f p counts ≡ ok (p', counts', orders)
    → run_all queue p' counts' ≡ ok (last, left, others)
    → run_all (f ∷ queue) p counts ≡ ok (last, left, orders ++ others)
unfolding run_all
run_all-next f queue p counts ran rest = rw (run_all, ran, rest) refl

start_channel-Ran :
    (p : Dispatcher) (counts : Counts) (held : ℕ → ℕ) (a : ℕ) (queue : List Posted)
    (one : StartedOne p counts held a queue)
    → Ran queue one.next (λ b. held b + added p a b) (run_all queue one.next one.counts')
    → Ran (start_channel a ∷ queue) p held (run_all (start_channel a ∷ queue) p counts)
start_channel-Ran p counts held a queue one rest = record {
  dispatcher = rest.dispatcher;
  counts = rest.counts;
  orders = one.orders ++ rest.orders;
  told = rw rest.told one.told;
  returns = run_all-next (start_channel a) queue p counts one.returns rest.returns;
  exact = Kept-as _ _ rest.dispatcher rest.counts (λ b. omega (arith, one.others b)) rest.exact;
  saved = λ b. omega (arith, one.others b, one.saved b, rest.saved b);
  read = λ b.
      rw (reads-append one.orders rest.orders b)
        (omega (arith, one.others b, one.read b, rest.read b));
}

-- The loop runs the handlers that were posted, in any order, where the pool and every count are exact,
-- those of `StartChannel` holding a pointer each: if no channel is started that the pool has or that
-- is started twice, and something elsewhere points to each channel that is to be terminated, every
-- handler returns, none on a channel that is gone. A channel that finds room in the pool is read from,
-- one that does not is terminated, and so are, in the order of the handlers, those that
-- `TerminateChannel` names, and all of the pool where `Stop` or `AsyncStop` ends them. The channels that are started while the pool has
-- room are in the pool then, besides those that were; one read of each of them is started, and no
-- other; and every count is exact, the pointers being those elsewhere and one for each of these reads.
pub run_all-Ran :
    (queue : List Posted) (p : Dispatcher) (counts : Counts) (held : ℕ → ℕ)
    → Kept (λ b. held b + queued queue b) p counts
    → IsReady p held queue
    → Ran queue p held (run_all queue p counts)
unfolding run_all run_posted close_all_channels_in_loop
run_all-Ran [] p counts held k r = record {
  dispatcher = p;
  counts = counts;
  orders = [];
  told = refl;
  returns = refl;
  exact = k;
  saved = λ b. omega arith;
  read = λ b. refl;
}
run_all-Ran (start_channel a ∷ queue) p counts held k (new, once, r) =
    let one = start_channel-StartedOne p counts held a queue k new in
    let more : (b : ℕ) → held b ≤ held b + added p a b = λ b. omega arith in
    let pool : (b : ℕ) → pooled one.next b ≡ (if a == b then added p a a else pooled p b) =
      λ b. ground (arith, one.saved b, new) in
    let rest =
      run_all-Ran queue one.next one.counts' (λ b. held b + added p a b) one.exact
        (IsReady_others p one.next held (λ b. held b + added p a b) a (added p a a) queue once pool
          more r) in
    start_channel-Ran p counts held a queue one rest
run_all-Ran (terminate_channel a ∷ queue) p counts held k (alive, r) =
    let terminated = terminate_channel-alive p counts _ a k (omega (arith, alive)) in
    let rest = run_all-Ran queue p counts held k r in
    record {
      dispatcher = rest.dispatcher;
      counts = rest.counts;
      orders = terminate a ∷ rest.orders;
      told = rw rest.told refl;
      returns = run_all-next (terminate_channel a) queue p counts terminated rest.returns;
      exact = rest.exact;
      saved = rest.saved;
      read = rest.read;
    }
run_all-Ran (close_all_channels ∷ queue) p counts held k r =
    let rest = run_all-Ran queue p counts held k r in
    record {
      dispatcher = rest.dispatcher;
      counts = rest.counts;
      orders = close_all_channels_in_loop p ++ rest.orders;
      told = rw rest.told refl;
      returns = run_all-next close_all_channels queue p counts refl rest.returns;
      exact = rest.exact;
      saved = rest.saved;
      read = λ b.
          rw (reads-append (close_all_channels_in_loop p) rest.orders b)
            (omega (arith, reads-terminate p.channel_pool b, rest.read b));
    }
