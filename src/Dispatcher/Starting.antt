-- ===== src/Dispatcher/Starting.antt =====
-- StartChannelInLoop of rpc/detail/network_dispatcher.cc.
use gboost_rpc.Base.{
  ℕ, ◌+◌, ◌<◌, ◌≡◌, ◌==◌, if◌then◌else◌, not, ◌&&◌, Bool-cases, none, some, List, [], ◌∷◌, length,
  inl, inr, ok, arith,
}
use gboost_rpc.Base.Assoc.{lookup, insert, insert_done, length-insert}
use gboost_rpc.Dispatcher.{
  Counts, set_count, ref, Dispatcher, start_to_read, terminate, start_channel_in_loop, save_channel,
  Order,
}
use gboost_rpc.Dispatcher.Pool.{pooled, Kept, save_channel_lem}

-- `StartChannelInLoop` of a channel that the caller refers to and that the pool does not have: a
-- full pool terminates it, and nothing refers to it that did not before; otherwise it is read from,
-- and the pool and the read that is started hold one reference each. Every count is exact.
pub start_channel_in_loop-Kept :
    (p : Dispatcher) (counts : Counts) (held : ℕ → ℕ)
    → Kept held p counts
    → (a : ℕ) → lookup a p.channel_pool ≡ none
    → 0 < held a
    → let full = length p.channel_pool == p.num_channels_threshold in
      (p' : Dispatcher) × (counts' : Counts) × (start_channel_in_loop p counts a
        ≡ ok (p', counts', (if full then terminate a else start_to_read a) ∷ []))
      × Kept (λ b. if b == a && not full then held b + 1 else held b) p' counts'
      × ((b : ℕ) → pooled p' b ≡ (if a == b then (if full then 0 else 1) else pooled p b))
unfolding start_channel_in_loop ref
start_channel_in_loop-Kept p counts held k a new alive =
    let (q, counts₁, saved, kept, pool) = save_channel_lem p counts held k a new alive in
    elim (Bool-cases (length p.channel_pool == p.num_channels_threshold)) [
      | inl full ↦ (
        q,
        counts₁,
        ground (arith, saved),
        record { pool = kept.pool; counted = λ b. ground (arith, kept.counted b) },
        pool,
      )
      | inr free ↦ (
        q,
        set_count counts₁ a (some (pooled q a + held a + 1)),
        ground (arith, saved, kept.counted a),
        record { pool = kept.pool; counted = λ b. ground (arith, kept.counted b) },
        pool,
      )
    ]

-- The bound of the pool stays, and the channel is entered in the pool, unless it was full.
pub start_channel_in_loop-insert :
    (p : Dispatcher) (counts : Counts) (a : ℕ) {p' : Dispatcher} {counts' : Counts}
    {orders : List Order}
    → lookup a p.channel_pool ≡ none
    → start_channel_in_loop p counts a ≡ ok (p', counts', orders)
    → (p'.num_channels_threshold ≡ p.num_channels_threshold)
      × (p'.channel_pool ≡ (
          if length p.channel_pool == p.num_channels_threshold
          then p.channel_pool
          else (insert a a p.channel_pool).0))
unfolding start_channel_in_loop save_channel ref
start_channel_in_loop-insert p counts a new e =
    elim (Bool-cases (length p.channel_pool == p.num_channels_threshold)) [
      | inl full ↦ (ground (arith, full, e), ground (arith, full, e))
      | inr free ↦
          let done = insert_done a a p.channel_pool new in
          (ground (arith, free, e, done), ground (arith, free, e, done))
    ]

-- So it grows by one.
pub start_channel_in_loop-length :
    (p : Dispatcher) (counts : Counts) (a : ℕ) {p' : Dispatcher} {counts' : Counts}
    {orders : List Order}
    → lookup a p.channel_pool ≡ none
    → start_channel_in_loop p counts a ≡ ok (p', counts', orders)
    → length p'.channel_pool ≡ (
        if length p.channel_pool == p.num_channels_threshold
        then length p.channel_pool
        else length p.channel_pool + 1)
start_channel_in_loop-length p counts a new e =
    let (bound, pool) = start_channel_in_loop-insert p counts a new e in
    rw pool (ground (arith, length-insert a a p.channel_pool new))
