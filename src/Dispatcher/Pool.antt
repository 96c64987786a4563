-- ===== src/Dispatcher/Pool.antt =====
-- SaveChannel and ReleaseChannel of rpc/detail/network_dispatcher.cc: the pool and its references.
use gboost_rpc.Base.{
  ℕ, ◌+◌, ◌≤◌, ◌<◌, ◌≡◌, ◌==◌, if◌then◌else◌, true, false, none, some, length, Bool-cases,
  Option-cases, inl, inr, ok, arith,
}
use gboost_rpc.Base.Assoc.{
  lookup, insert, erase, IsAbove, lookup-insert, insert_done, insert-IsAbove, lookup-erase,
  erase-IsAbove, length-insert, length-erase,
}
use gboost_rpc.Dispatcher.{
  Counts, set_count, ref, un_ref, Dispatcher, save_channel, release_channel,
}

-- The references to a channel that the pool holds.
abbrev pub pooled : Dispatcher → ℕ → ℕ
pooled p a = elim (lookup a p.channel_pool) [ none ↦ 0 | some b ↦ 1 ]

-- A channel is there exactly as long as something refers to it, and its count is the number of
-- the references: that of the pool and those of handlers and callers, `held`.
abbrev pub IsCounted : Dispatcher → Counts → (ℕ → ℕ) → ℕ → Type 0
IsCounted p counts held a =
    counts a ≡ (if pooled p a + held a == 0 then none else some (pooled p a + held a))

pub record IsPool (p : Dispatcher) : Type 0 where
  pub sorted : IsAbove 0 p.channel_pool
  pub bounded : length p.channel_pool ≤ p.num_channels_threshold

-- The pool after a channel was entered, and after one was taken out.
pooled-insert :
    (p : Dispatcher) (a b : ℕ)
    → IsAbove 0 p.channel_pool
    → lookup a p.channel_pool ≡ none
    → pooled (record p { channel_pool = (insert a a p.channel_pool).0 }) b
      ≡ (if a == b then 1 else pooled p b)
pooled-insert p a b s new = rw (lookup-insert a b 0 a p.channel_pool s new, pooled) (ground arith)

pooled-erase :
    (p : Dispatcher) (a b : ℕ)
    → IsAbove 0 p.channel_pool
    → pooled (record p { channel_pool = erase a p.channel_pool }) b
      ≡ (if a == b then 0 else pooled p b)
pooled-erase p a b s = rw (lookup-erase a b 0 p.channel_pool s, pooled) (ground arith)

-- What an operation of the pool leaves: the bound, and every count exact.
pub record Kept (held : ℕ → ℕ) (p : Dispatcher) (counts : Counts) : Type 0 where
  pub pool : IsPool p
  pub counted : (b : ℕ) → IsCounted p counts held b

module _ (p : Dispatcher) (counts : Counts) (held : ℕ → ℕ) (k : Kept held p counts) (a : ℕ) where
  -- `ReleaseChannel` of any channel, where the pool is in order and within its bound and every count
  -- is exact: it returns, the pool gives up its reference to the channel if it has one and no other,
  -- and the pool and the counts are as they have to be, so that the channel is deleted exactly when
  -- nobody else refers to it.
  pub release_channel_lem :
      (p' : Dispatcher) × (counts' : Counts) × (release_channel p counts a ≡ ok (p', counts'))
      × Kept held p' counts'
      × ((b : ℕ) → pooled p' b ≡ (if a == b then 0 else pooled p b))
  unfolding release_channel un_ref
  release_channel_lem = elim (Option-cases (lookup a p.channel_pool)) [
    | inl gone ↦ (p, counts, rw (release_channel, gone), k, λ b. ground arith)
    | inr (b, here) ↦
        let q : Dispatcher = record p { channel_pool = erase a p.channel_pool } in
        (
          q,
          set_count counts a (if held a == 0 then none else some (held a)),
          ground (arith, k.counted a),
          record {
            pool = record {
              sorted = erase-IsAbove a 0 p.channel_pool k.pool.sorted;
              bounded = ground (arith, length-erase a p.channel_pool, k.pool.bounded);
            };
            counted = λ b. ground (arith, k.counted b, pooled-erase p a b k.pool.sorted);
          },
          λ b. pooled-erase p a b k.pool.sorted,
        )
  ]

  -- `SaveChannel` of a channel that the caller refers to and that the pool does not have: it returns,
  -- the channel is in the pool, which holds one reference more, exactly if the pool was not full, the
  -- other channels stay, the pool is within its bound, and every count is exact.
  pub save_channel_lem :
      lookup a p.channel_pool ≡ none
      → 0 < held a
      → (p' : Dispatcher) × (counts' : Counts) × (save_channel p counts a
          ≡ ok (
            p',
            counts',
            if length p.channel_pool == p.num_channels_threshold then false else true,
          ))
        × Kept held p' counts'
        × ((b : ℕ)
            → pooled p' b ≡ (
                if a == b
                then (if length p.channel_pool == p.num_channels_threshold then 0 else 1)
                else pooled p b))
  unfolding save_channel ref
  save_channel_lem new alive =
      elim (Bool-cases (length p.channel_pool == p.num_channels_threshold)) [
        | inl full ↦ (p, counts, rw (save_channel, full), k, λ b. ground arith)
        | inr free ↦
            let q : Dispatcher = record p { channel_pool = (insert a a p.channel_pool).0 } in
            let n = held a + 1 in
            (
              q,
              set_count counts a (some n),
              ground (arith, insert_done a a p.channel_pool new, k.counted a),
              record {
                pool = record {
                  sorted = insert-IsAbove a 0 a p.channel_pool (omega arith) k.pool.sorted;
                  bounded = ground (arith, length-insert a a p.channel_pool new, k.pool.bounded);
                };
                counted = λ b. ground (arith, k.counted b, pooled-insert p a b k.pool.sorted new);
              },
              λ b. ground (arith, pooled-insert p a b k.pool.sorted new),
            )
      ]
