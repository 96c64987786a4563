-- ===== src/Dispatcher.antt =====
-- rpc/detail/network_dispatcher.h, network_dispatcher.cc and ref_count.h: the channels of one event
-- loop, and the reference counts that keep them alive. What is posted runs in the loop, one at a
-- time.
pub mod Pool
pub mod Starting
pub mod Life
pub mod Lifetime
pub mod Posting
use gboost_rpc.Base.{
  ℕ, ◌+◌, ◌-◌, ◌==◌, leb, if◌then◌else◌, Bool, true, false, Option, none, some, List, [], ◌∷◌, ◌++◌,
  length, map, Outcome, ok, fatal, ◌>>=◌, ◌>>◌, check,
}
use gboost_rpc.Base.Assoc.{lookup, insert, erase}

-- The count of each channel object; `none` once it is deleted. An int32 that counts pointers in
-- memory does not wrap.
abbrev pub Counts : Type 0
Counts = ℕ → Option ℕ

abbrev pub set_count : Counts → ℕ → Option ℕ → Counts
set_count counts a o = λ b. if b == a then o else counts b

-- `RefCount::Ref`
unfoldable pub ref : Counts → ℕ → Outcome Counts
ref counts a = elim (counts a) [ none ↦ fatal | some n ↦ ok (set_count counts a (some (n + 1))) ]

-- `RefCount::UnRef`
unfoldable pub un_ref : Counts → ℕ → Outcome Counts
un_ref counts a = elim (counts a) [
  | none ↦ fatal
  | some n ↦ do check (leb 1 n); ok (set_count counts a (if n - 1 == 0 then none else some (n - 1)))
]

-- `channel_pool_` maps the address of a channel to the channel.
pub record Dispatcher : Type 0 where
  pub num_channels_threshold : ℕ
  pub need_stop : Bool
  pub channel_pool : List (ℕ × ℕ)

-- What a dispatcher asks of a channel: `StartToRead`, which binds one more reference to the
-- handler, and `TerminateInLoop`.
pub data Order : Type 0 where
  start_to_read terminate : ℕ → Order

-- `NetworkDispatcher(threshold)`
abbrev pub new_dispatcher : ℕ → Dispatcher
new_dispatcher threshold = record {
  num_channels_threshold = threshold;
  need_stop = false;
  channel_pool = [];
}

-- `SaveChannel`
unfoldable pub save_channel : Dispatcher → Counts → ℕ → Outcome (Dispatcher × Counts × Bool)
unfolding ref
save_channel p counts a =
    if length p.channel_pool == p.num_channels_threshold then ok (p, counts, false) else (do
      let (pool, inserted) = insert a a p.channel_pool
      check inserted
      counts' ← ref counts a
      ok (record p { channel_pool = pool }, counts', true))

-- `ReleaseChannel`
unfoldable pub release_channel : Dispatcher → Counts → ℕ → Outcome (Dispatcher × Counts)
unfolding un_ref
release_channel p counts a = elim (lookup a p.channel_pool) [
  | none ↦ ok (p, counts)
  | some b ↦ do
    counts' ← un_ref counts a
    ok (record p { channel_pool = erase a p.channel_pool }, counts')
]

-- `StartChannelInLoop`. The read that is started holds a reference.
unfoldable pub start_channel_in_loop :
    Dispatcher → Counts → ℕ → Outcome (Dispatcher × Counts × List Order)
unfolding save_channel
start_channel_in_loop p counts a = do
  (p', counts', saved) ← save_channel p counts a
  if saved
      then (do counts'' ← ref counts' a; ok (p', counts'', start_to_read a ∷ []))
      else ok (p', counts', terminate a ∷ [])

-- `CloseAllChannelsInLoop`
unfoldable pub close_all_channels_in_loop : Dispatcher → List Order
close_all_channels_in_loop p = map (λ (entry : ℕ × ℕ). terminate entry.1) p.channel_pool
