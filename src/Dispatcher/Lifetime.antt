-- ===== src/Dispatcher/Lifetime.antt =====
-- The lifetimes of channels: rpc/detail/ref_count.h and the pool of rpc/detail/network_dispatcher.cc,
-- with the pointers of handlers and callers (boost::intrusive_ptr), in any order.
use gboost_rpc.Base.{
  ℕ, suc, ◌+◌, ◌-◌, ◌<◌, ◌≡◌, refl, sym, subst, ◌∙◌, ◌==◌, if◌then◌else◌, not, ◌&&◌, none, some,
  List, length, ok, ok-injective, arith,
}
use gboost_rpc.Base.Assoc.{lookup}
use gboost_rpc.Dispatcher.{
  Counts, set_count, ref, un_ref, Order, Dispatcher, new_dispatcher, release_channel,
  start_channel_in_loop,
}
use gboost_rpc.Dispatcher.Pool.{pooled, Kept, release_channel_lem}
use gboost_rpc.Dispatcher.Starting.{start_channel_in_loop-Kept}

-- A dispatcher with the channels that are there, and the pointers to each outside of the pool.
pub record Channels : Type 0 where
  pub dispatcher : Dispatcher
  pub counts : Counts
  pub held : ℕ → ℕ

abbrev pub with_held : (ℕ → ℕ) → ℕ → ℕ → ℕ → ℕ
with_held held a n = λ b. if b == a then n else held b

-- The read that is started holds a pointer, unless the pool is full.
abbrev pub held_started : Channels → ℕ → ℕ → ℕ
held_started l a = λ b.
    if b == a && not (length l.dispatcher.channel_pool == l.dispatcher.num_channels_threshold)
    then l.held b + 1
    else l.held b

-- What happens: a channel is made, with the pointer that adopts its first reference; a pointer is
-- copied, into a handler or elsewhere, or dropped; a channel that something points to is started in
-- the loop; a channel is released, by its cancellation.
pub data ChannelStep (l : Channels) : Channels → Type 0 where
  make :
      (a : ℕ)
      → l.counts a ≡ none
      → ChannelStep l
          (record l { counts = set_count l.counts a (some 1); held = with_held l.held a 1 })
  copy :
      (a : ℕ) {counts : Counts}
      → 0 < l.held a
      → ref l.counts a ≡ ok counts
      → ChannelStep l (record l { counts = counts; held = with_held l.held a (l.held a + 1) })
  drop_pointer :
      (a n : ℕ) {counts : Counts}
      → l.held a ≡ suc n
      → un_ref l.counts a ≡ ok counts
      → ChannelStep l (record l { counts = counts; held = with_held l.held a n })
  start :
      (a : ℕ) {p : Dispatcher} {counts : Counts} {orders : List Order}
      → lookup a l.dispatcher.channel_pool ≡ none
      → 0 < l.held a
      → start_channel_in_loop l.dispatcher l.counts a ≡ ok (p, counts, orders)
      → ChannelStep l (record { dispatcher = p; counts = counts; held = held_started l a })
  release :
      (a : ℕ) {p : Dispatcher} {counts : Counts}
      → release_channel l.dispatcher l.counts a ≡ ok (p, counts)
      → ChannelStep l (record l { dispatcher = p; counts = counts })

pub data ChannelReach (l : Channels) : Channels → Type 0 where
  here : ChannelReach l l
  next : {m n : Channels} → ChannelReach l m → ChannelStep m n → ChannelReach l n

abbrev pub IsAlive : Channels → Type 0
IsAlive l = Kept l.held l.dispatcher l.counts

module _ (l : Channels) (k : IsAlive l) (a : ℕ) where
  make-Kept :
      l.counts a ≡ none → Kept (with_held l.held a 1) l.dispatcher (set_count l.counts a (some 1))
  make-Kept gone = record { pool = k.pool; counted = λ b. ground (arith, k.counted b, gone) }

  copy_pointer :
      0 < l.held a
      → (counts : Counts) × (ref l.counts a ≡ ok counts)
        × Kept (with_held l.held a (l.held a + 1)) l.dispatcher counts
  unfolding ref
  copy_pointer alive = (
    set_count l.counts a (some (pooled l.dispatcher a + l.held a + 1)),
    ground (arith, k.counted a),
    record { pool = k.pool; counted = λ b. ground (arith, k.counted b) },
  )

  pub drop_one :
      (n : ℕ)
      → l.held a ≡ suc n
      → (counts : Counts) × (un_ref l.counts a ≡ ok counts)
        × Kept (with_held l.held a n) l.dispatcher counts
  unfolding un_ref
  drop_one n some_held = (
    set_count l.counts a
        (if pooled l.dispatcher a + n == 0 then none else some (pooled l.dispatcher a + n)),
    ground (arith, k.counted a),
    record { pool = k.pool; counted = λ b. ground (arith, k.counted b) },
  )

Step-IsAlive : {l m : Channels} → ChannelStep l m → IsAlive l → IsAlive m
Step-IsAlive {l} (make a gone) k = make-Kept l k a gone
Step-IsAlive {l} (copy a alive e) k =
    let (counts, f, kept) = copy_pointer l k a alive in
    subst (λ c. Kept (with_held l.held a (l.held a + 1)) l.dispatcher c) (ok-injective (sym f ∙ e))
      kept
Step-IsAlive {l} (drop_pointer a n some_held e) k =
    let (counts, f, kept) = drop_one l k a n some_held in
    subst (λ c. Kept (with_held l.held a n) l.dispatcher c) (ok-injective (sym f ∙ e)) kept
Step-IsAlive {l} (start a new alive e) k =
    let (p, counts, f, kept, pool) =
      start_channel_in_loop-Kept l.dispatcher l.counts l.held k a new alive in
    subst (λ (r : Dispatcher × Counts × List Order). Kept (held_started l a) r.0 r.1)
      (ok-injective (sym f ∙ e)) kept
Step-IsAlive {l} (release a e) k =
    let (p, counts, f, kept, pool) = release_channel_lem l.dispatcher l.counts l.held k a in
    subst (λ (r : Dispatcher × Counts). Kept l.held r.0 r.1) (ok-injective (sym f ∙ e)) kept

Reach-IsAlive : {l m : Channels} → ChannelReach l m → IsAlive l → IsAlive m
Reach-IsAlive here k = k
Reach-IsAlive (next r s) k = Step-IsAlive s (Reach-IsAlive r k)

-- A dispatcher without channels.
abbrev pub no_channels : ℕ → Channels
no_channels threshold = record {
  dispatcher = new_dispatcher threshold;
  counts = λ b. none;
  held = λ b. 0;
}

-- The pool and the counts are exact, and no operation is a fault: a copy or a drop of a pointer that is
-- there, the start of a channel that a pointer is to and that the pool does not have, any release.
pub record Usable (m : Channels) : Type 0 where
  pub exact : Kept m.held m.dispatcher m.counts
  pub copies : (a : ℕ) → 0 < m.held a → (counts : Counts) × (ref m.counts a ≡ ok counts)
  pub drops : (a : ℕ) → 0 < m.held a → (counts : Counts) × (un_ref m.counts a ≡ ok counts)
  pub starts :
      (a : ℕ)
      → lookup a m.dispatcher.channel_pool ≡ none
      → 0 < m.held a
      → (p : Dispatcher) × (counts : Counts) × (orders : List Order) × (start_channel_in_loop
            m.dispatcher m.counts a
          ≡ ok (p, counts, orders))
  pub releases :
      (a : ℕ)
      → (p : Dispatcher) × (counts : Counts) × (release_channel m.dispatcher m.counts a
          ≡ ok (p, counts))

-- Along every history of a dispatcher that begins without channels, in which channels are made, pointers
-- to them copied and dropped, and channels started and released, in any order: a channel is there
-- exactly as long as the pool or a pointer refers to it, with the number of the references as its
-- count, and the pool is in order and within its bound. From there the operations return again: a
-- pointer is copied and dropped, of any channel that something outside of the pool points to;
-- `StartChannelInLoop`, of such a channel, if the pool does not have it; `ReleaseChannel`, of any.
pub no_channels-Usable :
    (threshold : ℕ) {m : Channels} → ChannelReach (no_channels threshold) m → Usable m
no_channels-Usable threshold {m} r =
    let k : IsAlive m =
      Reach-IsAlive r
        (record { pool = record { sorted = tt; bounded = omega arith }; counted = λ b. refl }) in
    record {
      exact = k;
      copies = λ a alive. let (counts, e, kept) = copy_pointer m k a alive in (counts, e);
      drops = λ a alive.
          let (counts, e, kept) = drop_one m k a (m.held a - 1) (omega (arith, alive)) in
          (counts, e);
      starts = λ a new alive.
          let (p, counts, e, kept, pool) =
            start_channel_in_loop-Kept m.dispatcher m.counts m.held k a new alive in
          (p, counts, _, e);
      releases = λ a.
          let (p, counts, e, kept, pool) = release_channel_lem m.dispatcher m.counts m.held k a in
          (p, counts, e);
    }
