-- ===== src/RpcChannel/InOrder.antt =====
-- SendInLoop and Written of rpc/detail/rpc_channel.cc on a queue in order.
use gboost_rpc.Base.{
  ℕ, ◌≡◌, refl, ◌==◌, if◌then◌else◌, true, false, none, some, List, [], ◌∷◌, ◌++◌, map, length,
  Outcome, ok, arith,
}
use gboost_rpc.Protocol.{Protobuf}
use gboost_rpc.RpcData.{RpcData, Buffer, held}
use gboost_rpc.Heap.{Heap, store, contains, AllDistinct}
use gboost_rpc.RpcChannel.{RpcChannel, Action, write_started}
use gboost_rpc.RpcChannel.Write.{
  Side, client, server, recycle_rpc_data, write_in_loop, send_in_loop, written,
}
use gboost_rpc.RpcChannel.Queue.{
  Queued, Items, addresses, AllWait, IsSending, writes, addresses-append, AllWait-store,
  AllWait-append, AllDistinct-append, get_buffer-held, write_first, write_again, flying,
}

-- The buffers of a queue behind its first message.
abbrev pub waiting : Items → List Buffer
waiting [] = []
waiting ((a, bytes) ∷ items) = map (λ (i : ℕ × List ℕ). held i.1) items

abbrev pub first : Items → List Buffer
first [] = []
first ((a, bytes) ∷ items) = held bytes ∷ []

-- A handler returned, with this queue and these writes started. Objects that are not queued are as
-- they were in `base`.
pub record Sent {M : Type 0} (c : RpcChannel M) (base : Heap M) (items : Items)
    (started : List Buffer) (result : Outcome (RpcChannel M × Heap M × List (Action M)))
    : Type 0 where
  pub heap : Heap M
  pub actions : List (Action M)
  pub returns : result ≡ ok (record c { pending = addresses items }, heap, actions)
  pub starts : writes actions ≡ started
  pub sending : IsSending (record c { pending = addresses items }) heap items
  pub spares : (b : ℕ) → contains b (addresses items) ≡ false → heap b ≡ base b

module _ {M : Type 0} (pb : Protobuf M) where
  -- `WriteInLoop` when nothing is being written.
  start_first :
      (c : RpcChannel M) (h : Heap M) (items : Items)
      → AllDistinct (addresses items)
      → AllWait h items
      → Sent c h items (first items) (write_in_loop pb (record c { pending = addresses items }) h)
  unfolding write_in_loop
  start_first c h [] distinct w = record {
    heap = h;
    actions = [];
    returns = refl;
    starts = refl;
    sending = record { queue = refl; distinct = tt; states = tt };
    spares = λ b out. refl;
  }
  start_first c h ((a, bytes) ∷ items) distinct w = record {
    heap = store h a (some (flying pb w.0.object));
    actions = write_started (held bytes) ∷ [];
    returns =
        write_first pb (record c { pending = a ∷ addresses items }) h a (addresses items) refl w.0;
    starts = refl;
    sending = record {
      queue = refl;
      distinct = distinct;
      states = (
        record {
          object = flying pb w.0.object;
          live = ground arith;
          state = refl;
          buffer = w.0.buffer;
          filled = w.0.filled;
        },
        AllWait-store h items a (some (flying pb w.0.object)) distinct.0 w.1,
      );
    };
    spares = λ b out. ground arith;
  }

  module _ (c : RpcChannel M) (h : Heap M) where
    -- `SendInLoop` of an object that has a filled buffer and is not queued, on a queue of which the
    -- first message alone is being written: the object is the last of the queue, which stays such a
    -- queue, and a write is started exactly if the queue was empty. No other object changes.
    pub send_in_loop-Sent :
        (items : Items) (a : ℕ) (bytes : List ℕ)
        → IsSending c h items
        → Queued h false a bytes
        → contains a (addresses items) ≡ false
        → Sent c h
            (items ++ (a, bytes) ∷ [])
            (if length items == 0 then held bytes ∷ [] else [])
            (send_in_loop pb c h a)
    unfolding send_in_loop
    send_in_loop-Sent [] a bytes s q out =
        let all : c.pending ++ a ∷ [] ≡ a ∷ [] = rw s.queue in
        rw all (start_first c h ((a, bytes) ∷ []) (refl, tt) (q, tt))
    send_in_loop-Sent ((b, other) ∷ items) a bytes s q out =
        let all : c.pending ++ a ∷ [] ≡ addresses ((b, other) ∷ (items ++ (a, bytes) ∷ [])) =
          rw (s.queue, addresses-append) in
        record {
          heap = h;
          actions = [];
          returns = rw all (
              write_again pb (record c { pending = b ∷ addresses (items ++ (a, bytes) ∷ []) }) h b
                (addresses (items ++ (a, bytes) ∷ [])) refl s.states.0);
          starts = ground arith;
          sending = record {
            queue = refl;
            distinct =
                rw (addresses-append items ((a, bytes) ∷ []))
                  (AllDistinct-append (b ∷ addresses items) a s.distinct out);
            states = (s.states.0, AllWait-append items s.states.1 q);
          };
          spares = λ b out. refl;
        }

    -- The object after its write, as `Written` leaves it to `RecycleRPCData`, and the heap behind that.
    unfoldable pub recycled : Side → ℕ → RpcData M → Heap M
    recycled client a d = store h a (some d)
    recycled server a d = store (store h a (some d)) a none

    recycle-recycled :
        (side : Side) (a : ℕ) (d : RpcData M)
        → recycle_rpc_data side (store h a (some d)) a ≡ ok (recycled side a d)
    unfolding recycle_rpc_data recycled
    recycle-recycled client a d = refl
    recycle-recycled server a d = ground arith

    AllWait-recycled :
        (side : Side) (items : Items) (a : ℕ) (d : RpcData M)
        → contains a (addresses items) ≡ false
        → AllWait h items
        → AllWait (recycled side a d) items
    unfolding recycled
    AllWait-recycled client items a d out w = AllWait-store h items a (some d) out w
    AllWait-recycled server items a d out w =
        AllWait-store (store h a (some d)) items a none out (AllWait-store h items a (some d) out w)

    written_next :
        (side : Side) (a : ℕ) (rest : List ℕ) {bytes : List ℕ}
        → c.pending ≡ a ∷ rest
        → (q : Queued h true a bytes)
        → written pb side c h false (length bytes)
          ≡ write_in_loop pb (record c { pending = rest }) (recycled side a (flying pb q.object))
    unfolding written
    written_next side a rest e q = ground (
      arith,
      get_buffer-held pb q.object q.buffer,
      recycle-recycled side a (flying pb q.object),
      q.filled,
    )

    -- `Written` after the whole of the first message: that message leaves the queue, deleted by a
    -- server and kept by a client, the queue stays one of which the first message alone is being
    -- written, and the write of the next message is started if there is one.
    pub written-Sent :
        (side : Side) (a : ℕ) (bytes : List ℕ) (items : Items)
        → (s : IsSending c h ((a, bytes) ∷ items))
        → Sent c
            (recycled side a (flying pb s.states.0.object))
            items
            (first items)
            (written pb side c h false (length bytes))
    written-Sent side a bytes items s =
        rw (written_next side a (addresses items) s.queue s.states.0) (
          start_first c (recycled side a (flying pb s.states.0.object)) items s.distinct.1
            (AllWait-recycled side items a (flying pb s.states.0.object) s.distinct.0 s.states.1))
