-- ===== src/Examples/Writing.antt =====
-- Two messages in the queue of a channel.
use gboost_rpc.Base.{◌≡◌, ok, ℕ, refl, ap, false, true, none, some, List, [], ◌∷◌, length, arith}
use gboost_rpc.RpcData.{RpcData, held}
use gboost_rpc.RpcData.Bytes.{to_big_endian}
use gboost_rpc.RpcData.Phases.{encode}
use gboost_rpc.Heap.{Heap, store}
use gboost_rpc.RpcChannel.{RpcChannel, new_channel}
use gboost_rpc.RpcChannel.Write.{client, server, send_in_loop}
use gboost_rpc.RpcChannel.Write.{clear_pending_packages}
use gboost_rpc.Destroy.{destroy_channel}
use gboost_rpc.Destroy.Freed.{Freed, clear_pending_packages-Freed}
use gboost_rpc.RpcChannel.Queue.{Queued, IsSending}
use gboost_rpc.RpcChannel.History.{Link, send, Reach, here, next, InOrder}
use gboost_rpc.RpcChannel.Order.{new_channel-InOrder}
use gboost_rpc.Examples.Codec.{codec}
use gboost_rpc.Examples.Connection.{frame_1, frame_2, encode_1, encode_2, outgoing}

abbrev objects : Heap (List ℕ)
objects = store (store (λ b. none) 1 (some (outgoing frame_1))) 2 (some (outgoing frame_2))

first-Queued : Queued objects false 1 (encode frame_1)
first-Queued = record {
  object = outgoing frame_1;
  live = refl;
  state = refl;
  buffer = refl;
  filled = omega (arith, ap length encode_1);
}

-- The first message is being written, and the second waits.
abbrev busy : RpcChannel (List ℕ)
busy = record new_channel { pending = 1 ∷ 2 ∷ [] }

abbrev written_1 : RpcData (List ℕ)
written_1 = record (outgoing frame_1) { is_pending = true }

abbrev busy_objects : Heap (List ℕ)
busy_objects = store objects 1 (some written_1)

busy-IsSending : IsSending busy busy_objects ((1, encode frame_1) ∷ (2, encode frame_2) ∷ [])
busy-IsSending = record {
  queue = refl;
  distinct = (refl, (refl, tt));
  states = (
    record {
      object = written_1;
      live = refl;
      state = refl;
      buffer = refl;
      filled = omega (arith, ap length encode_1);
    },
    (
      record {
        object = outgoing frame_2;
        live = refl;
        state = refl;
        buffer = refl;
        filled = omega (arith, ap length encode_2);
      },
      tt,
    ),
  );
}

-- One message was sent.
abbrev link_1 : Link (List ℕ)
link_1 = record {
  channel = record new_channel { pending = 1 ∷ [] };
  heap = busy_objects;
  written_out = held (encode frame_1) ∷ [];
  asked = held (encode frame_1) ∷ [];
}

link_1-Reach :
    Reach codec client
      (record { channel = new_channel; heap = objects; written_out = []; asked = [] })
      link_1
unfolding send_in_loop to_big_endian
link_1-Reach = next here (send 1 (encode frame_1) first-Queued refl refl)

new_channel-InOrder_example : InOrder link_1
new_channel-InOrder_example = new_channel-InOrder codec client objects link_1-Reach

clear_pending_packages-Freed_example :
    Freed busy_objects (1 ∷ 2 ∷ []) (clear_pending_packages server (1 ∷ 2 ∷ []) busy_objects)
    × (destroy_channel server busy busy_objects ≡ ok busy_objects)
clear_pending_packages-Freed_example =
    clear_pending_packages-Freed busy busy_objects ((1, encode frame_1) ∷ (2, encode frame_2) ∷ [])
      busy-IsSending
