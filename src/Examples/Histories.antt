-- ===== src/Examples/Histories.antt =====
-- A history of a client: a call, the end of its write, a reconnect, the write again, the response.
use gboost_rpc.Base.{ℕ, ◌≡◌, refl, false, true, none, some, List, [], ◌∷◌, map, arith, ok}
use gboost_rpc.RpcData.{RpcData, new_data, held}
use gboost_rpc.Heap.{Heap, store}
use gboost_rpc.RpcChannel.{Action, new_channel, read_started}
use gboost_rpc.RpcChannel.Write.{written, send_in_loop}
use gboost_rpc.RpcChannel.Queue.{addresses, IsSending, writes}
use gboost_rpc.RpcChannel.InOrder.{first}
use gboost_rpc.Session.{save_session}
use gboost_rpc.Base.Assoc.{insert, erase}
use gboost_rpc.RpcData.Bytes.{to_big_endian}
use gboost_rpc.Client.{acts, call_in_loop, connected, receive_package}
use gboost_rpc.Client.History.{Caller, Step, Reach, here, next, call, end, respond}
use gboost_rpc.Client.Desk.{IsBalanced}
use gboost_rpc.Base.{◌==◌, if◌then◌else◌, Bool-cases, inl, inr}
use gboost_rpc.Callback.{Closures, new_callback, run_callbacks}
use gboost_rpc.Callback.Once.{AreRunnable, Ran, new_caller-Ran}
use gboost_rpc.Destroy.{destroy_manager}
use gboost_rpc.Destroy.Freed.{Freed, new_caller-Freed}
use gboost_rpc.Client.{answered}
use gboost_rpc.Client.Answers.{released_client, new_caller-receive_package}
use gboost_rpc.Client.Gather.{Gathered}
use gboost_rpc.Client.Steps.{desk_of}
use gboost_rpc.Client.Refine.{
  new_caller, new_caller-IsBalanced, new_caller-Resent, Reach-Refined, Refined, new_client-Kept,
}
use gboost_rpc.Examples.Codec.{codec, codec-IsProtobuf, meta_of, meta_of-IsWritable}
use gboost_rpc.Examples.Calling.{name_hash, echo, session_1, no_objects}

abbrev request_0 : RpcData (List ℕ)
request_0 = record new_data {
  meta = meta_of 0 4 1 2 [];
  payload = some (9 ∷ 8 ∷ []);
  buffer = held (0 ∷ 0 ∷ 0 ∷ 4 ∷ 0 ∷ 4 ∷ 1 ∷ 2 ∷ 9 ∷ 8 ∷ []);
  is_pending = true;
}

abbrev called_heap : Heap (List ℕ)
called_heap =
    store (store no_objects 5 (some (record request_0 { is_pending = false }))) 5 (some request_0)

abbrev pub called : Caller (List ℕ)
called = record {
  client = record {
    channel = record new_channel { pending = 5 ∷ [] };
    manager = record { seq = 1; sessions = (0, session_1) ∷ [] };
    reconnects = true;
  };
  heap = called_heap;
  given = 30 ∷ [];
  ran = [];
}

abbrev pub start : Caller (List ℕ)
start = new_caller true no_objects

call_moves : Step codec name_hash start called
unfolding call_in_loop save_session insert send_in_loop to_big_endian
call_moves =
    call 5 echo (9 ∷ 8 ∷ []) 20 30 refl (omega arith)
      (record {
        initialized = refl;
        writable =
            meta_of-IsWritable 0 _ _ _ (omega arith) (omega arith) (omega arith) (omega arith);
        measured = refl;
        small = omega arith;
      })
      refl

pub call_history : Reach codec name_hash start called
call_history = next here call_moves

Reach-Refined_example : Refined start called
Reach-Refined_example =
    Reach-Refined codec-IsProtobuf name_hash (new_client-Kept true no_objects) call_history

abbrev pub sent_out : Caller (List ℕ)
sent_out = record called {
  client = record called.client { channel = new_channel };
  heap = store called_heap 5 (some request_0);
}

pub end_moves : Step codec name_hash called sent_out
unfolding written
end_moves =
    end 5 [] (0 ∷ 0 ∷ 0 ∷ 4 ∷ 0 ∷ 4 ∷ 1 ∷ 2 ∷ 9 ∷ 8 ∷ []) refl
      (record {
        object = request_0;
        live = refl;
        state = refl;
        buffer = refl;
        filled = omega arith;
      })
      refl

new_caller-Resent_example :
    (g : Gathered sent_out.heap sent_out.client.manager.sessions) × (heap : Heap (List ℕ))
    × (actions : List (Action (List ℕ))) × (connected codec sent_out.client sent_out.heap false
        ≡ ok (
          record sent_out.client {
            channel = record new_channel { pending = addresses g.items; closed_by_peer = false };
          },
          heap,
          acts read_started ∷ map acts actions,
        ))
    × IsSending
        (record new_channel { pending = addresses g.items; closed_by_peer = false })
        heap
        g.items
    × (writes actions ≡ first g.items)
new_caller-Resent_example =
    new_caller-Resent codec-IsProtobuf name_hash true no_objects (next call_history end_moves) refl

abbrev answer_0 : RpcData (List ℕ)
answer_0 = record new_data { meta = meta_of 0 4 1 1 []; payload_binaries = 6 ∷ []; meta_size = 4 }

abbrev answered_call : Caller (List ℕ)
answered_call = record {
  client = record {
    channel = new_channel;
    manager = record { seq = 1; sessions = [] };
    reconnects = true;
  };
  heap = store (store called_heap 5 (some request_0)) 5 none;
  given = 30 ∷ [];
  ran = 30 ∷ [];
}

answer_moves : Step codec name_hash sent_out answered_call
unfolding receive_package erase
answer_moves = respond answer_0 (λ session found. refl) refl

new_caller-IsBalanced_example : IsBalanced (desk_of answered_call)
new_caller-IsBalanced_example =
    new_caller-IsBalanced codec-IsProtobuf name_hash true no_objects
      (next (next call_history end_moves) answer_moves)

new_caller-Freed_example :
    (g : Gathered sent_out.heap sent_out.client.manager.sessions) × Freed sent_out.heap
      (addresses g.items)
      (destroy_manager sent_out.client.manager sent_out.heap)
new_caller-Freed_example =
    new_caller-Freed codec-IsProtobuf name_hash true no_objects (next call_history end_moves)

abbrev reply_closure : Closures
reply_closure = λ b. if b == 30 then some (new_callback 7) else none

reply_closure-AreRunnable : AreRunnable reply_closure (30 ∷ [])
reply_closure-AreRunnable d some_time = elim (Bool-cases (d == 30)) [
  | inl same ↦ (new_callback 7, ground (arith, same), inl (ground (arith, same)))
  | inr other ↦ absurd (ground (arith, other, some_time))
]

new_caller-Ran_example : Ran reply_closure (30 ∷ []) (run_callbacks reply_closure (30 ∷ []))
new_caller-Ran_example =
    new_caller-Ran codec-IsProtobuf name_hash true no_objects reply_closure
      (next (next call_history end_moves) answer_moves) reply_closure-AreRunnable

new_caller-receive_package_example :
    (receive_package codec sent_out.client sent_out.heap answer_0
      ≡ ok (
        released_client sent_out.client 0,
        store sent_out.heap 5 none,
        answered 30 20 (6 ∷ []) ∷ [],
      ))
    × (receive_package codec
          (released_client sent_out.client 0)
          (store sent_out.heap 5 none)
          answer_0
        ≡ ok (released_client sent_out.client 0, store sent_out.heap 5 none, []))
new_caller-receive_package_example =
    new_caller-receive_package codec-IsProtobuf name_hash true no_objects
      (next call_history end_moves) answer_0 session_1 (6 ∷ []) refl refl refl
