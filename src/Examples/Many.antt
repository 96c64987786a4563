-- ===== src/Examples/Many.antt =====
-- Two calls of the client of Histories, answered by the server of Serving in the other order.
use mathlib.Core.List.{flatten}
use gboost_rpc.Base.{
  ℕ, ◌≡◌, refl, none, some, List, [], ◌∷◌, map, true, false, if◌then◌else◌, All, arith, ok,
}
use gboost_rpc.Base.Assoc.{lookup, insert}
use gboost_rpc.RpcData.{RpcData, new_data, new_outgoing, held}
use gboost_rpc.RpcData.Bytes.{to_big_endian}
use gboost_rpc.RpcData.Phases.{Frame}
use gboost_rpc.Heap.{Heap, store, contains}
use gboost_rpc.RpcChannel.{Action, new_channel, receive}
use gboost_rpc.RpcChannel.Write.{written, send_in_loop}
use gboost_rpc.RpcChannel.Stream.{stream, IsAligned}
use gboost_rpc.RpcChannel.Transfer.{Wire, empty, sent}
use gboost_rpc.Session.{ClientSession, save_session}
use gboost_rpc.Client.{Client, answered, call_in_loop}
use gboost_rpc.Client.History.{Caller, Step, Reach, next, call, end}
use gboost_rpc.Pipeline.{Issued, Answer, response_to, delivered, serve_all, client_reads}
use gboost_rpc.Pipeline.Serve.{Registered}
use gboost_rpc.Pipeline.Whole.{nobody_else, chosen, calls-answered}
use gboost_rpc.Examples.Codec.{codec, codec-IsProtobuf, meta_of, meta_of-IsWritable}
use gboost_rpc.Examples.Calling.{name_hash, echo, session_1, no_objects}
use gboost_rpc.Examples.Connection.{outgoing, outgoing-Serialized}
use gboost_rpc.Examples.Histories.{start, sent_out, call_history, end_moves}
use gboost_rpc.Examples.Serving.{one_service, num_methods}

abbrev request_2 : RpcData (List ℕ)
request_2 = record new_data {
  meta = meta_of 1 4 1 1 [];
  payload = some (7 ∷ []);
  buffer = held (0 ∷ 0 ∷ 0 ∷ 4 ∷ 1 ∷ 4 ∷ 1 ∷ 1 ∷ 7 ∷ []);
  is_pending = true;
}

abbrev session_2 : ClientSession
session_2 = record { data_ = 6; response = 21; done = 31 }

abbrev called_again : Caller (List ℕ)
called_again = record {
  client = record sent_out.client {
    channel = record new_channel { pending = 6 ∷ [] };
    manager = record { seq = 2; sessions = (0, session_1) ∷ (1, session_2) ∷ [] };
  };
  heap =
      store (store sent_out.heap 6 (some (record request_2 { is_pending = false }))) 6
        (some request_2);
  given = 30 ∷ 31 ∷ [];
  ran = [];
}

call_again_moves : Step codec name_hash sent_out called_again
unfolding call_in_loop save_session insert send_in_loop to_big_endian
call_again_moves =
    call 6 echo (7 ∷ []) 21 31 refl (omega arith)
      (record {
        initialized = refl;
        writable =
            meta_of-IsWritable 1 _ _ _ (omega arith) (omega arith) (omega arith) (omega arith);
        measured = refl;
        small = omega arith;
      })
      refl

abbrev both_sent : Caller (List ℕ)
both_sent = record called_again {
  client = record called_again.client { channel = new_channel };
  heap = store called_again.heap 6 (some request_2);
}

end_again_moves : Step codec name_hash called_again both_sent
unfolding written
end_again_moves =
    end 6 [] (0 ∷ 0 ∷ 0 ∷ 4 ∷ 1 ∷ 4 ∷ 1 ∷ 1 ∷ 7 ∷ []) refl
      (record {
        object = request_2;
        live = refl;
        state = refl;
        buffer = refl;
        filled = omega arith;
      })
      refl

both_history : Reach codec name_hash start both_sent
both_history = next (next (next call_history end_moves) call_again_moves) end_again_moves

abbrev issued_1 : Issued (List ℕ)
issued_1 = record { number = 0; method = echo; request = 9 ∷ 8 ∷ []; session = session_1 }

abbrev issued_2 : Issued (List ℕ)
issued_2 = record { number = 1; method = echo; request = 7 ∷ []; session = session_2 }

-- The service answers with a byte more.
abbrev reply : (service method : ℕ) → List ℕ → List ℕ
reply service method x = 6 ∷ x

abbrev frame_of : ℕ → ℕ → List ℕ → Frame
frame_of number size payload = record {
  meta = meta_of number 4 1 size [];
  descriptor = number ∷ 4 ∷ 1 ∷ size ∷ [];
  payload = payload;
}

abbrev requests : List Frame
requests = frame_of 0 2 (9 ∷ 8 ∷ []) ∷ frame_of 1 1 (7 ∷ []) ∷ []

abbrev replies : List Frame
replies = frame_of 1 2 (6 ∷ 7 ∷ []) ∷ frame_of 0 3 (6 ∷ 9 ∷ 8 ∷ []) ∷ []

abbrev request_reads : List (List ℕ)
request_reads =
    (0 ∷ 0 ∷ 0 ∷ 4 ∷ 0 ∷ 4 ∷ 1 ∷ 2 ∷ 9 ∷ []) ∷ (8 ∷ 0 ∷ 0 ∷ 0 ∷ 4 ∷ 1 ∷ 4 ∷ 1 ∷ 1 ∷ 7 ∷ []) ∷ []

abbrev reply_reads : List (List ℕ)
reply_reads =
    (0 ∷ 0 ∷ 0 ∷ 4 ∷ 1 ∷ 4 ∷ 1 ∷ 2 ∷ 6 ∷ 7 ∷ 0 ∷ [])
    ∷ (0 ∷ 0 ∷ 4 ∷ 0 ∷ 4 ∷ 1 ∷ 3 ∷ 6 ∷ 9 ∷ 8 ∷ [])
    ∷ []

requests-Wire :
    Wire codec ((meta_of 0 4 1 2 [], 9 ∷ 8 ∷ []) ∷ (meta_of 1 4 1 1 [], 7 ∷ []) ∷ []) requests
unfolding new_outgoing to_big_endian
requests-Wire =
    sent (outgoing (frame_of 0 2 (9 ∷ 8 ∷ []))) refl
      (outgoing-Serialized (frame_of 0 2 (9 ∷ 8 ∷ []))
        (record { parses = refl; described = omega arith; small = omega arith; measured = refl }))
      (sent (outgoing (frame_of 1 1 (7 ∷ []))) refl
        (outgoing-Serialized (frame_of 1 1 (7 ∷ []))
          (record { parses = refl; described = omega arith; small = omega arith; measured = refl }))
        empty)

replies-Wire :
    Wire codec
      ((meta_of 1 4 1 2 [], 6 ∷ 7 ∷ []) ∷ (meta_of 0 4 1 3 [], 6 ∷ 9 ∷ 8 ∷ []) ∷ [])
      replies
unfolding new_outgoing to_big_endian
replies-Wire =
    sent (outgoing (frame_of 1 2 (6 ∷ 7 ∷ []))) refl
      (outgoing-Serialized (frame_of 1 2 (6 ∷ 7 ∷ []))
        (record { parses = refl; described = omega arith; small = omega arith; measured = refl }))
      (sent (outgoing (frame_of 0 3 (6 ∷ 9 ∷ 8 ∷ []))) refl
        (outgoing-Serialized (frame_of 0 3 (6 ∷ 9 ∷ 8 ∷ []))
          (record { parses = refl; described = omega arith; small = omega arith; measured = refl }))
        empty)

request_reads-IsAligned :
    (flatten request_reads ≡ stream requests) × IsAligned requests request_reads
unfolding flatten to_big_endian
request_reads-IsAligned = (refl, (omega arith, refl, (omega arith, refl, tt)))

reply_reads-IsAligned : (flatten reply_reads ≡ stream replies) × IsAligned replies reply_reads
unfolding flatten to_big_endian
reply_reads-IsAligned = (refl, (omega arith, refl, (omega arith, refl, tt)))

both-Registered :
    All (Registered codec name_hash num_methods reply one_service) (issued_1 ∷ issued_2 ∷ [])
both-Registered = (
  record { service = 70; found = refl; known = omega arith },
  (record { service = 70; found = refl; known = omega arith }, tt),
)

abbrev the_answers : List (Answer (List ℕ))
the_answers = (issued_1, 6 ∷ 9 ∷ 8 ∷ []) ∷ (issued_2, 6 ∷ 7 ∷ []) ∷ []

calls-answered_example :
    (actions : List (Action (List ℕ))) × (receive codec new_channel request_reads
      ≡ ok (new_channel, actions))
    × (serve_all codec num_methods reply one_service (delivered actions)
        ≡ ok (map (response_to codec name_hash) the_answers))
    × (k : Client (List ℕ)) × (heap : Heap (List ℕ)) × (client_reads codec both_sent.client
          both_sent.heap reply_reads
        ≡ ok (k, heap, answered 31 21 (6 ∷ 7 ∷ []) ∷ answered 30 20 (6 ∷ 9 ∷ 8 ∷ []) ∷ []))
    × ((i : ℕ)
        → lookup i k.manager.sessions
          ≡ (if contains i (1 ∷ 0 ∷ []) then none else lookup i both_sent.client.manager.sessions))
calls-answered_example =
    calls-answered codec-IsProtobuf name_hash num_methods reply one_service
      (issued_1 ∷ issued_2 ∷ []) both-Registered requests request_reads requests-Wire
      request_reads-IsAligned.0 request_reads-IsAligned.1
      ((issued_2, 6 ∷ 7 ∷ []) ∷ (issued_1, 6 ∷ 9 ∷ 8 ∷ []) ∷ []) replies reply_reads
      (chosen ((issued_1, 6 ∷ 9 ∷ 8 ∷ []) ∷ []) [] refl
        (chosen [] ((issued_2, 6 ∷ 7 ∷ []) ∷ []) refl nobody_else))
      (refl, (refl, tt)) replies-Wire reply_reads-IsAligned.0 reply_reads-IsAligned.1 true
      no_objects both_history refl refl ((refl, refl), ((refl, refl), tt))
