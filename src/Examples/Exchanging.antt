-- ===== src/Examples/Exchanging.antt =====
-- A call of the client of Calling, answered by the server of Serving.
use gboost_rpc.Base.{ℕ, ◌≡◌, refl, some, none, List, [], ◌∷◌, arith, ok}
use gboost_rpc.Base.Assoc.{erase}
use gboost_rpc.RpcData.{RpcData, new_data, held}
use gboost_rpc.RpcData.Phases.{Frame, encode}
use gboost_rpc.RpcData.Outgoing.{Serialized}
use gboost_rpc.Heap.{store}
use gboost_rpc.Session.{request_meta}
use gboost_rpc.Client.{answered, receive_package}
use gboost_rpc.Server.{called, call_method}
use gboost_rpc.Server.Services.{response_meta}
use gboost_rpc.Exchange.{call-answered}
use gboost_rpc.Examples.Codec.{codec, meta_of}
use gboost_rpc.Examples.Calling.{
  name_hash, echo, session_1, manager_1-IsManager, request_1, objects_1, idle_client, forgotten,
  response_1,
}
use gboost_rpc.Examples.Serving
use gboost_rpc.Examples.Serving.{one_service, num_methods}

abbrev request_frame : Frame
request_frame = record {
  meta = meta_of 3 4 1 2 [];
  descriptor = 3 ∷ 4 ∷ 1 ∷ 2 ∷ [];
  payload = 9 ∷ 8 ∷ [];
}

abbrev response_frame : Frame
response_frame = record {
  meta = meta_of 3 4 1 1 [];
  descriptor = 3 ∷ 4 ∷ 1 ∷ 1 ∷ [];
  payload = 6 ∷ [];
}

abbrev sending : Frame → RpcData (List ℕ)
sending f = record new_data { meta = f.meta; payload = some f.payload; buffer = held (encode f) }

abbrev request-Serialized :
    Serialized codec
      (request_meta codec name_hash 3 echo (9 ∷ 8 ∷ []))
      (9 ∷ 8 ∷ [])
      (sending request_frame)
request-Serialized = record {
  frame = request_frame;
  tagged = refl;
  framed = record { parses = refl; described = omega arith; small = omega arith; measured = refl };
  loaded = refl;
  written = refl;
  idle = refl;
}

abbrev response-Serialized :
    Serialized codec
      (response_meta codec (request_meta codec name_hash 3 echo (9 ∷ 8 ∷ [])) (6 ∷ []))
      (6 ∷ [])
      (sending response_frame)
response-Serialized = record {
  frame = response_frame;
  tagged = refl;
  framed = record { parses = refl; described = omega arith; small = omega arith; measured = refl };
  loaded = refl;
  written = refl;
  idle = refl;
}

call-answered_example :
    (call_method codec num_methods one_service Serving.request_1
      ≡ ok (called 70 1 (9 ∷ 8 ∷ []) (meta_of 3 4 1 2 [])))
    × (receive_package codec idle_client objects_1 response_1
        ≡ ok (
          record idle_client { manager = forgotten },
          store objects_1 5 none,
          answered 30 20 (6 ∷ []) ∷ [],
        ))
unfolding erase
call-answered_example =
    call-answered codec name_hash num_methods 3 echo (9 ∷ 8 ∷ []) (6 ∷ []) (sending request_frame)
      request-Serialized Serving.request_1 one_service 70 refl refl (omega arith)
      (sending response_frame) response-Serialized response_1 refl idle_client objects_1 session_1
      request_1 {items = []} manager_1-IsManager refl refl refl refl
      (record { queue = refl; distinct = tt; states = tt })
