-- ===== src/Examples/Calling.antt =====
-- A client with one call that waits for its response.
use gboost_rpc.Base.{ℕ, ◌≡◌, refl, false, true, none, some, List, [], ◌∷◌, length, arith, ok, fatal}
use gboost_rpc.Base.Assoc.{erase}
use gboost_rpc.RpcData.{RpcData, new_data, held}
use gboost_rpc.Heap.{Heap, store}
use gboost_rpc.RpcChannel.{new_channel}
use gboost_rpc.RpcChannel.Write.{client, written}
use gboost_rpc.Session.{ClientSession, Method, SessionManager, new_manager, request_meta}
use gboost_rpc.Session.Manager.{IsManager}
use gboost_rpc.Client.{Client, answered, receive_package}
use gboost_rpc.RpcData.Outgoing.{Serialized}
use gboost_rpc.Client.{call_in_loop}
use gboost_rpc.Client.Calls.{Called, call_in_loop-Called}
use gboost_rpc.Client.Respond.{receive_package_dangling}
use gboost_rpc.Examples.Codec.{codec, codec-IsProtobuf, meta_of, meta_of-IsWritable}

-- A hash in place of CityHash32.
abbrev pub name_hash : List ℕ → ℕ
name_hash name = length name

abbrev pub echo : Method
echo = record { index = 1; service_name = 69 ∷ 99 ∷ 104 ∷ 111 ∷ [] }

abbrev pub session_1 : ClientSession
session_1 = record { data_ = 5; response = 20; done = 30 }

abbrev pub no_objects : Heap (List ℕ)
no_objects = λ b. none

new_manager-IsManager : IsManager new_manager
new_manager-IsManager = record { sorted = tt; below = tt }

abbrev pub manager_1 : SessionManager
manager_1 = record { seq = 4; sessions = (3, session_1) ∷ [] }

pub manager_1-IsManager : IsManager manager_1
manager_1-IsManager = record { sorted = (omega arith, tt); below = (omega arith, tt) }

abbrev pub bytes_1 : List ℕ
bytes_1 = 0 ∷ 0 ∷ 0 ∷ 4 ∷ 3 ∷ 4 ∷ 1 ∷ 2 ∷ 9 ∷ 8 ∷ []

abbrev pub request_1 : RpcData (List ℕ)
request_1 = record new_data {
  meta = meta_of 3 4 1 2 [];
  payload = some (9 ∷ 8 ∷ []);
  buffer = held bytes_1;
  is_pending = true;
}

abbrev pub objects_1 : Heap (List ℕ)
objects_1 = store no_objects 5 (some request_1)

-- The request was written, and has left the queue or not.
abbrev pub idle_client : Client (List ℕ)
idle_client = record { channel = new_channel; manager = manager_1; reconnects = true }

abbrev busy_client : Client (List ℕ)
busy_client = record idle_client { channel = record new_channel { pending = 5 ∷ [] } }

abbrev pub forgotten : SessionManager
forgotten = record { seq = 4; sessions = [] }

abbrev pub response_1 : RpcData (List ℕ)
response_1 = record new_data { meta = meta_of 3 4 1 1 []; payload_binaries = 6 ∷ []; meta_size = 4 }

receive_package_dangling_example :
    (receive_package codec busy_client objects_1 response_1
      ≡ ok (
        record busy_client { manager = forgotten },
        store objects_1 5 none,
        answered 30 20 (6 ∷ []) ∷ [],
      ))
    × (written codec client
          (record new_channel { pending = 5 ∷ [] })
          (store objects_1 5 none)
          false
          10
        ≡ fatal)
unfolding erase
receive_package_dangling_example =
    receive_package_dangling codec busy_client objects_1 response_1 session_1 refl refl [] client 10
      (record {
        queue = refl;
        distinct = (refl, tt);
        states = (
          record {
            object = request_1;
            live = refl;
            state = refl;
            buffer = refl;
            filled = omega arith;
          },
          tt,
        );
      })
      (omega arith)

call_in_loop-Called_example :
    (d : RpcData (List ℕ)) × (z : Serialized codec
      (request_meta codec name_hash 4 echo (9 ∷ 8 ∷ []))
      (9 ∷ 8 ∷ [])
      d)
    × Called idle_client objects_1 6
        (record { data_ = 6; response = 21; done = 31 })
        []
        z.frame
        (call_in_loop codec name_hash idle_client objects_1 6 echo (9 ∷ 8 ∷ []) 21 31)
call_in_loop-Called_example =
    call_in_loop-Called codec-IsProtobuf name_hash idle_client objects_1 6 echo (9 ∷ 8 ∷ []) 21 31
      [] manager_1-IsManager (omega arith)
      (record {
        initialized = refl;
        writable =
            meta_of-IsWritable 4 _ _ _ (omega arith) (omega arith) (omega arith) (omega arith);
        measured = refl;
        small = omega arith;
      })
      (record { queue = refl; distinct = tt; states = tt }) refl
