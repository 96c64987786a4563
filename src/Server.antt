-- ===== src/Server.antt =====
-- rpc/detail/rpc_server_impl.h and rpc_server_impl.cc: the services of a server, its calls and
-- responses, and the dispatchers that new connections go to. A service is the code of the server's
-- user; an address names it.
pub mod Services
pub mod RoundRobin
pub mod Running
pub mod Creating
use gboost_rpc.Base.{
  ℕ, suc, ◌+◌, ◌%◌, ltb, ◌==◌, if◌then◌else◌, Bool, true, false, not, Option, none, some, List, [],
  ◌∷◌, length, take, get_elem?, Outcome, ok, fatal, ◌>>=◌, ◌>>◌, check,
}
use gboost_rpc.Base.Assoc.{lookup, insert}
use gboost_rpc.Protocol.{Meta, Protobuf, get_service_id, get_method_id, get_message_length}
use gboost_rpc.RpcData.{RpcData, new_outgoing, own_meta_and_payload}
use gboost_rpc.Heap.{Heap, store}
use gboost_rpc.RpcChannel.{RpcChannel}
use gboost_rpc.RpcChannel.Write.{Sending, send_in_loop}
use gboost_rpc.Session.{get_service_id_of}

-- `networkers` holds the addresses of the dispatchers.
pub record Server : Type 0 where
  pub service_pool : List (ℕ × ℕ)
  pub networkers : List ℕ
  pub i_selected : ℕ

-- `AddService`: each of the two messages for a key that is there ends the process.
unfoldable pub add_service : (List ℕ → ℕ) → (ℕ → List ℕ) → Server → ℕ → Outcome Server
add_service city_hash full_name s service =
    let (pool, inserted) =
      insert (get_service_id_of city_hash (full_name service)) service s.service_pool in
    if inserted then ok (record s { service_pool = pool }) else fatal

-- `GetService`
abbrev pub get_service : Server → ℕ → Option ℕ
get_service s service_id = lookup service_id s.service_pool

-- What `CallMethod` does with a request: it drops it, or it calls a method of a service, with the
-- request and the metadata of the response.
pub data Call (M : Type 0) : Type 0 where
  dropped : Call M
  called : (service method : ℕ) → M → Meta → Call M

module _ {M : Type 0} (pb : Protobuf M) where
  -- `CallMethod`. `num_methods` is the number of methods of a service: a descriptor is read outside
  -- of their array if `method_id` is larger. An id that no service has calls `GetDescriptor` through
  -- a null pointer.
  unfoldable pub call_method : (ℕ → ℕ) → Server → RpcData M → Outcome (Call M)
  call_method num_methods s incoming = elim (get_service s (get_service_id incoming.meta)) [
    | none ↦ fatal
    | some service ↦ do
      check (ltb (get_method_id incoming.meta) (num_methods service))
      elim (pb.from_array (take (get_message_length incoming.meta) incoming.payload_binaries)) [
        | none ↦ ok dropped
        | some request ↦ ok (called service (get_method_id incoming.meta) request incoming.meta)
      ]
  ]

  -- `SendResponse`, with the new RPCData at the address `fresh`.
  unfoldable pub send_response : RpcChannel M → Heap M → ℕ → Meta → M → Sending M
  unfolding new_outgoing own_meta_and_payload send_in_loop
  send_response c h fresh meta response = do
    d ← new_outgoing pb (record meta { message_length = some (pb.byte_size response) }) response
    owner ← own_meta_and_payload d
    send_in_loop pb c (store h fresh (some owner)) fresh

-- `GetIdlestDispatcher`
unfoldable pub get_idlest_dispatcher : Server → Outcome (Server × ℕ)
get_idlest_dispatcher s = do
  check (ltb s.i_selected (length s.networkers))
  elim (get_elem? s.networkers s.i_selected) [
    | none ↦ fatal
    | some selected ↦
        ok (record s { i_selected = (s.i_selected + 1) % length s.networkers }, selected)
  ]

-- The dispatcher of a server: a new channel is started in its loop, or an accept is started with
-- a socket of its.
pub data Accepting : Type 0 where
  start_channel accept_started : ℕ → Accepting

-- `StartToAccept`
unfoldable pub start_to_accept : Server → Outcome (Server × List Accepting)
unfolding get_idlest_dispatcher
start_to_accept s = do
  (s', dispatcher) ← get_idlest_dispatcher s
  ok (s', accept_started dispatcher ∷ [])

-- `Accepted`, of an accept for `dispatcher`.
unfoldable pub accepted : Server → ℕ → (error is_open : Bool) → Outcome (Server × List Accepting)
unfolding start_to_accept
accepted s dispatcher error is_open =
    if not error
    then (do (s', actions) ← start_to_accept s; ok (s', start_channel dispatcher ∷ actions))
    else if not is_open
    then ok (s, [])
    else start_to_accept s
