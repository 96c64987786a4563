-- ===== src/Client/Answers.antt =====
-- Responses in the history of a client (ReceivePackage of rpc/detail/rpc_client_impl.cc).
use gboost_rpc.Base.{ℕ, ◌≡◌, Bool, false, none, some, List, [], ◌∷◌, take, ok}
use gboost_rpc.Base.Assoc.{lookup, erase}
use gboost_rpc.Protocol.{Protobuf, IsProtobuf, get_seq, get_message_length}
use gboost_rpc.RpcData.{RpcData}
use gboost_rpc.Heap.{Heap, store, contains}
use gboost_rpc.RpcChannel.Queue.{addresses}
use gboost_rpc.Session.{ClientSession}
use gboost_rpc.Client.{Client, answered, receive_package}
use gboost_rpc.Client.Respond.{receive_package-written}
use gboost_rpc.Client.History.{Caller, Reach}
use gboost_rpc.Client.Refine.{new_caller, new_client-Kept, Reach-Refined}

-- The client without the session of this number.
abbrev pub released_client : {M : Type 0} → Client M → ℕ → Client M
released_client k number = record k {
  manager = record k.manager { sessions = erase number k.manager.sessions };
}

-- At any time in the history of a new client, a response that parses, with the number of a call that
-- waits and of which the request is not in the queue, is handled: the closure of the call runs on it,
-- once, the session and its request are gone, and the same response a second time changes nothing and
-- runs no closure.
pub new_caller-receive_package :
    {M : Type 0} {pb : Protobuf M}
    → IsProtobuf pb
    → (city_hash : List ℕ → ℕ) (reconnects : Bool) (h : Heap M) {m : Caller M}
    → Reach pb city_hash (new_caller reconnects h) m
    → (incoming : RpcData M) (session : ClientSession) (x : M)
    → lookup (get_seq incoming.meta) m.client.manager.sessions ≡ some session
    → contains session.data_ m.client.channel.pending ≡ false
    → pb.from_array (take (get_message_length incoming.meta) incoming.payload_binaries) ≡ some x
    → (receive_package pb m.client m.heap incoming
        ≡ ok (
          released_client m.client (get_seq incoming.meta),
          store m.heap session.data_ none,
          answered session.done session.response x ∷ [],
        ))
      × (receive_package pb
            (released_client m.client (get_seq incoming.meta))
            (store m.heap session.data_ none)
            incoming
          ≡ ok (
            released_client m.client (get_seq incoming.meta),
            store m.heap session.data_ none,
            [],
          ))
new_caller-receive_package {pb} law city_hash reconnects h {m} r incoming session x found out
      parsed =
    let v = (Reach-Refined law city_hash (new_client-Kept reconnects h) r).kept in
    let (bytes, l) = v.loaded (get_seq incoming.meta) session found in
    let away : contains session.data_ (addresses v.items) ≡ false = rw v.sending.queue at out in
    let pending = v.handed (get_seq incoming.meta) session l.object found away l.live in
    let done =
      receive_package-written pb m.client m.heap incoming session found parsed l.object v.valid
        l.live pending away v.sending in
    (done.0, done.2)
