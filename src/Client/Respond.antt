-- ===== src/Client/Respond.antt =====
-- ReceivePackage of rpc/detail/rpc_client_impl.cc, by the state of the request.
use gboost_rpc.Base.{
  ℕ, ◌<◌, ◌≡◌, ◌∙◌, true, false, none, some, List, [], ◌∷◌, take, ok, fatal, arith,
}
use gboost_rpc.Base.Assoc.{lookup, erase, lookup-erase}
use gboost_rpc.Protocol.{Protobuf, get_seq, get_message_length}
use gboost_rpc.RpcData.{RpcData}
use gboost_rpc.Heap.{Heap, store, contains}
use gboost_rpc.RpcChannel.{RpcChannel}
use gboost_rpc.RpcChannel.Write.{Side, written}
use gboost_rpc.RpcChannel.Queue.{Items, addresses, IsSending, IsSending-store}
use gboost_rpc.Session.{ClientSession}
use gboost_rpc.Session.Manager.{IsManager}
use gboost_rpc.Client.{Client, answered, receive_package}

-- The end of a write whose message was deleted meanwhile.
written_gone :
    {M : Type 0} (pb : Protobuf M) (side : Side) (c : RpcChannel M) (h : Heap M) (a n : ℕ)
    (rest : List ℕ)
    → c.pending ≡ a ∷ rest
    → h a ≡ none
    → 0 < n
    → written pb side c h false n ≡ fatal
unfolding written
written_gone pb side c h a n rest e gone pos = ground arith

module _ {M : Type 0} (pb : Protobuf M) (k : Client M) (h : Heap M) (incoming : RpcData M)
    (session : ClientSession)
    (found : lookup (get_seq incoming.meta) k.manager.sessions ≡ some session) {x : M}
    (parsed : pb.from_array (take (get_message_length incoming.meta) incoming.payload_binaries)
      ≡ some x) where
  -- The manager without the session.
  abbrev pub without : Client M
  without = record k {
    manager = record k.manager { sessions = erase (get_seq incoming.meta) k.manager.sessions };
  }

  -- A response that parses, to a request that was handed to the socket and has left the queue: the closure runs
  -- on it, once, and the session and its request are gone. The queue is as it was, and the same
  -- response a second time changes nothing and runs no closure.
  pub receive_package-written :
      {items : Items} (d : RpcData M)
      → IsManager k.manager
      → h session.data_ ≡ some d
      → d.is_pending ≡ true
      → contains session.data_ (addresses items) ≡ false
      → IsSending k.channel h items
      → (receive_package pb k h incoming
          ≡ ok (without, store h session.data_ none, answered session.done session.response x ∷ []))
        × IsSending k.channel (store h session.data_ none) items
        × (receive_package pb without (store h session.data_ none) incoming
            ≡ ok (without, store h session.data_ none, []))
  unfolding receive_package
  receive_package-written {items} d v live pending out s =
      let seq = get_seq incoming.meta in
      let gone : lookup seq without.manager.sessions ≡ none =
        lookup-erase seq seq 0 k.manager.sessions v.sorted ∙ ground arith in
      (ground arith, IsSending-store session.data_ none out s, ground arith)

  -- A response to a request that still waits in the queue stops the process.
  pub receive_package_waiting :
      (d : RpcData M)
      → h session.data_ ≡ some d
      → d.is_pending ≡ false
      → receive_package pb k h incoming ≡ fatal
  unfolding receive_package
  receive_package_waiting d live idle = ground arith

  -- A response that parses, to the request that is being written: the handler runs the closure and
  -- deletes an object that the queue still names, and the end of the write is a fault.
  pub receive_package_dangling :
      {bytes : List ℕ} (items : Items) (side : Side) (n : ℕ)
      → IsSending k.channel h ((session.data_, bytes) ∷ items)
      → 0 < n
      → (receive_package pb k h incoming
          ≡ ok (without, store h session.data_ none, answered session.done session.response x ∷ []))
        × (written pb side without.channel (store h session.data_ none) false n ≡ fatal)
  unfolding receive_package
  receive_package_dangling items side n s pos = (
    ground (arith, s.states.0.live, s.states.0.state),
    written_gone pb side k.channel (store h session.data_ none) session.data_ n (addresses items)
        s.queue (ground arith) pos,
  )
