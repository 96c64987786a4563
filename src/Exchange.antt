-- ===== src/Exchange.antt =====
-- A whole call: a request of a client (rpc/detail/client_session.cc), the call of the service and
-- the response of the server (rpc/detail/rpc_server_impl.cc), and the response at the client
-- (rpc/detail/rpc_client_impl.cc).
use gboost_rpc.Base.{
  ℕ, ◌<◌, ◌≡◌, sym, ap, subst, ◌∙◌, true, false, none, some, List, [], ◌∷◌, length, take,
  take-length, ok, arith,
}
use gboost_rpc.Base.Assoc.{lookup, erase}
use gboost_rpc.Protocol.{Meta, Protobuf, get_seq, get_service_id, get_message_length}
use gboost_rpc.RpcData.{RpcData}
use gboost_rpc.RpcData.Outgoing.{Serialized}
use gboost_rpc.Heap.{Heap, store, contains}
use gboost_rpc.RpcChannel.Stream.{carried, content}
use gboost_rpc.RpcChannel.Queue.{Items, addresses, IsSending}
use gboost_rpc.Session.{ClientSession, Method, request_meta, get_service_id_of}
use gboost_rpc.Session.Manager.{IsManager}
use gboost_rpc.Client.{Client, answered, receive_package}
use gboost_rpc.Client.Respond.{receive_package-written}
use gboost_rpc.Server.{Server, get_service, called, call_method}
use gboost_rpc.Server.Services.{call_method_lem, response_meta}

module _ {M : Type 0} (pb : Protobuf M) where
  -- What a receiver of a serialised message holds.
  module _ (m : Meta) (x : M) (sent : RpcData M) (z : Serialized pb m x sent) (d : RpcData M)
      (same : carried d ≡ content z.frame) where
    pub meta-carried : d.meta ≡ m
    meta-carried = ap (λ (c : Meta × List ℕ). c.0) same ∙ z.tagged

    pub payload-carried : pb.from_array d.payload_binaries ≡ some x
    payload-carried = ap (λ (c : Meta × List ℕ). pb.from_array c.1) same ∙ z.loaded

    pub length-carried : get_message_length d.meta ≡ length d.payload_binaries
    length-carried =
        ap (λ (c : Meta × List ℕ). get_message_length c.0) same
        ∙ z.framed.measured
        ∙ ap (λ (c : Meta × List ℕ). length c.1) (sym same)

  module _ (city_hash : List ℕ → ℕ) (num_methods : ℕ → ℕ) (seq : ℕ) (method : Method)
      (x y : M) where
    abbrev request : Meta
    request = request_meta pb city_hash seq method x

    call_method-request :
        (q : RpcData M) (z : Serialized pb request x q) (incoming : RpcData M) (s : Server)
        (service : ℕ)
        → carried incoming ≡ content z.frame
        → get_service s (get_service_id_of city_hash method.service_name) ≡ some service
        → method.index < num_methods service
        → call_method pb num_methods s incoming ≡ ok (called service method.index x request)
    call_method-request q z incoming s service same registered known =
        let e = meta-carried request x q z incoming same in
        call_method_lem pb num_methods s incoming service
          (ap (λ (m : Meta). get_service s (get_service_id m)) e ∙ registered) (rw e known)
          (length-carried request x q z incoming same)
        ∙ rw (payload-carried request x q z incoming same, e)

    -- A call, from the request to the response. The server receives the frame that the request
    -- was serialised to, and has a service at the hash of the method's service name, with the method.
    -- The client receives the frame that the response was serialised to, when the request of the
    -- session with that number was written and has left the queue. Then the server calls that method
    -- of that service with the request that the client sent, and the client runs the closure of
    -- that session with the response of the service, and forgets the session.
    pub call-answered :
        (q : RpcData M) (sent : Serialized pb request x q) (incoming : RpcData M) (s : Server)
        (service : ℕ)
        → carried incoming ≡ content sent.frame
        → get_service s (get_service_id_of city_hash method.service_name) ≡ some service
        → method.index < num_methods service
        → (r : RpcData M) (back : Serialized pb (response_meta pb request y) y r)
          (answer : RpcData M)
        → carried answer ≡ content back.frame
        → (k : Client M) (h : Heap M) (session : ClientSession) (d : RpcData M) {items : Items}
        → IsManager k.manager
        → lookup seq k.manager.sessions ≡ some session
        → h session.data_ ≡ some d
        → d.is_pending ≡ true
        → contains session.data_ (addresses items) ≡ false
        → IsSending k.channel h items
        → (call_method pb num_methods s incoming ≡ ok (called service method.index x request))
          × (receive_package pb k h answer
              ≡ ok (
                record k { manager = record k.manager { sessions = erase seq k.manager.sessions } },
                store h session.data_ none,
                answered session.done session.response y ∷ [],
              ))
    call-answered q sent incoming s service same registered known r back answer same' k h session d
          v found live pending out sending =
        let e = meta-carried (response_meta pb request y) y r back answer same' in
        let n = length-carried (response_meta pb request y) y r back answer same' in
        let found' : lookup (get_seq answer.meta) k.manager.sessions ≡ some session =
          ap (λ (m : Meta). lookup (get_seq m) k.manager.sessions) e ∙ found in
        let parsed : pb.from_array (take (get_message_length answer.meta) answer.payload_binaries)
            ≡ some y =
          ap pb.from_array (
            take-length (get_message_length answer.meta) answer.payload_binaries (omega (arith, n)))
          ∙ payload-carried (response_meta pb request y) y r back answer same' in
        (
          call_method-request q sent incoming s service same registered known,
          subst
              (λ (m : Meta).
                receive_package pb k h answer
                ≡ ok (
                  record k {
                    manager = record k.manager { sessions = erase (get_seq m) k.manager.sessions };
                  },
                  store h session.data_ none,
                  answered session.done session.response y ∷ [],
                ))
              e
              (receive_package-written pb k h answer session found' parsed d v live pending out
                sending).0,
        )
