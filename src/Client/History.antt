-- ===== src/Client/History.antt =====
-- The histories of a client: what happens to rpc/detail/client_rpc_channel.cc and
-- rpc/detail/rpc_client_impl.cc in the loop of their dispatcher, in any order.
use gboost_rpc.Base.{
  ℕ, ◌+◌, ◌^◌, ◌<◌, ◌≡◌, false, true, Bool, none, some, List, [], ◌∷◌, ◌++◌, length, ok,
}
use gboost_rpc.Base.Assoc.{lookup}
use gboost_rpc.Protocol.{Protobuf, get_seq}
use gboost_rpc.RpcData.{RpcData}
use gboost_rpc.RpcData.Outgoing.{IsSendable}
use gboost_rpc.Heap.{Heap, contains}
use gboost_rpc.RpcChannel.{RpcChannel, Action, read_in_loop, terminate_in_loop}
use gboost_rpc.RpcChannel.Write.{client, written}
use gboost_rpc.RpcChannel.Queue.{Queued}
use gboost_rpc.Session.{ClientSession, Method, request_meta}
use gboost_rpc.Client.{
  Client, Effect, acts, connect_started, socket_closed, answered, call_in_loop, receive_package,
  connected,
}

-- The closures that were run, by their names.
abbrev pub closures : {M : Type 0} → List (Effect M) → List ℕ
closures [] = []
closures (acts a ∷ effects) = closures effects
closures (connect_started ∷ effects) = closures effects
closures (socket_closed ∷ effects) = closures effects
closures (answered done response x ∷ effects) = done ∷ closures effects

-- A client with its objects, the closures that it was given, one for a call, and those that ran.
pub record Caller (M : Type 0) : Type 0 where
  pub client : Client M
  pub heap : Heap M
  pub given : List ℕ
  pub ran : List ℕ

abbrev pub with_channel : {M : Type 0} → Client M → RpcChannel M → Client M
with_channel k c = record k { channel = c }

-- What happens to it. `call`: a method is called, with a new object for the request, before the
-- numbers wrap. `end` and `fail`: the outstanding write ends. `read`: a read ends. `respond`: a
-- message came that answers no request in the queue. `reconnect`: a connect ends. `elsewhere`:
-- objects change that are no session's.
pub data Step {M : Type 0} (pb : Protobuf M) (city_hash : List ℕ → ℕ) (l : Caller M)
    : Caller M → Type 0 where
  call :
      (fresh : ℕ) (method : Method) (request : M) (response done : ℕ) {k : Client M} {h : Heap M}
      {effects : List (Effect M)}
      → l.heap fresh ≡ none
      → l.client.manager.seq + 1 < 2 ^ 64
      → IsSendable pb (request_meta pb city_hash l.client.manager.seq method request) request
      → call_in_loop pb city_hash l.client l.heap fresh method request response done
        ≡ ok (k, h, effects)
      → Step pb city_hash l (record {
        client = k;
        heap = h;
        given = l.given ++ done ∷ [];
        ran = l.ran ++ closures effects;
      })
  end :
      (a : ℕ) (rest bytes : List ℕ) {c : RpcChannel M} {h : Heap M} {actions : List (Action M)}
      → l.client.channel.pending ≡ a ∷ rest
      → Queued l.heap true a bytes
      → written pb client l.client.channel l.heap false (length bytes) ≡ ok (c, h, actions)
      → Step pb city_hash l (record l { client = with_channel l.client c; heap = h })
  fail :
      (n : ℕ) {c : RpcChannel M} {h : Heap M} {actions : List (Action M)}
      → written pb client l.client.channel l.heap true n ≡ ok (c, h, actions)
      → Step pb city_hash l (record l { client = with_channel l.client c; heap = h })
  read :
      (error : Bool) (bytes : List ℕ) {c : RpcChannel M} {actions : List (Action M)}
      → read_in_loop pb l.client.channel error bytes ≡ ok (c, actions)
      → Step pb city_hash l (record l { client = with_channel l.client c })
  respond :
      (incoming : RpcData M) {k : Client M} {h : Heap M} {effects : List (Effect M)}
      → ((session : ClientSession)
          → lookup (get_seq incoming.meta) l.client.manager.sessions ≡ some session
          → contains session.data_ l.client.channel.pending ≡ false)
      → receive_package pb l.client l.heap incoming ≡ ok (k, h, effects)
      → Step pb city_hash l (record l { client = k; heap = h; ran = l.ran ++ closures effects })
  reconnect :
      (error : Bool) {k : Client M} {h : Heap M} {effects : List (Effect M)}
      → connected pb l.client l.heap error ≡ ok (k, h, effects)
      → Step pb city_hash l (record l { client = k; heap = h; ran = l.ran ++ closures effects })
  terminate :
      Step pb city_hash l
        (record l { client = with_channel l.client (terminate_in_loop l.client.channel).0 })
  elsewhere :
      (h : Heap M)
      → ((i : ℕ) (session : ClientSession)
          → lookup i l.client.manager.sessions ≡ some session
          → h session.data_ ≡ l.heap session.data_)
      → Step pb city_hash l (record l { heap = h })

pub data Reach {M : Type 0} (pb : Protobuf M) (city_hash : List ℕ → ℕ) (l : Caller M)
    : Caller M → Type 0 where
  here : Reach pb city_hash l l
  next : {m n : Caller M} → Reach pb city_hash l m → Step pb city_hash m n → Reach pb city_hash l n
