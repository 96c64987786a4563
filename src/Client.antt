-- ===== src/Client.antt =====
-- The client: rpc/detail/client_rpc_channel.h and client_rpc_channel.cc, and the calls and responses
-- of rpc/detail/rpc_client_impl.cc. All of it runs in the loop of one dispatcher.
pub mod Requests
pub mod Reconnect
pub mod Respond
pub mod Calls
pub mod History
pub mod Desk
pub mod Gather
pub mod Kept
pub mod CallKept
pub mod AnswerKept
pub mod Steps
pub mod Refine
pub mod Answers
pub mod Connecting
pub mod Creating
use gboost_rpc.Base.{
  ℕ, if◌then◌else◌, Bool, true, false, not, Option, none, some, List, [], ◌∷◌, ◌++◌, map, take,
  Outcome, ok, fatal, ◌>>=◌, ◌>>◌, check,
}
use gboost_rpc.Protocol.{Protobuf, get_seq, get_message_length}
use gboost_rpc.RpcData.{RpcData}
use gboost_rpc.Heap.{Heap, delete}
use gboost_rpc.RpcChannel.{RpcChannel, Action, new_channel, read_started}
use gboost_rpc.RpcChannel.Write.{client, send_in_loop, rebuild_socket}
use gboost_rpc.Session.{
  ClientSession, Method, SessionManager, new_manager, save_session, release_session,
  session_is_pending, session_clear_pending,
}

-- `reconnects` says that `server_` names an address: it does when the client was made to reconnect.
pub record Client (M : Type 0) : Type 0 where
  pub channel : RpcChannel M
  pub manager : SessionManager
  pub reconnects : Bool

-- What the client sets off: an action of its channel, `async_connect`, the closing of a new socket,
-- or the run of a closure with the response that it was given.
pub data Effect (M : Type 0) : Type 0 where
  acts : Action M → Effect M
  connect_started : Effect M
  socket_closed : Effect M
  answered : (done response : ℕ) → M → Effect M

-- The channel that `RPCClientImpl::Connected` makes, over the manager of a new client: `server` is set
-- if the client is to reconnect.
abbrev pub new_client : {M : Type 0} → Bool → Client M
new_client reconnects = record {
  channel = new_channel;
  manager = new_manager;
  reconnects = reconnects;
}

abbrev pub Handling : Type 0 → Type 0
Handling M = Outcome (Client M × Heap M × List (Effect M))

module _ {M : Type 0} (pb : Protobuf M) where
  -- `ClientRPCChannel::SendInLoop`, with the new RPCData at the address `fresh`.
  unfoldable pub call_in_loop :
      (List ℕ → ℕ) → Client M → Heap M → ℕ → Method → M → ℕ → ℕ → Handling M
  call_in_loop city_hash k h fresh method request response done = do
    (manager, h', session) ←
        save_session pb city_hash k.manager h fresh method request response done
    (channel, h'', actions) ← send_in_loop pb k.channel h' session.data_
    ok (record k { channel = channel; manager = manager }, h'', map acts actions)

  -- The loop of `SendPendingSessions`.
  unfoldable pub send_sessions :
      List (ℕ × ClientSession)
      → RpcChannel M
      → Heap M
      → Outcome (RpcChannel M × Heap M × List (Action M))
  send_sessions [] c h = ok (c, h, [])
  send_sessions ((seq, session) ∷ sessions) c h = do
    h' ← session_clear_pending h session
    (c', h'', actions) ← send_in_loop pb c h' session.data_
    (last, heap, others) ← send_sessions sessions c' h''
    ok (last, heap, actions ++ others)

  -- `SendPendingSessions`
  unfoldable pub send_pending_sessions : Client M → Heap M → Handling M
  unfolding send_sessions
  send_pending_sessions k h = do
    (channel, h', actions) ← send_sessions k.manager.sessions k.channel h
    ok (record k { channel = channel }, h', map acts actions)

  -- `ReconnectOrFail`, the cancellation of a client's channel.
  unfoldable pub reconnect_or_fail : Client M → List (Effect M)
  reconnect_or_fail k =
      if not k.reconnects then [] else if k.channel.terminated then [] else connect_started ∷ []

  -- `ClientRPCChannel::Connected`
  unfoldable pub connected : Client M → Heap M → Bool → Handling M
  connected k h error =
      if k.channel.terminated
      then ok (k, h, socket_closed ∷ [])
      else if error
      then ok (k, h, connect_started ∷ [])
      else (do
        (channel, h') ← rebuild_socket client k.channel h
        (k', h'', effects) ← send_pending_sessions (record k { channel = channel }) h'
        ok (k', h'', acts read_started ∷ effects))

  -- `ClientSession::Done`
  abbrev pub session_done : ClientSession → List ℕ → ℕ → Outcome (List (Effect M))
  session_done session bytes length = elim (pb.from_array (take length bytes)) [
    | none ↦ fatal
    | some x ↦ ok (answered session.done session.response x ∷ [])
  ]

  -- `RPCClientImpl::ReceivePackage`. The incoming message is no heap object: it is deleted here.
  unfoldable pub receive_package : Client M → Heap M → RpcData M → Handling M
  unfolding release_session session_is_pending
  receive_package k h incoming =
      let (manager, found) = release_session k.manager (get_seq incoming.meta) in
      elim found [
        | none ↦ ok (record k { manager = manager }, h, [])
        | some session ↦ do
          effects ←
              session_done session incoming.payload_binaries (get_message_length incoming.meta)
          pending ← session_is_pending h session
          check pending
          h' ← delete h session.data_
          ok (record k { manager = manager }, h', effects)
      ]
