-- ===== src/Pipeline.antt =====
-- Many calls at once over one connection: what the receivers of rpc/detail/rpc_server_impl.cc and
-- rpc/detail/rpc_client_impl.cc do with the messages that ReadInLoop of rpc/detail/rpc_channel.cc hands
-- to them, in order.
pub mod Arrive
pub mod Serve
pub mod Answer
pub mod Reads
pub mod Whole
use gboost_rpc.Base.{
  ℕ, ◌≡◌, false, Option, none, some, List, [], ◌∷◌, ◌++◌, length, Outcome, ok, ◌>>=◌, ◌>>◌,
}
use gboost_rpc.Protocol.{Meta, Protobuf, get_message_length}
use gboost_rpc.RpcData.{RpcData}
use gboost_rpc.Heap.{Heap}
use gboost_rpc.RpcChannel.{
  Action, received, cancelled, read_started, write_started, shut_down, read_in_loop,
}
use gboost_rpc.Session.{ClientSession, Method, request_meta}
use gboost_rpc.Client.{Client, Effect, receive_package}
use gboost_rpc.Client.History.{with_channel}
use gboost_rpc.Server.{Server, Call, dropped, called, call_method}
use gboost_rpc.Server.Services.{response_meta}

-- A call of a client: its number, its method, its request, and the session that waits for the
-- response.
pub record Issued (M : Type 0) : Type 0 where
  pub number : ℕ
  pub method : Method
  pub request : M
  pub session : ClientSession

-- A call, with what it is answered.
abbrev pub Answer : Type 0 → Type 0
Answer M = Issued M × M

-- The response that answers it.
abbrev pub response_to : {M : Type 0} → Protobuf M → (List ℕ → ℕ) → Answer M → Meta × M
response_to pb city_hash (r, x) =
    (response_meta pb (request_meta pb city_hash r.number r.method r.request) x, x)

-- The messages that `receiver_` was given.
abbrev pub delivered : {M : Type 0} → List (Action M) → List (RpcData M)
delivered [] = []
delivered (received d ∷ actions) = d ∷ delivered actions
delivered (cancelled ∷ actions) = delivered actions
delivered (read_started ∷ actions) = delivered actions
delivered (write_started b ∷ actions) = delivered actions
delivered (shut_down ∷ actions) = delivered actions

-- These messages arrived: the metadata, and a payload of the length that they name, which parses.
pub data Arrived {M : Type 0} (pb : Protobuf M) : List (Meta × M) → List (RpcData M) → Type 0 where
  nobody : Arrived pb [] []
  arrive :
      {m : Meta} {x : M} {ms : List (Meta × M)} {ds : List (RpcData M)} (d : RpcData M)
      → d.meta ≡ m
      → pb.from_array d.payload_binaries ≡ some x
      → get_message_length d.meta ≡ length d.payload_binaries
      → Arrived pb ms ds
      → Arrived pb ((m, x) ∷ ms) (d ∷ ds)

module _ {M : Type 0} (pb : Protobuf M) where
  -- The server's receiver. `reply` is what the methods of the services answer; the response carries
  -- the metadata of the request.
  module _ (num_methods : ℕ → ℕ) (reply : (service method : ℕ) → M → M) (s : Server) where
    abbrev pub responses : Call M → List (Meta × M)
    responses dropped = []
    responses (called service method request meta) =
        (response_meta pb meta (reply service method request), reply service method request) ∷ []

    unfoldable pub serve_all : List (RpcData M) → Outcome (List (Meta × M))
    unfolding call_method
    serve_all [] = ok []
    serve_all (d ∷ ds) = do
      c ← call_method pb num_methods s d
      others ← serve_all ds
      ok (responses c ++ others)

  -- The client's receiver.
  unfoldable pub handle_all :
      Client M → Heap M → List (RpcData M) → Outcome (Client M × Heap M × List (Effect M))
  unfolding receive_package
  handle_all k h [] = ok (k, h, [])
  handle_all k h (d ∷ ds) = do
    (k', h', effects) ← receive_package pb k h d
    (last, heap, others) ← handle_all k' h' ds
    ok (last, heap, effects ++ others)

  -- The reads of a client, each with the handling of the messages that it completes.
  unfoldable pub client_reads :
      Client M → Heap M → List (List ℕ) → Outcome (Client M × Heap M × List (Effect M))
  unfolding handle_all read_in_loop
  client_reads k h [] = ok (k, h, [])
  client_reads k h (bytes ∷ more) = do
    (c, actions) ← read_in_loop pb k.channel false bytes
    (k', h', effects) ← handle_all (with_channel k c) h (delivered actions)
    (last, heap, others) ← client_reads k' h' more
    ok (last, heap, effects ++ others)
