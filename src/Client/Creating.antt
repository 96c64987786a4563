-- ===== src/Client/Creating.antt =====
-- CreateRPCClient and ~RPCClientImpl of rpc/detail/rpc_client_impl.cc: a client that is connected, or
-- deleted again.
use gboost_rpc.Base.{
  ℕ, if◌then◌else◌, Bool, false, not, Option, none, some, List, [], ◌∷◌, Outcome, ok, ◌>>=◌,
}
use gboost_rpc.RpcChannel.{Action}
use gboost_rpc.Dispatcher.Life.{Life}
use gboost_rpc.Client.{Client}
use gboost_rpc.Client.Connecting.{RpcClientImpl, new_impl, connect}

-- What `~RPCClientImpl` calls on its dispatcher.
pub data Leaving (M : Type 0) : Type 0 where
  terminate_channel : Option (Client M) → Leaving M
  stop : Leaving M

-- `~RPCClientImpl`. Both calls go ahead if there is no connection.
abbrev pub destroy_impl : {M : Type 0} → RpcClientImpl M → List (Leaving M)
destroy_impl k = terminate_channel k.connection ∷ stop ∷ []

-- What `CreateRPCClient` does with its new client: it returns it, or it deletes it and returns NULL.
pub data Creation (M : Type 0) : Type 0 where
  returns_client : RpcClientImpl M → List (Action M) → Creation M
  deletes_client : RpcClientImpl M → List (Leaving M) → Creation M

-- `CreateRPCClient`
unfoldable pub create_client :
    {M : Type 0} → (List ℕ → Option ℕ) → Bool → List ℕ → ℕ → ℕ → List Bool → Outcome (Creation M)
unfolding connect
create_client from_string auto_reconnect server port timeout errors = do
  (k, actions, good) ← connect from_string (new_impl auto_reconnect) server port timeout errors
  ok (if good then returns_client k actions else deletes_client k (destroy_impl k))

-- Whether a connect to this address succeeds, with this result of the connect.
abbrev pub succeeds : (List ℕ → Option ℕ) → List ℕ → Bool → Bool
succeeds from_string server error = elim (from_string server) [
  | none ↦ false
  | some address ↦ not error
]
