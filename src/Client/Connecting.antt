-- ===== src/Client/Connecting.antt =====
-- RPCClientImpl of rpc/detail/rpc_client_impl.h and rpc_client_impl.cc: the first connect, and the calls.
-- `RunOnce` runs the handler of the one connect that was started, with its result: nothing has stopped
-- the dispatcher yet. The parser of addresses is boost::asio's, and the list of endpoints that it makes
-- of one is not empty. A timer that is destroyed calls its handler with the error that
-- `ExpireToConnect` passes over.
use gboost_rpc.Base.{
  ℕ, ◌%◌, ◌^◌, ◌≡◌, if◌then◌else◌, Bool, Bool-cases, inl, inr, true, false, not, Option, none, some,
  List, [], ◌∷◌, Outcome, ok, fatal, stuck, ◌>>=◌, arith,
}
use gboost_rpc.Protocol.{Protobuf}
use gboost_rpc.Heap.{Heap}
use gboost_rpc.RpcChannel.{Action, read_started}
use gboost_rpc.Session.{Method}
use gboost_rpc.Dispatcher.Life.{loop_in_another_thread}
use gboost_rpc.Client.{Client, Handling, new_client, call_in_loop}

-- `loop_thread` says whether the dispatcher has its thread.
pub record RpcClientImpl (M : Type 0) : Type 0 where
  pub auto_reconnect : Bool
  pub timeout : ℕ
  pub server : Option (ℕ × ℕ)
  pub connection : Option (Client M)
  pub loop_thread : Bool

-- The pointer `timer`: NULL, or to a timer whose block has ended.
pub data Timer : Type 0 where
  no_timer dangling : Timer

-- What `Connect` does to the new connection, and its result.
abbrev pub Connecting : Type 0 → Type 0
Connecting M = Outcome (RpcClientImpl M × List (Action M) × Bool)

module _ {M : Type 0} where
  -- `RPCClientImpl(auto_reconnect)`
  abbrev pub new_impl : Bool → RpcClientImpl M
  new_impl auto_reconnect = record {
    auto_reconnect = auto_reconnect;
    timeout = 0;
    server = none;
    connection = none;
    loop_thread = false;
  }

  -- `Connected`
  unfoldable pub impl_connected : RpcClientImpl M → Timer → Bool → Outcome (RpcClientImpl M)
  impl_connected k timer error =
      let k' = if error then k else record k { connection = some (new_client k.auto_reconnect) } in
      elim timer [ no_timer ↦ ok k' | dangling ↦ fatal ]

  -- The loop of `Connect`, by the results of the connects: an error or none.
  unfoldable pub connect_attempts : RpcClientImpl M → List Bool → Connecting M
  unfolding impl_connected loop_in_another_thread
  connect_attempts k [] = stuck
  connect_attempts k (error ∷ errors) = do
    k' ← impl_connected k (if k.auto_reconnect then dangling else no_timer) error
    let again = connect_attempts k' errors
    elim k'.connection [
      | some c ↦ do
        loop_thread ← loop_in_another_thread k'.loop_thread
        ok (record k' { loop_thread = loop_thread }, read_started ∷ [], true)
      | none ↦ if k.auto_reconnect then again else ok (k', [], false)
    ]

  module _ (from_string : List ℕ → Option ℕ) where
    -- `Connect`
    unfoldable pub connect : RpcClientImpl M → List ℕ → ℕ → ℕ → List Bool → Connecting M
    unfolding connect_attempts
    connect k server port timeout errors = elim k.connection [
      | some c ↦ ok (k, [], false)
      | none ↦ elim (from_string server) [
        | none ↦ ok (record k { timeout = timeout }, [], false)
        | some address ↦
            connect_attempts
              (record k { timeout = timeout; server = some (address, port % 2 ^ 16) }) errors
      ]
    ]

    -- `Connect` of a client that has no connection and no thread, to an address that parses, with the
    -- result of the connect: without automatic reconnects it returns true exactly if the connect
    -- succeeded; then there is a new connection, from which one read is started, and the
    -- dispatcher has its thread, and a second `Connect` changes nothing and returns false; else there
    -- is neither. With automatic reconnects the handler of the connect follows a pointer to a timer
    -- that is gone, whatever the result.
    pub connect_lem :
        (k : RpcClientImpl M) (server : List ℕ) (port timeout address : ℕ) (error : Bool)
        (errors others : List Bool)
        → k.connection ≡ none
        → k.loop_thread ≡ false
        → from_string server ≡ some address
        → (k' : RpcClientImpl M) × (connect k server port timeout (error ∷ errors) ≡ (
            if k.auto_reconnect
            then fatal
            else ok (k', if error then [] else read_started ∷ [], not error)))
          × (k'.connection ≡ (if error then none else some (new_client k.auto_reconnect)))
          × (k'.loop_thread ≡ not error)
          × ((if error then ok (k', [], false) else connect k' server port timeout others)
              ≡ ok (k', [], false))
    unfolding connect connect_attempts impl_connected loop_in_another_thread
    connect_lem k server port timeout address error errors others e l a =
        let named = record k { timeout = timeout; server = some (address, port % 2 ^ 16) } in
        elim (Bool-cases error) [
          | inl bad ↦ (
            named,
            ground (arith, e, l, a, bad),
            ground (arith, e, bad),
            ground (arith, l, bad),
            ground (arith, bad),
          )
          | inr good ↦
              let made = record named {
                connection = some (new_client k.auto_reconnect);
                loop_thread = true;
              } in
              (
                made,
                ground (arith, e, l, a, good),
                ground (arith, good),
                ground (arith, good),
                ground (arith, good),
              )
        ]

  -- `CallMethod`, with the call as it runs in the loop.
  unfoldable pub impl_call_method :
      Protobuf M → (List ℕ → ℕ) → RpcClientImpl M → Heap M → ℕ → Method → M → ℕ → ℕ → Handling M
  unfolding call_in_loop
  impl_call_method pb city_hash k h fresh method request response done = elim k.connection [
    | none ↦ fatal
    | some c ↦ call_in_loop pb city_hash c h fresh method request response done
  ]
