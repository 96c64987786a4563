-- ===== src/Server/Running.antt =====
-- The constructor, Init, Run, RunInAnotherThread, Stop and AsyncStop of rpc/detail/rpc_server_impl.cc.
-- boost::asio's parser of addresses is a parameter, and so is whether the acceptor can be opened, bound
-- and made to listen, each of which may throw.
use gboost_rpc.Base.{
  ℕ, zero, suc, ◌%◌, ◌^◌, ◌<◌, ◌≡◌, refl, ap, sym, subst, ltb, if◌then◌else◌, Bool, true, false,
  Option, none, some, List, [], ◌∷◌, ◌++◌, map, length, Outcome, ok, fatal, ◌>>=◌, ◌>>◌, check,
  arith,
}
use native.Mathlib.Nat.{zero-mod}
use gboost_rpc.RpcData.{is_empty}
use gboost_rpc.Server.{Server, start_to_accept, get_idlest_dispatcher, Accepting, accept_started}
use gboost_rpc.Server.RoundRobin.{
  IsAt, Listening, turn, started, served, get_idlest_dispatcher-turn, accepted-turn,
}

-- The dispatchers that the constructor makes, by their addresses: of the `i`-th and `n - 1` more.
abbrev new_networkers : (ℕ → ℕ) → ℕ → ℕ → List ℕ
new_networkers fresh i zero = []
new_networkers fresh i (suc n) = fresh i ∷ new_networkers fresh (suc i) n

-- `RPCServerImpl(...)`. `num_threads` is 0 here for a negative number, which fails the same check, and
-- the threshold of channels, which each dispatcher checks, is no negative number.
unfoldable pub new_server : (ℕ → ℕ) → ℕ → Outcome Server
new_server fresh num_threads =
    check (ltb 0 num_threads)
    >> ok (record {
      service_pool = [];
      networkers = new_networkers fresh 0 num_threads;
      i_selected = 0;
    })

-- A default `boost::asio::ip::address`.
abbrev pub any_address : ℕ
any_address = 0

-- `Init`
unfoldable pub init :
    (from_string : List ℕ → Option ℕ) (listens : ℕ → ℕ → Bool)
    → Server
    → List ℕ
    → ℕ
    → Outcome (Server × List Accepting × Bool)
unfolding start_to_accept
init from_string listens s ip port =
    elim (if is_empty ip then some any_address else from_string ip) [
      | none ↦ ok (s, [], false)
      | some address ↦
          if listens address (port % 2 ^ 16)
          then (do (s', actions) ← start_to_accept s; ok (s', actions, true))
          else ok (s, [], false)
    ]

-- What a server asks of its dispatchers: `LoopInAnotherThread`, `Loop`, the post of `CloseAcceptor`,
-- `Stop`, `AsyncStop`.
pub data Running : Type 0 where
  thread_started looped acceptor_closed stopped async_stopped : ℕ → Running

-- `Run`
unfoldable pub run : Server → Outcome (List Running)
run s = elim s.networkers [ [] ↦ fatal | d ∷ ds ↦ ok (map thread_started ds ++ looped d ∷ []) ]

-- `RunInAnotherThread`
unfoldable pub run_in_another_thread : Server → List Running
run_in_another_thread s = map thread_started s.networkers

-- `Stop`
unfoldable pub stop : Server → Outcome (List Running)
stop s = elim s.networkers [ [] ↦ fatal | d ∷ ds ↦ ok (acceptor_closed d ∷ map stopped (d ∷ ds)) ]

-- `AsyncStop`
unfoldable pub async_stop : Server → Outcome (List Running)
async_stop s = elim s.networkers [
  | [] ↦ fatal
  | d ∷ ds ↦ ok (acceptor_closed d ∷ map async_stopped (d ∷ ds))
]

length-new_networkers : (fresh : ℕ → ℕ) (i n : ℕ) → length (new_networkers fresh i n) ≡ n
length-new_networkers fresh i zero = refl
length-new_networkers fresh i (suc n) = ap suc (length-new_networkers fresh (suc i) n)

init_listening :
    (from_string : List ℕ → Option ℕ) (listens : ℕ → ℕ → Bool) (s s' : Server) (ip : List ℕ)
    (port address dispatcher : ℕ)
    → (if is_empty ip then some any_address else from_string ip) ≡ some address
    → listens address (port % 2 ^ 16) ≡ true
    → get_idlest_dispatcher s ≡ ok (s', dispatcher)
    → init from_string listens s ip port ≡ ok (s', accept_started dispatcher ∷ [], true)
unfolding init start_to_accept
init_listening from_string listens s s' ip port address dispatcher parsed listening e =
    rw (init, parsed, listening, e)

-- A server with at least one thread, whose address parses and can be listened to: the constructor and
-- `Init` return, `Init` true, and however the accepts end, while the acceptor is open, with an error or
-- with a connection each: every channel is started, that of the accept of turn `u`, from 0 on, by the
-- dispatcher of turn `u`.
pub new_server-turn :
    (fresh : ℕ → ℕ) (num_threads : ℕ) (from_string : List ℕ → Option ℕ) (listens : ℕ → ℕ → Bool)
    (ip : List ℕ) (port address : ℕ) (errors : List Bool)
    → 0 < num_threads
    → (if is_empty ip then some any_address else from_string ip) ≡ some address
    → listens address (port % 2 ^ 16) ≡ true
    → (s s' : Server) × (dispatcher : ℕ) × (actions : List Accepting) × (new_server fresh
          num_threads
        ≡ ok s)
      × (init from_string listens s ip port ≡ ok (s', accept_started dispatcher ∷ [], true))
      × Listening s' dispatcher errors actions
      × (map some (started actions) ≡ map (turn s.networkers) (served 0 errors))
unfolding new_server
new_server-turn fresh num_threads from_string listens ip port address errors some_thread parsed
      listening =
    let networkers = new_networkers fresh 0 num_threads in
    let s : Server = record { service_pool = []; networkers = networkers; i_selected = 0 } in
    let at : IsAt s 0 = record {
      some_networker = omega (arith, length-new_networkers fresh 0 num_threads);
      next = sym (zero-mod (length networkers));
    } in
    let (s', dispatcher, e, found, at', same) = get_idlest_dispatcher-turn s 0 at in
    let found' : turn s'.networkers 0 ≡ some dispatcher =
      subst (λ ns. turn ns 0 ≡ some dispatcher) (sym same) found in
    let (actions, l, m) = accepted-turn s' 0 dispatcher errors at' found' in
    (
      s,
      s',
      dispatcher,
      actions,
      ground arith,
      init_listening from_string listens s s' ip port address dispatcher parsed listening e,
      l,
      subst (λ ns. map some (started actions) ≡ map (turn ns) (served 0 errors)) same m,
    )
