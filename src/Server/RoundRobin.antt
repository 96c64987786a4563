-- ===== src/Server/RoundRobin.antt =====
-- The turns of rpc/detail/rpc_server_impl.h (GetIdlestDispatcher) and rpc_server_impl.cc (StartToAccept,
-- Accepted): which dispatcher gets a new connection.
use native.Mathlib.Nat.{mod-lt, mod-add-mod}
use gboost_rpc.Base.{
  ℕ, ◌+◌, ◌%◌, ◌<◌, ◌≡◌, refl, sym, ap, subst, ◌∙◌, Bool, true, false, Option, some, List, [], ◌∷◌,
  ◌++◌, map, length, get_elem?, get_elem?_lt, ok, arith,
}
use gboost_rpc.Server.{
  Server, get_idlest_dispatcher, start_to_accept, accepted, Accepting, start_channel,
  accept_started,
}

-- The dispatcher of turn `t`.
abbrev pub turn : List ℕ → ℕ → Option ℕ
turn networkers t = get_elem? networkers (t % length networkers)

-- A server whose next turn is `t`.
pub record IsAt (s : Server) (t : ℕ) : Type 0 where
  pub some_networker : 0 < length s.networkers
  pub next : s.i_selected ≡ t % length s.networkers

-- The accepts of a server that listens: each ends with an error or with a connection, and the next
-- one is for the dispatcher that `Accepted` selected.
pub data Listening : Server → ℕ → List Bool → List Accepting → Type 0 where
  waits : (s : Server) (dispatcher : ℕ) → Listening s dispatcher [] []
  accepts :
      (s s' : Server) (dispatcher next : ℕ) (error : Bool) (errors : List Bool)
      (front others : List Accepting)
      → accepted s dispatcher error true ≡ ok (s', front ++ (accept_started next ∷ []))
      → Listening s' next errors others
      → Listening s dispatcher (error ∷ errors) (front ++ (accept_started next ∷ others))

-- The channels that were started, by their dispatchers.
abbrev pub started : List Accepting → List ℕ
started [] = []
started (start_channel d ∷ actions) = d ∷ started actions
started (accept_started d ∷ actions) = started actions

-- The turns, from `t` on, of those accepts that end with a connection.
abbrev pub served : ℕ → List Bool → List ℕ
served t [] = []
served t (true ∷ errors) = served (t + 1) errors
served t (false ∷ errors) = t ∷ served (t + 1) errors

-- `GetIdlestDispatcher` never fails, and takes the dispatchers in turn.
pub get_idlest_dispatcher-turn :
    (s : Server) (t : ℕ)
    → IsAt s t
    → (s' : Server) × (selected : ℕ) × (get_idlest_dispatcher s ≡ ok (s', selected))
      × (turn s.networkers t ≡ some selected)
      × IsAt s' (t + 1)
      × (s'.networkers ≡ s.networkers)
unfolding get_idlest_dispatcher
get_idlest_dispatcher-turn s t at =
    let n = length s.networkers in
    let (selected, found) = get_elem?_lt s.networkers (t % n) (mod-lt t at.some_networker) in
    (
      record s { i_selected = (s.i_selected + 1) % n },
      selected,
      ground (arith, at.next, mod-lt t at.some_networker),
      found,
      record {
        some_networker = at.some_networker;
        next = ap (λ i. (i + 1) % n) at.next ∙ mod-add-mod t n 1;
      },
      refl,
    )

-- A server with the dispatchers `networkers` that waits for an accept for the dispatcher of turn
-- `t`: every channel of the connections that it accepts is started, and the connection of turn `u`
-- by the dispatcher of turn `u`.
pub accepted-turn :
    (s : Server) (t dispatcher : ℕ) (errors : List Bool)
    → IsAt s (t + 1)
    → turn s.networkers t ≡ some dispatcher
    → (actions : List Accepting) × Listening s dispatcher errors actions
      × (map some (started actions) ≡ map (turn s.networkers) (served t errors))
unfolding accepted start_to_accept
accepted-turn s t dispatcher [] at h = ([], waits s dispatcher, refl)
accepted-turn s t dispatcher (true ∷ errors) at h =
    let (s', next, e, found, at', same) = get_idlest_dispatcher-turn s (t + 1) at in
    let (others, l, m) =
      accepted-turn s' (t + 1) next errors at'
        (subst (λ ns. turn ns (t + 1) ≡ some next) (sym same) found) in
    (
      accept_started next ∷ others,
      accepts s s' dispatcher next true errors [] others (ground arith) l,
      subst (λ ns. map some (started others) ≡ map (turn ns) (served (t + 1) errors)) same m,
    )
accepted-turn s t dispatcher (false ∷ errors) at h =
    let (s', next, e, found, at', same) = get_idlest_dispatcher-turn s (t + 1) at in
    let (others, l, m) =
      accepted-turn s' (t + 1) next errors at'
        (subst (λ ns. turn ns (t + 1) ≡ some next) (sym same) found) in
    (
      start_channel dispatcher ∷ accept_started next ∷ others,
      accepts s s' dispatcher next false errors (start_channel dispatcher ∷ []) others
          (ground arith) l,
      rw h (
          ap (λ l. some dispatcher ∷ l)
            (subst (λ ns. map some (started others) ≡ map (turn ns) (served (t + 1) errors)) same
              m)),
    )
