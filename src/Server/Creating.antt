-- ===== src/Server/Creating.antt =====
-- CreateRPCServer and ~RPCServerImpl of rpc/detail/rpc_server_impl.cc.
use gboost_rpc.Base.{
  ℕ, ◌≡◌, ◌==◌, if◌then◌else◌, Bool, Bool-cases, true, false, inl, inr, Option, List, [], ◌∷◌, ap,
  refl, ==_refl, Outcome, ok, fatal, ◌>>=◌, arith,
}
use gboost_rpc.Heap.{contains, AllDistinct}
use gboost_rpc.Destroy.{delete_elems, clear_sequential}
use gboost_rpc.Server.{Server, Accepting}
use gboost_rpc.Server.Running.{new_server, init}

-- The dispatchers that are there.
abbrev pub Dispatchers : Type 0
Dispatchers = ℕ → Bool

abbrev delete_dispatcher : ℕ → Dispatchers → Outcome Dispatchers
delete_dispatcher a ds = if ds a then ok (λ b. if b == a then false else ds b) else fatal

-- `~RPCServerImpl`
unfoldable pub destroy_server : Server → Dispatchers → Outcome Dispatchers
unfolding clear_sequential
destroy_server s ds = do (left, ds') ← clear_sequential delete_dispatcher s.networkers ds; ok ds'

-- What `CreateRPCServer` does with its new server: it returns it, or it deletes it and returns NULL.
pub data ServerCreation : Type 0 where
  returns_server : Server → List Accepting → ServerCreation
  deletes_server : Dispatchers → ServerCreation

-- `CreateRPCServer`. `made` is what is there behind the constructor.
unfoldable pub create_server :
    (fresh : ℕ → ℕ) (made : Dispatchers) (from_string : List ℕ → Option ℕ) (listens : ℕ → ℕ → Bool)
    → ℕ
    → List ℕ
    → ℕ
    → Outcome ServerCreation
unfolding new_server init destroy_server
create_server fresh made from_string listens num_threads ip port = do
  s ← new_server fresh num_threads
  (s', actions, good) ← init from_string listens s ip port
  if good
      then ok (returns_server s' actions)
      else (do ds ← destroy_server s' made; ok (deletes_server ds))

delete_dispatchers :
    (as' : List ℕ) (ds : Dispatchers)
    → AllDistinct as'
    → ((a : ℕ) → contains a as' ≡ true → ds a ≡ true)
    → (left : Dispatchers) × (delete_elems delete_dispatcher as' ds ≡ ok left)
      × ((a : ℕ) → left a ≡ (if contains a as' then false else ds a))
unfolding delete_elems
delete_dispatchers [] ds distinct there = (ds, refl, λ a. refl)
delete_dispatchers (a ∷ as') ds (apart, distinct) there =
    let others : Dispatchers = λ b. if b == a then false else ds b in
    let still : (c : ℕ) → contains c as' ≡ true → others c ≡ true = λ c at.
      elim (Bool-cases (c == a)) [
        | inl same ↦
            let e : c ≡ a = ground arith in
            absurd (ground (arith, at, apart, ap (λ x. contains x as') e))
        | inr other ↦ ground (arith, other, there c, at)
      ] in
    let (left, ran, gone) = delete_dispatchers as' others distinct still in
    let here : delete_dispatcher a ds ≡ ok others = ground (arith, there a, ==_refl a) in
    (left, rw (delete_elems, here) ran, λ b. ground (arith, gone b))

cleared :
    (as' : List ℕ) (ds left : Dispatchers)
    → delete_elems delete_dispatcher as' ds ≡ ok left
    → (clear_sequential delete_dispatcher as' ds >>= λ r. ok r.1) ≡ ok left
unfolding clear_sequential delete_elems
cleared [] ds left e = e
cleared (a ∷ as') ds left e = rw e refl

-- The destructor of a server whose dispatchers are there and are different ones deletes each, once, and
-- no other.
pub destroy_server_lem :
    (s : Server) (ds : Dispatchers)
    → AllDistinct s.networkers
    → ((a : ℕ) → contains a s.networkers ≡ true → ds a ≡ true)
    → (left : Dispatchers) × (destroy_server s ds ≡ ok left)
      × ((a : ℕ) → left a ≡ (if contains a s.networkers then false else ds a))
unfolding destroy_server
destroy_server_lem s ds distinct there =
    let (left, ran, gone) = delete_dispatchers s.networkers ds distinct there in
    (left, cleared s.networkers ds left ran, gone)
