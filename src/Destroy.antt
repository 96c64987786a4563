-- ===== src/Destroy.antt =====
-- The destructors: of RPCChannel (rpc/detail/rpc_channel.cc), of SessionManager and ClientSession
-- (rpc/detail/client_session.cc), over the helpers of rpc/detail/util.h that delete the elements of a
-- container.
pub mod Freed
use gboost_rpc.Base.{ℕ, List, [], ◌∷◌, Outcome, ok, ◌>>=◌}
use gboost_rpc.Heap.{Heap, delete}
use gboost_rpc.RpcChannel.{RpcChannel}
use gboost_rpc.RpcChannel.Write.{Side, client, server, clear_pending_packages}
use gboost_rpc.Session.{ClientSession, SessionManager}

-- The loop of both helpers; `delete_one` is the destructor of an element. The container is empty then.
unfoldable pub delete_elems {ℓ κ} :
    {E : Type ℓ} {S : Type κ} → (E → S → Outcome S) → List E → S → Outcome S
delete_elems delete_one [] s = ok s
delete_elems delete_one (x ∷ xs) s = do s' ← delete_one x s; delete_elems delete_one xs s'

-- `ClearHeapElemsInSequentialContainer`
unfoldable pub clear_sequential {ℓ κ} :
    {E : Type ℓ} {S : Type κ} → (E → S → Outcome S) → List E → S → Outcome (List E × S)
unfolding delete_elems
clear_sequential delete_one [] s = ok ([], s)
clear_sequential delete_one (x ∷ xs) s = do s' ← delete_elems delete_one (x ∷ xs) s; ok ([], s')

-- `ClearHeapElemsInAssociativeContainer`
unfoldable pub clear_associative {ℓ κ} :
    {E : Type ℓ} {S : Type κ} → (E → S → Outcome S) → List (ℕ × E) → S → Outcome (List (ℕ × E) × S)
unfolding delete_elems
clear_associative delete_one [] s = ok ([], s)
clear_associative {E = E} delete_one (x ∷ xs) s = do
  s' ← delete_elems (λ (e : ℕ × E). delete_one e.1) (x ∷ xs) s
  ok ([], s')

-- The `RecycleRPCData` that the destructor of RPCChannel calls: the part of the object that belongs
-- to the subclass is gone by then, so that the call stays in RPCChannel, of which the method is empty,
-- as a ClientRPCChannel's is.
abbrev recycles_in_destructor : Side → Side
recycles_in_destructor client = client
recycles_in_destructor server = client

module _ {M : Type 0} where
  -- `~ClientSession`: `data_` owns the request.
  abbrev pub destroy_session : ClientSession → Heap M → Outcome (Heap M)
  destroy_session session h = delete h session.data_

  -- `~SessionManager`
  unfoldable pub destroy_manager : SessionManager → Heap M → Outcome (Heap M)
  unfolding clear_associative
  destroy_manager m h = do (sessions, h') ← clear_associative destroy_session m.sessions h; ok h'

  -- `~RPCChannel`, which also closes the socket.
  unfoldable pub destroy_channel : Side → RpcChannel M → Heap M → Outcome (Heap M)
  unfolding clear_pending_packages
  destroy_channel side c h = clear_pending_packages (recycles_in_destructor side) c.pending h
