-- ===== src/Client/Requests.antt =====
-- The requests of the sessions of rpc/detail/client_session.h, as objects that can be sent again.
use gboost_rpc.Base.{ℕ, ◌<◌, ◌≡◌, refl, ◌∙◌, true, false, some, List, [], ◌∷◌, length, ok, arith}
use gboost_rpc.RpcData.{RpcData, held, clear_pending_state}
use gboost_rpc.Heap.{Heap, store, contains}
use gboost_rpc.RpcChannel.{RpcChannel}
use gboost_rpc.RpcChannel.Write.{client, recycle_rpc_data, clear_pending_packages, rebuild_socket}
use gboost_rpc.RpcChannel.Queue.{Queued, Items, addresses}
use gboost_rpc.Session.{ClientSession, session_clear_pending}

-- A live object with a filled buffer.
pub record IsLoaded {M : Type 0} (h : Heap M) (a : ℕ) (bytes : List ℕ) : Type 0 where
  pub object : RpcData M
  pub live : h a ≡ some object
  pub buffer : object.buffer ≡ held bytes
  pub filled : 0 < length bytes

-- The requests of the sessions: where they are, and their bytes.
abbrev pub HasRequests : {M : Type 0} → Heap M → List (ℕ × ClientSession) → Items → Type 0
HasRequests h [] [] = Unit
HasRequests h [] (i ∷ items) = ⊥
HasRequests h (s ∷ sessions) [] = ⊥
HasRequests h ((seq, session) ∷ sessions) ((a, bytes) ∷ items) =
    (session.data_ ≡ a) × IsLoaded h a bytes × HasRequests h sessions items

module _ {M : Type 0} where
  clear_pending_packages-client :
      (pending : List ℕ) (h : Heap M) → clear_pending_packages client pending h ≡ ok h
  unfolding clear_pending_packages recycle_rpc_data
  clear_pending_packages-client [] h = refl
  clear_pending_packages-client (a ∷ pending) h = clear_pending_packages-client pending h

  pub rebuild_socket-client :
      (c : RpcChannel M) (h : Heap M)
      → rebuild_socket client c h ≡ ok (record c { pending = []; closed_by_peer = false }, h)
  unfolding rebuild_socket
  rebuild_socket-client c h = rw (clear_pending_packages-client c.pending h)

  pub session_clear_pending-ok :
      (h : Heap M) (session : ClientSession) {a : ℕ} {bytes : List ℕ}
      → session.data_ ≡ a
      → (l : IsLoaded h a bytes)
      → session_clear_pending h session ≡ ok (store h a (some (clear_pending_state l.object)))
  unfolding session_clear_pending
  session_clear_pending-ok h session e l = ground arith

  pub cleared-Queued :
      (h : Heap M) (a : ℕ) {bytes : List ℕ} (l : IsLoaded h a bytes)
      → Queued (store h a (some (clear_pending_state l.object))) false a bytes
  unfolding clear_pending_state
  cleared-Queued h a l = record {
    object = clear_pending_state l.object;
    live = ground arith;
    state = refl;
    buffer = l.buffer;
    filled = l.filled;
  }

  pub HasRequests-same :
      (h h' : Heap M) (sessions : List (ℕ × ClientSession)) (items : Items)
      → ((b : ℕ) → contains b (addresses items) ≡ true → h' b ≡ h b)
      → HasRequests h sessions items
      → HasRequests h' sessions items
  HasRequests-same h h' [] [] same r = tt
  HasRequests-same h h' [] (i ∷ items) same r = r
  HasRequests-same h h' (s ∷ sessions) [] same r = r
  HasRequests-same h h' ((seq, session) ∷ sessions) ((a, bytes) ∷ items) same r = (
    r.0,
    record {
      object = r.1.object;
      live = same a (ground arith) ∙ r.1.live;
      buffer = r.1.buffer;
      filled = r.1.filled;
    },
    HasRequests-same h h' sessions items (λ b i. same b (ground arith)) r.2,
  )
