-- ===== src/Session.antt =====
-- rpc/detail/client_session.h and client_session.cc: the calls of a client that wait for their
-- responses, by the sequence number of the request.
pub mod Manager
use gboost_rpc.Base.{
  ℕ, ◌+◌, ◌%◌, ◌^◌, ◌==◌, ltb, if◌then◌else◌, Bool, true, false, Option, none, some, List, [], ◌∷◌,
  Outcome, ok, fatal, ◌>>=◌, ◌>>◌, check,
}
use gboost_rpc.Base.Assoc.{lookup, insert, erase}
use gboost_rpc.Protocol.{Meta, empty_meta, Protobuf}
use gboost_rpc.RpcData.{RpcData, new_outgoing, clear_pending_state}
use gboost_rpc.Heap.{Heap, load, store}

-- The request in `data`, a pointer that the session owns, and the caller's response object and
-- closure, which are names here.
pub record ClientSession : Type 0 where
  pub data_ : ℕ
  pub response : ℕ
  pub done : ℕ

-- What a MethodDescriptor says: the index of the method, and the full name of its service.
pub record Method : Type 0 where
  pub index : ℕ
  pub service_name : List ℕ

-- `sessions` is in increasing order of sequence numbers.
pub record SessionManager : Type 0 where
  pub seq : ℕ
  pub sessions : List (ℕ × ClientSession)

-- `SessionManager()`
abbrev pub new_manager : SessionManager
new_manager = record { seq = 0; sessions = [] }

-- `IsPending`
unfoldable pub session_is_pending : {M : Type 0} → Heap M → ClientSession → Outcome Bool
session_is_pending h s = do d ← load h s.data_; ok d.is_pending

-- `ClearPendingState`
unfoldable pub session_clear_pending : {M : Type 0} → Heap M → ClientSession → Outcome (Heap M)
unfolding clear_pending_state
session_clear_pending h s = do
  d ← load h s.data_
  ok (store h s.data_ (some (clear_pending_state d)))

-- `GetServiceID`, over CityHash32.
abbrev pub get_service_id_of : (List ℕ → ℕ) → List ℕ → ℕ
get_service_id_of city_hash name = city_hash name

module _ {M : Type 0} (pb : Protobuf M) (city_hash : List ℕ → ℕ) where
  -- The metadata of a request.
  abbrev pub request_meta : ℕ → Method → M → Meta
  request_meta seq method request = record empty_meta {
    seq = some seq;
    method_id = some method.index;
    service_id = some (get_service_id_of city_hash method.service_name);
    message_length = some (pb.byte_size request);
  }

  -- `SaveSession`. The new RPCData is made at the address `fresh`.
  unfoldable pub save_session :
      SessionManager
      → Heap M
      → ℕ
      → Method
      → M
      → ℕ
      → ℕ
      → Outcome (SessionManager × Heap M × ClientSession)
  unfolding new_outgoing
  save_session m h fresh method request response done = do
    d ← new_outgoing pb (request_meta m.seq method request) request
    let session : ClientSession = record { data_ = fresh; response = response; done = done }
    let (sessions, inserted) = insert m.seq session m.sessions
    check inserted
    ok (record { seq = (m.seq + 1) % 2 ^ 64; sessions = sessions }, store h fresh (some d), session)

-- `ReleaseSession`
unfoldable pub release_session : SessionManager → ℕ → SessionManager × Option ClientSession
release_session m seq = elim (lookup seq m.sessions) [
  | none ↦ (m, none)
  | some session ↦ (record m { sessions = erase seq m.sessions }, some session)
]
