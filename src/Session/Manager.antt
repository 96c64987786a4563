-- ===== src/Session/Manager.antt =====
-- SaveSession and ReleaseSession of rpc/detail/client_session.cc, on a manager in order.
use gboost_rpc.Base.{
  ℕ, ◌+◌, ◌%◌, ◌^◌, ◌≤◌, ◌<◌, ◌≡◌, refl, ◌==◌, if◌then◌else◌, none, some, List, [], ◌∷◌, ◌++◌,
  Outcome, ok, arith,
}
use gboost_rpc.Base.Assoc.{
  lookup, insert, erase, IsAbove, lookup-insert, insert_done, insert-IsAbove, lookup-erase,
  erase-IsAbove,
}
use gboost_rpc.Protocol.{Meta, Protobuf, IsProtobuf}
use gboost_rpc.RpcData.{RpcData}
use gboost_rpc.RpcData.Outgoing.{IsSendable, Serialized, new_outgoing-Serialized}
use gboost_rpc.Heap.{Heap, store}
use gboost_rpc.Session.{
  ClientSession, Method, SessionManager, request_meta, save_session, release_session,
}

-- Every key is below the next sequence number.
abbrev pub AllBelow : ℕ → List (ℕ × ClientSession) → Type 0
AllBelow n [] = Unit
AllBelow n ((j, s) ∷ m) = (j < n) × AllBelow n m

pub record IsManager (m : SessionManager) : Type 0 where
  pub sorted : IsAbove 0 m.sessions
  pub below : AllBelow m.seq m.sessions

pub AllBelow-lookup : (n : ℕ) (m : List (ℕ × ClientSession)) → AllBelow n m → lookup n m ≡ none
AllBelow-lookup n [] h = refl
AllBelow-lookup n ((j, s) ∷ m) h = ground (arith, AllBelow-lookup n m)

AllBelow-insert :
    (n k : ℕ) (v : ClientSession) (m : List (ℕ × ClientSession))
    → k < n
    → AllBelow n m
    → AllBelow n (insert k v m).0
unfolding insert
AllBelow-insert n k v [] h b = (h, tt)
AllBelow-insert n k v ((j, s) ∷ m) h b = ground (arith, AllBelow-insert n k v m)

AllBelow-erase : (n k : ℕ) (m : List (ℕ × ClientSession)) → AllBelow n m → AllBelow n (erase k m)
unfolding erase
AllBelow-erase n k [] b = tt
AllBelow-erase n k ((j, s) ∷ m) b = ground (arith, AllBelow-erase n k m)

AllBelow-le : (n k : ℕ) (m : List (ℕ × ClientSession)) → n ≤ k → AllBelow n m → AllBelow k m
AllBelow-le n k [] h b = tt
AllBelow-le n k ((j, s) ∷ m) h b = (omega arith, AllBelow-le n k m h b.1)

-- A number above all keys is inserted at the end.
insert_last :
    (n : ℕ) (v : ClientSession) (m : List (ℕ × ClientSession))
    → AllBelow n m
    → (insert n v m).0 ≡ m ++ (n, v) ∷ []
unfolding insert
insert_last n v [] b = refl
insert_last n v ((j, s) ∷ m) b = ground (arith, insert_last n v m)

-- What `SaveSession` does: the new session is stored under the next number, with a serialised
-- request, and every other session is as it was.
pub record Saved {M : Type 0} (pb : Protobuf M) (m : SessionManager) (h : Heap M) (fresh : ℕ)
    (session : ClientSession) (meta : Meta) (request : M)
    (result : Outcome (SessionManager × Heap M × ClientSession)) : Type 0 where
  pub manager : SessionManager
  pub object : RpcData M
  pub returns : result ≡ ok (manager, store h fresh (some object), session)
  pub next : manager.seq ≡ m.seq + 1
  pub found :
      (i : ℕ)
      → lookup i manager.sessions ≡ (if m.seq == i then some session else lookup i m.sessions)
  pub latest : manager.sessions ≡ m.sessions ++ (m.seq, session) ∷ []
  pub serialized : Serialized pb meta request object
  pub valid : IsManager manager

module _ {M : Type 0} {pb : Protobuf M} (law : IsProtobuf pb) (city_hash : List ℕ → ℕ) where
  -- `SaveSession` of a request that fits in a frame, before the numbers wrap: it returns, the session
  -- is stored under the next number, which no session had, the request is serialised with that
  -- number, and every other session is as it was.
  pub save_session-Saved :
      (m : SessionManager) (h : Heap M) (fresh : ℕ) (method : Method) (request : M)
      (response done : ℕ)
      → IsManager m
      → m.seq + 1 < 2 ^ 64
      → IsSendable pb (request_meta pb city_hash m.seq method request) request
      → Saved pb m h fresh
          (record { data_ = fresh; response = response; done = done })
          (request_meta pb city_hash m.seq method request)
          request
          (save_session pb city_hash m h fresh method request response done)
  unfolding save_session
  save_session-Saved m h fresh method request response done v room fits =
      let (d, made, serial) =
        new_outgoing-Serialized law (request_meta pb city_hash m.seq method request) request fits in
      let session : ClientSession = record { data_ = fresh; response = response; done = done } in
      let new = AllBelow-lookup m.seq m.sessions v.below in
      let wraps : (m.seq + 1) % 2 ^ 64 ≡ m.seq + 1 = omega arith in
      record {
        manager = record { seq = m.seq + 1; sessions = (insert m.seq session m.sessions).0 };
        object = d;
        returns = rw (made, insert_done m.seq session m.sessions new, wraps);
        next = refl;
        found = λ i. lookup-insert m.seq i 0 session m.sessions v.sorted new;
        latest = insert_last m.seq session m.sessions v.below;
        serialized = serial;
        valid = record {
          sorted = insert-IsAbove m.seq 0 session m.sessions (omega arith) v.sorted;
          below =
              AllBelow-insert (m.seq + 1) m.seq session m.sessions (omega arith)
                (AllBelow-le m.seq (m.seq + 1) m.sessions (omega arith) v.below);
        };
      }

-- `ReleaseSession` of a manager whose sessions are in order and below the next number: it returns
-- the session of its number, if there is one, and forgets it. The others stay, and so does the
-- order.
pub release_session_lem :
    (m : SessionManager) (seq i : ℕ)
    → IsManager m
    → IsManager (release_session m seq).0
      × ((release_session m seq).1 ≡ lookup seq m.sessions)
      × (lookup i (release_session m seq).0.sessions
          ≡ (if seq == i then none else lookup i m.sessions))
unfolding release_session
release_session_lem m seq i v = ground (
  arith,
  erase-IsAbove seq 0 m.sessions,
  AllBelow-erase m.seq seq m.sessions,
  lookup-erase seq i 0 m.sessions,
)
