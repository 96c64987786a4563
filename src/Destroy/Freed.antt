-- ===== src/Destroy/Freed.antt =====
-- ~SessionManager (rpc/detail/client_session.cc) and ~RPCChannel (rpc/detail/rpc_channel.cc): which
-- objects are left.
use gboost_rpc.Base.{
  ℕ, ◌≡◌, refl, ◌∙◌, if◌then◌else◌, Bool, true, false, none, Option, List, [], ◌∷◌, Outcome, ok,
  ◌>>=◌, arith,
}
use gboost_rpc.Protocol.{Protobuf, IsProtobuf}
use gboost_rpc.RpcData.{RpcData}
use gboost_rpc.Heap.{Heap, contains, AllDistinct, store}
use gboost_rpc.RpcChannel.{RpcChannel}
use gboost_rpc.RpcChannel.Write.{client, server, clear_pending_packages, recycle_rpc_data}
use gboost_rpc.RpcChannel.Queue.{Items, addresses, IsSending}
use gboost_rpc.Session.{ClientSession, SessionManager}
use gboost_rpc.Client.Requests.{IsLoaded, HasRequests, HasRequests-same}
use gboost_rpc.Client.History.{Caller, Reach}
use gboost_rpc.Client.Kept.{IsSending-IsLoaded}
use gboost_rpc.Client.Gather.{Gathered, gather}
use gboost_rpc.Client.Refine.{new_caller, new_client-Kept, Reach-Refined}
use gboost_rpc.Destroy.{
  delete_elems, clear_associative, destroy_session, destroy_manager, destroy_channel,
}

-- The objects at these addresses are gone, and all others are as they were.
pub record Freed {M : Type 0} (h : Heap M) (gone : List ℕ) (result : Outcome (Heap M))
    : Type 0 where
  pub heap : Heap M
  pub returns : result ≡ ok heap
  pub left : (b : ℕ) → heap b ≡ (if contains b gone then none else h b)

delete_elems-Freed :
    {M : Type 0} (h : Heap M) (sessions : List (ℕ × ClientSession)) (items : Items)
    → HasRequests h sessions items
    → AllDistinct (addresses items)
    → Freed h
        (addresses items)
        (delete_elems (λ (e : ℕ × ClientSession). destroy_session e.1) sessions h)
unfolding delete_elems
delete_elems-Freed h [] [] r distinct = record { heap = h; returns = refl; left = λ b. refl }
delete_elems-Freed h [] (x ∷ items) r distinct = absurd r
delete_elems-Freed h (x ∷ sessions) [] r distinct = absurd r
delete_elems-Freed h ((number, session) ∷ sessions) ((a, bytes) ∷ items) (e, l, r) distinct =
    let after = store h a none in
    let rest =
      delete_elems-Freed after sessions items
        (HasRequests-same h after sessions items (λ b i. ground (arith, distinct.0)) r)
        distinct.1 in
    record {
      heap = rest.heap;
      returns = ground (arith, e, l.live, rest.returns);
      left = λ b. rest.left b ∙ ground arith;
    }

cleared_associative :
    {S : Type 0} (one : ClientSession → S → Outcome S) (m : List (ℕ × ClientSession)) (s : S)
    → (clear_associative one m s >>= λ r. ok r.1)
      ≡ delete_elems (λ (e : ℕ × ClientSession). one e.1) m s
unfolding clear_associative delete_elems
cleared_associative one [] s = refl
cleared_associative one (x ∷ xs) s = ground arith

destroy_manager-Freed :
    {M : Type 0} (h : Heap M) (m : SessionManager) (items : Items)
    → HasRequests h m.sessions items
    → AllDistinct (addresses items)
    → Freed h (addresses items) (destroy_manager m h)
unfolding destroy_manager
destroy_manager-Freed h m items r distinct =
    rw (cleared_associative destroy_session m.sessions h)
      (delete_elems-Freed h m.sessions items r distinct)

-- At any time in the history of a new client, `~SessionManager` returns: it deletes the request of each
-- call that waits, and each once, and no other object.
pub new_caller-Freed :
    {M : Type 0} {pb : Protobuf M}
    → IsProtobuf pb
    → (city_hash : List ℕ → ℕ) (reconnects : Bool) (h : Heap M) {m : Caller M}
    → Reach pb city_hash (new_caller reconnects h) m
    → (g : Gathered m.heap m.client.manager.sessions) × Freed m.heap
        (addresses g.items)
        (destroy_manager m.client.manager m.heap)
new_caller-Freed law city_hash reconnects h {m} r =
    let v = (Reach-Refined law city_hash (new_client-Kept reconnects h) r).kept in
    let g = gather m.heap 0 m.client.manager.sessions v.valid.sorted v.loaded v.apart in
    (g, destroy_manager-Freed m.heap m.client.manager g.items g.requests g.distinct)

store-IsLoaded :
    {M : Type 0} (h : Heap M) (items : Items) (a : ℕ) (o : Option (RpcData M))
    → contains a (addresses items) ≡ false
    → ((b : ℕ) → contains b (addresses items) ≡ true → (bytes : List ℕ) × IsLoaded h b bytes)
    → (b : ℕ) → contains b (addresses items) ≡ true
    → (bytes : List ℕ) × IsLoaded (store h a o) b bytes
store-IsLoaded h items a o out live b i =
    let (bytes, l) = live b i in
    (
      bytes,
      record {
        object = l.object;
        live = ground (arith, l.live, out, i);
        buffer = l.buffer;
        filled = l.filled;
      },
    )

cleared-Freed :
    {M : Type 0} (h : Heap M) (items : Items)
    → ((b : ℕ) → contains b (addresses items) ≡ true → (bytes : List ℕ) × IsLoaded h b bytes)
    → AllDistinct (addresses items)
    → Freed h (addresses items) (clear_pending_packages server (addresses items) h)
unfolding clear_pending_packages recycle_rpc_data
cleared-Freed h [] live distinct = record { heap = h; returns = refl; left = λ b. refl }
cleared-Freed h ((a, bytes) ∷ items) live distinct =
    let (others, l) = live a (ground arith) in
    let still = store-IsLoaded h items a none distinct.0 (λ b i. live b (ground arith)) in
    let rest = cleared-Freed (store h a none) items still distinct.1 in
    record {
      heap = rest.heap;
      returns = ground (arith, l.live, rest.returns);
      left = λ b. rest.left b ∙ ground arith;
    }

destroyed :
    {M : Type 0} (pending : List ℕ) (h : Heap M) → clear_pending_packages client pending h ≡ ok h
unfolding clear_pending_packages recycle_rpc_data
destroyed [] h = refl
destroyed (a ∷ pending) h = destroyed pending h

-- The queue of a ServerRPCChannel, of which the first message alone is being written:
-- `ClearPendingPackages`, as `RebuildSocket` calls it, deletes the messages that the queue holds, each
-- once, and nothing else; as the destructor calls it, it deletes none of them.
pub clear_pending_packages-Freed :
    {M : Type 0} (c : RpcChannel M) (h : Heap M) (items : Items)
    → IsSending c h items
    → Freed h (addresses items) (clear_pending_packages server c.pending h)
      × (destroy_channel server c h ≡ ok h)
unfolding destroy_channel
clear_pending_packages-Freed c h items s = (
  rw s.queue (cleared-Freed h items (λ b i. IsSending-IsLoaded items b s i) s.distinct),
  destroyed c.pending h,
)
