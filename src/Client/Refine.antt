-- ===== src/Client/Refine.antt =====
-- The histories of a client (rpc/detail/client_rpc_channel.cc, rpc/detail/client_session.cc and
-- rpc/detail/rpc_client_impl.cc) as histories of a desk of calls.
use gboost_rpc.Base.{ℕ, ◌≡◌, refl, subst, Bool, inl, inr, false, List, [], ◌∷◌, map, ok}
use gboost_rpc.Protocol.{Protobuf, IsProtobuf}
use gboost_rpc.Heap.{Heap}
use gboost_rpc.RpcChannel.{Action, read_started}
use gboost_rpc.RpcChannel.Queue.{addresses, IsSending, writes}
use gboost_rpc.RpcChannel.InOrder.{first}
use gboost_rpc.Client.{acts, connected, new_client}
use gboost_rpc.Client.History.{Caller, Reach, here, next}
use gboost_rpc.Client.Desk.{Desk, DeskReach, at_start, after, IsBalanced, DeskReach-IsBalanced}
use gboost_rpc.Client.Steps.{desk_of, Moves, Step-Advances}
use gboost_rpc.Client.Gather.{Gathered, gather}
use gboost_rpc.Client.Reconnect.{connected-Resent}
use gboost_rpc.Client.Kept.{Kept}

pub record Refined {M : Type 0} (l m : Caller M) : Type 0 where
  pub kept : Kept m.client m.heap
  pub desk : DeskReach (desk_of l) (desk_of m)

DeskReach-Moves : {t u w : Desk} → DeskReach t u → Moves u w → DeskReach t w
DeskReach-Moves {t} r (inl same) = subst (λ u. DeskReach t u) same r
DeskReach-Moves r (inr s) = after r s

-- A client refines the desk: from a state that keeps the invariant, whatever happens, in whatever
-- order (calls, ends of writes, good or bad, reads, responses to requests that are not queued,
-- reconnects at any time, the termination, changes to other objects), the invariant is kept, and
-- the numbers, the calls that wait and the closures that ran are those of a history of the desk.
pub Reach-Refined :
    {M : Type 0} {pb : Protobuf M}
    → IsProtobuf pb
    → (city_hash : List ℕ → ℕ) {l m : Caller M} → Kept l.client l.heap
    → Reach pb city_hash l m
    → Refined l m
Reach-Refined law city_hash v here = record { kept = v; desk = at_start }
Reach-Refined law city_hash v (next {m} r s) =
    let before = Reach-Refined law city_hash v r in
    let (kept, moves) = Step-Advances law city_hash m before.kept s in
    record { kept = kept; desk = DeskReach-Moves before.desk moves }

abbrev pub new_caller : {M : Type 0} → Bool → Heap M → Caller M
new_caller reconnects h = record { client = new_client reconnects; heap = h; given = []; ran = [] }

pub new_client-Kept : {M : Type 0} (reconnects : Bool) (h : Heap M) → Kept (new_client reconnects) h
new_client-Kept reconnects h = record {
  valid = record { sorted = tt; below = tt };
  loaded = λ i s e. absurd cc;
  apart = λ i j s t e. absurd cc;
  items = [];
  sending = record { queue = refl; distinct = tt; states = tt };
  owned = λ a i. absurd cc;
  handed = λ i s d e. absurd cc;
}

-- Along every history of a new client each closure that a call brought has run, or waits with its
-- session, together exactly as often as it was given: no response and no reconnect loses a call, or runs
-- a closure twice.
pub new_caller-IsBalanced :
    {M : Type 0} {pb : Protobuf M}
    → IsProtobuf pb
    → (city_hash : List ℕ → ℕ) (reconnects : Bool) (h : Heap M) {m : Caller M}
    → Reach pb city_hash (new_caller reconnects h) m
    → IsBalanced (desk_of m)
new_caller-IsBalanced law city_hash reconnects h r =
    DeskReach-IsBalanced (Reach-Refined law city_hash (new_client-Kept reconnects h) r).desk
      (λ d. refl)

-- At any time in the history of a new client, as long as it is not terminated, a connect that ends
-- well succeeds: whatever was queued or written before, the queue is then the requests of exactly
-- the calls that wait, in the order of their numbers, of which the first alone is being written.
pub new_caller-Resent :
    {M : Type 0} {pb : Protobuf M}
    → IsProtobuf pb
    → (city_hash : List ℕ → ℕ) (reconnects : Bool) (h : Heap M) {m : Caller M}
    → Reach pb city_hash (new_caller reconnects h) m
    → m.client.channel.terminated ≡ false
    → (g : Gathered m.heap m.client.manager.sessions) × (heap : Heap M) × (actions : List
        (Action M))
      × (connected pb m.client m.heap false
          ≡ ok (
            record m.client {
              channel = record m.client.channel {
                pending = addresses g.items;
                closed_by_peer = false;
              };
            },
            heap,
            acts read_started ∷ map acts actions,
          ))
      × IsSending
          (record m.client.channel { pending = addresses g.items; closed_by_peer = false })
          heap
          g.items
      × (writes actions ≡ first g.items)
new_caller-Resent {pb} law city_hash reconnects h {m} r running =
    let v = (Reach-Refined law city_hash (new_client-Kept reconnects h) r).kept in
    let g = gather m.heap 0 m.client.manager.sessions v.valid.sorted v.loaded v.apart in
    let (heap, actions, returns, sending, starts) =
      connected-Resent pb m.client m.heap g.items running g.requests g.distinct in
    (g, heap, actions, returns, sending, starts)
