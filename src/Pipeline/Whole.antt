-- ===== src/Pipeline/Whole.antt =====
-- Many calls at once, from the requests of a client to the responses that it handles.
use mathlib.Core.List.{flatten}
use gboost_rpc.Base.{
  ℕ, ◌≡◌, refl, subst, Bool, if◌then◌else◌, false, none, List, [], ◌∷◌, ◌++◌, map, All, ok,
}
use gboost_rpc.Base.Assoc.{lookup}
use gboost_rpc.Protocol.{Protobuf, IsProtobuf}
use gboost_rpc.RpcData.Phases.{Frame}
use gboost_rpc.Heap.{Heap, contains, AllDistinct}
use gboost_rpc.RpcChannel.{Action, new_channel, receive}
use gboost_rpc.RpcChannel.Stream.{stream, IsAligned}
use gboost_rpc.RpcChannel.Transfer.{Wire}
use gboost_rpc.Client.{Client}
use gboost_rpc.Client.History.{Caller, Reach, with_channel}
use gboost_rpc.Client.Refine.{new_caller, new_client-Kept, Reach-Refined}
use gboost_rpc.Server.{Server}
use gboost_rpc.Pipeline.{Issued, Answer, response_to, delivered, serve_all, client_reads}
use gboost_rpc.Pipeline.Arrive.{receive-Arrived}
use gboost_rpc.Pipeline.Serve.{Registered, request_of, answers_to, serve_all-Arrived}
use gboost_rpc.Pipeline.Answer.{
  Waits, released_all, number_of, ran_for, released_all-lookup, handle_all-Arrived,
}
use gboost_rpc.Pipeline.Reads.{client_reads-receive}

-- Some elements of a list, in any order.
pub data Among {A : Type 0} (all : List A) : List A → Type 0 where
  nobody_else : Among all []
  chosen :
      (before after : List A) {x : A} {xs : List A}
      → all ≡ before ++ x ∷ after
      → Among all xs
      → Among all (x ∷ xs)

module _ {A : Type 0} (P : A → Type 0) where
  All-middle : (before after : List A) (x : A) → All P (before ++ x ∷ after) → P x
  All-middle [] after x p = p.0
  All-middle (y ∷ before) after x p = All-middle before after x p.1

  Among-All : {all xs : List A} → Among all xs → All P all → All P xs
  Among-All nobody_else p = tt
  Among-All (chosen before after {x} e others) p =
      (All-middle before after x (subst (λ l. All P l) e p), Among-All others p)

module _ {M : Type 0} {pb : Protobuf M} (law : IsProtobuf pb) (city_hash : List ℕ → ℕ)
    (num_methods : ℕ → ℕ) (reply : (service method : ℕ) → M → M) (s : Server) where
  answers-Waits :
      (P : Issued M → Type 0) (rs : List (Issued M))
      (gs : All (Registered pb city_hash num_methods reply s) rs)
      → All P rs
      → All (λ (a : Answer M). P a.0) (answers_to pb city_hash num_methods reply s rs gs)
  answers-Waits P [] gs w = tt
  answers-Waits P (r ∷ rs) gs w = (w.0, answers-Waits P rs gs.1 w.1)

  -- Any number of calls of a client in the midst of its history, over one connection. Each waits for its
  -- response, and its request has left the queue. The requests reach a new channel of a server that has
  -- the services and methods, written in order and in reads that are not empty and do not end strictly
  -- inside the metadata of a frame. Some of the responses, each at most once, in any order, reach the
  -- client in such reads, while its channel is not terminated and between two messages. Then the server
  -- calls the method of each request, once and in order, and what it answers are the responses to these
  -- calls. The client runs, in the order of the responses, the closure of each call that is answered,
  -- once, on what its own request was answered; of these calls none waits any more, and the others do as
  -- before.
  pub calls-answered :
      (rs : List (Issued M)) (gs : All (Registered pb city_hash num_methods reply s) rs)
      (fs : List Frame) (reads : List (List ℕ))
      → Wire pb (map (request_of pb city_hash num_methods reply s) rs) fs
      → flatten reads ≡ stream fs
      → IsAligned fs reads
      → (order : List (Answer M)) (back : List Frame) (reads' : List (List ℕ))
      → Among (answers_to pb city_hash num_methods reply s rs gs) order
      → AllDistinct (map number_of order)
      → Wire pb (map (response_to pb city_hash) order) back
      → flatten reads' ≡ stream back
      → IsAligned back reads'
      → (reconnects : Bool) (start : Heap M) {m : Caller M}
      → Reach pb city_hash (new_caller reconnects start) m
      → m.client.channel.partial_message ≡ none
      → m.client.channel.terminated ≡ false
      → All (Waits m.client.manager.sessions m.client.channel.pending) rs
      → (actions : List (Action M)) × (receive pb new_channel reads ≡ ok (new_channel, actions))
        × (serve_all pb num_methods reply s (delivered actions)
            ≡ ok (
                map (response_to pb city_hash) (answers_to pb city_hash num_methods reply s rs gs)))
        × (k : Client M) × (heap : Heap M) × (client_reads pb m.client m.heap reads'
            ≡ ok (k, heap, map ran_for order))
        × ((i : ℕ)
            → lookup i k.manager.sessions ≡ (
                if contains i (map number_of order)
                then none
                else lookup i m.client.manager.sessions))
  calls-answered rs gs fs reads w whole aligned order back reads' among distinct w' whole' aligned'
        reconnects start {m} reach fresh running waits =
      let (actions, got, came) =
        receive-Arrived law new_channel _ fs reads refl refl w whole aligned in
      let (actions', got', came') =
        receive-Arrived law m.client.channel _ back reads' fresh running w' whole' aligned' in
      let waits' = Among-All _ among (answers-Waits _ rs gs waits) in
      let (heap, handled) =
        handle_all-Arrived law city_hash reconnects start order (delivered actions') reach came'
          waits' distinct in
      let sorted =
        (Reach-Refined law city_hash (new_client-Kept reconnects start) reach).kept.valid.sorted in
      (
        actions,
        got,
        serve_all-Arrived pb city_hash num_methods reply s rs gs (delivered actions) came,
        with_channel (released_all m.client (map number_of order))
            (record m.client.channel { partial_message = none }),
        heap,
        client_reads-receive pb reads' m.client (released_all m.client (map number_of order)) m.heap
            heap (map ran_for order) (record m.client.channel { partial_message = none }) actions'
            got' handled,
        λ i. released_all-lookup (map number_of order) m.client i sorted,
      )
