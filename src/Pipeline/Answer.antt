-- ===== src/Pipeline/Answer.antt =====
-- A client that receives many responses (rpc/detail/rpc_client_impl.cc).
use gboost_rpc.Base.{
  ℕ, ◌≡◌, refl, ap, subst, ◌∙◌, if◌then◌else◌, Bool, false, none, some, List, [], ◌∷◌, ◌++◌, map,
  All, length, take, take-length, ok, arith,
}
use gboost_rpc.Base.Assoc.{lookup, erase, IsAbove, lookup-erase, erase-IsAbove}
use gboost_rpc.Protocol.{Protobuf, IsProtobuf, get_seq, get_message_length}
use gboost_rpc.RpcData.{RpcData}
use gboost_rpc.Heap.{Heap, store, contains, AllDistinct}
use gboost_rpc.Session.{ClientSession}
use gboost_rpc.Client.{Client, Effect, answered, receive_package}
use gboost_rpc.Client.History.{Caller, respond, Reach, next}
use gboost_rpc.Client.Refine.{new_caller, new_client-Kept, Reach-Refined}
use gboost_rpc.Client.Answers.{released_client, new_caller-receive_package}
use gboost_rpc.Pipeline.{Issued, Arrived, nobody, arrive, handle_all, Answer, response_to}

abbrev pub released_all : {M : Type 0} → Client M → List ℕ → Client M
released_all k [] = k
released_all k (n ∷ ns) = released_all (released_client k n) ns

-- The call waits for its response, and its request has left the queue.
abbrev pub Waits : {M : Type 0} → List (ℕ × ClientSession) → List ℕ → Issued M → Type 0
Waits sessions pending r =
    (lookup r.number sessions ≡ some r.session) × (contains r.session.data_ pending ≡ false)

abbrev pub number_of : {M : Type 0} → Answer M → ℕ
number_of (r, x) = r.number

abbrev pub ran_for : {M : Type 0} → Answer M → Effect M
ran_for (r, x) = answered r.session.done r.session.response x

module _ {M : Type 0} where
  -- Who waits then: the others.
  pub released_all-lookup :
      (ns : List ℕ) (k : Client M) (i : ℕ)
      → IsAbove 0 k.manager.sessions
      → lookup i (released_all k ns).manager.sessions
        ≡ (if contains i ns then none else lookup i k.manager.sessions)
  released_all-lookup [] k i sorted = refl
  released_all-lookup (n ∷ ns) k i sorted =
      let later =
        released_all-lookup ns (released_client k n) i
          (erase-IsAbove n 0 k.manager.sessions sorted) in
      ground (arith, later, lookup-erase n i 0 k.manager.sessions sorted)

  released_keeps :
      (sessions : List (ℕ × ClientSession)) (pending : List ℕ) (n : ℕ) (rest : List (Answer M))
      → IsAbove 0 sessions
      → contains n (map number_of rest) ≡ false
      → All (λ (a : Answer M). Waits sessions pending a.0) rest
      → All (λ (a : Answer M). Waits (erase n sessions) pending a.0) rest
  released_keeps sessions pending n [] sorted apart w = tt
  released_keeps sessions pending n ((r, x) ∷ rest) sorted apart ((found, out), w) = (
    (ground (arith, lookup-erase n r.number 0 sessions sorted, found, apart), out),
    released_keeps sessions pending n rest sorted (ground (arith, apart)) w,
  )

module _ {M : Type 0} {pb : Protobuf M} (law : IsProtobuf pb) (city_hash : List ℕ → ℕ)
    (reconnects : Bool) (start : Heap M) where
  abbrev after_answer : Caller M → Answer M → Caller M
  after_answer m (r, x) = record m {
    client = released_client m.client r.number;
    heap = store m.heap r.session.data_ none;
    ran = m.ran ++ r.session.done ∷ [];
  }

  -- The response to a call that waits: its closure runs, and the client goes on from there.
  one_answer :
      {m : Caller M}
      → Reach pb city_hash (new_caller reconnects start) m
      → (r : Issued M) (x : M) (d : RpcData M)
      → Waits m.client.manager.sessions m.client.channel.pending r
      → d.meta ≡ (response_to pb city_hash (r, x)).0
      → pb.from_array d.payload_binaries ≡ some x
      → get_message_length d.meta ≡ length d.payload_binaries
      → (receive_package pb m.client m.heap d
          ≡ ok (
            released_client m.client r.number,
            store m.heap r.session.data_ none,
            ran_for (r, x) ∷ [],
          ))
        × Reach pb city_hash (new_caller reconnects start) (after_answer m (r, x))
  one_answer {m} reach r x d (found, out) e parsed measured =
      let number : get_seq d.meta ≡ r.number = ap get_seq e in
      let found' : lookup (get_seq d.meta) m.client.manager.sessions ≡ some r.session =
        ap (λ n. lookup n m.client.manager.sessions) number ∙ found in
      let parsed' : pb.from_array (take (get_message_length d.meta) d.payload_binaries) ≡ some x =
        ap pb.from_array
          (take-length (get_message_length d.meta) d.payload_binaries (omega (arith, measured)))
        ∙ parsed in
      let got =
        (new_caller-receive_package law city_hash reconnects start reach d r.session x found' out
          parsed').0 in
      let done : receive_package pb m.client m.heap d
          ≡ ok (
            released_client m.client r.number,
            store m.heap r.session.data_ none,
            ran_for (r, x) ∷ [],
          ) =
        got
        ∙ ap
            (λ n.
              ok (
                released_client m.client n,
                store m.heap r.session.data_ none,
                ran_for (r, x) ∷ [],
              ))
            number in
      (
        done,
        next reach (
            respond d
              (λ session at.
                let same : r.session ≡ session = cc in
                subst (λ (t : ClientSession). contains t.data_ m.client.channel.pending ≡ false)
                  same out)
              done),
      )

  -- The client handles the responses to calls that wait, in any order: the closure of each runs, once,
  -- with what answers its own call.
  pub handle_all-Arrived :
      (order : List (Answer M)) (ds : List (RpcData M)) {m : Caller M}
      → Reach pb city_hash (new_caller reconnects start) m
      → Arrived pb (map (response_to pb city_hash) order) ds
      → All (λ (a : Answer M). Waits m.client.manager.sessions m.client.channel.pending a.0) order
      → AllDistinct (map number_of order)
      → (heap : Heap M) × (handle_all pb m.client m.heap ds
          ≡ ok (released_all m.client (map number_of order), heap, map ran_for order))
  unfolding handle_all
  handle_all-Arrived [] _ {m} reach nobody w distinct = (m.heap, refl)
  handle_all-Arrived ((r, x) ∷ order) _ {m} reach (arrive {ds} d e parsed measured rest) (w, ws)
        (apart, distinct) =
      let (done, onward) = one_answer reach r x d w e parsed measured in
      let sorted =
        (Reach-Refined law city_hash (new_client-Kept reconnects start) reach).kept.valid.sorted in
      let (heap, others) =
        handle_all-Arrived order ds onward rest
          (released_keeps m.client.manager.sessions m.client.channel.pending r.number order sorted
            apart ws)
          distinct in
      (heap, rw (done, others) refl)
