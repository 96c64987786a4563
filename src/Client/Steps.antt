-- ===== src/Client/Steps.antt =====
-- A client (rpc/detail/client_rpc_channel.cc, rpc/detail/client_session.cc and ReceivePackage of
-- rpc/detail/rpc_client_impl.cc) as a desk of calls, step by step.
use gboost_rpc.Base.{
  ℕ, ◌+◌, ◌^◌, ◌<◌, ◌≡◌, refl, sym, subst, ◌∙◌, ap, ◌==◌, Bool-cases, Option-cases, inl, inr, ◌⊎◌,
  false, none, some, List, [], ◌∷◌, ◌++◌, ok, ok-injective, arith, append-nil,
}
use gboost_rpc.Base.Assoc.{lookup, erase}
use gboost_rpc.Protocol.{Protobuf, IsProtobuf, get_seq}
use gboost_rpc.RpcData.{RpcData}
use gboost_rpc.RpcData.Outgoing.{IsSendable}
use gboost_rpc.Heap.{Heap, contains}
use gboost_rpc.RpcChannel.{terminate_in_loop}
use gboost_rpc.RpcChannel.Queue.{IsSending-same}
use gboost_rpc.Session.{ClientSession, Method, request_meta, release_session}
use gboost_rpc.Client.{Client, Effect, call_in_loop, receive_package}
use gboost_rpc.Client.Calls.{call_in_loop-Called}
use gboost_rpc.Client.History.{
  Caller, Step, call, end, fail, read, respond, reconnect, terminate, elsewhere, closures,
}
use gboost_rpc.Client.Desk.{Desk, DeskStep, take_call, answer}
use gboost_rpc.Client.Kept.{Kept, Kept-same, read-Kept, fail-Kept, end-Kept}
use gboost_rpc.Client.CallKept.{unused_item, Called-Kept}
use gboost_rpc.Client.AnswerKept.{closures-acts, receive_package_inv, answered-Kept, connected-Kept}

-- The calls of the sessions, by their numbers and closures.
abbrev pub calls : List (ℕ × ClientSession) → List (ℕ × ℕ)
calls [] = []
calls ((number, session) ∷ sessions) = (number, session.done) ∷ calls sessions

calls-append : (xs ys : List (ℕ × ClientSession)) → calls (xs ++ ys) ≡ calls xs ++ calls ys
calls-append [] ys = refl
calls-append ((number, session) ∷ xs) ys = ap (λ t. (number, session.done) ∷ t) (calls-append xs ys)

-- What a client is at its desk.
abbrev pub desk_of : {M : Type 0} → Caller M → Desk
desk_of l = record {
  next_number = l.client.manager.seq;
  waits = calls l.client.manager.sessions;
  given = l.given;
  ran = l.ran;
}

-- A session that is released leaves its place among the calls.
pub record Released (sessions : List (ℕ × ClientSession)) (number : ℕ) (session : ClientSession)
    : Type 0 where
  pub front : List (ℕ × ℕ)
  pub back : List (ℕ × ℕ)
  pub stood : calls sessions ≡ front ++ (number, session.done) ∷ back
  pub left : calls (erase number sessions) ≡ front ++ back

erase-Released :
    (number : ℕ) (session : ClientSession) (sessions : List (ℕ × ClientSession))
    → lookup number sessions ≡ some session
    → Released sessions number session
unfolding erase
erase-Released number session [] e = absurd cc
erase-Released number session ((j, w) ∷ sessions) e = elim (Bool-cases (j == number)) [
  | inl at ↦
      let one : some w ≡ some session = ground (arith, e, at) in
      let same : w ≡ session = cc in
      record {
        front = [];
        back = calls sessions;
        stood = ground (arith, same, at);
        left = ground (arith, at);
      }
  | inr later ↦
      let r = erase-Released number session sessions (ground (arith, e, later)) in
      record {
        front = (j, w.done) ∷ r.front;
        back = r.back;
        stood = ap (λ t. (j, w.done) ∷ t) r.stood;
        left = ground (arith, later, r.left);
      }
]

-- Nothing happens at the desk, or one step.
abbrev pub Moves : Desk → Desk → Type 0
Moves t u = (t ≡ u) ⊎ DeskStep t u

module _ {M : Type 0} {pb : Protobuf M} (law : IsProtobuf pb) (city_hash : List ℕ → ℕ)
    (l : Caller M) (v : Kept l.client l.heap) where
  -- The state behind a handler of which the result is known.
  abbrev behind : List ℕ → Client M × Heap M × List (Effect M) → Caller M
  behind given r = record { client = r.0; heap = r.1; given = given; ran = l.ran ++ closures r.2 }

  abbrev pub Advances : Caller M → Type 0
  Advances m = Kept m.client m.heap × Moves (desk_of l) (desk_of m)

  call-Advances :
      (fresh : ℕ) (method : Method) (request : M) (response done : ℕ)
      {r : Client M × Heap M × List (Effect M)}
      → l.heap fresh ≡ none
      → l.client.manager.seq + 1 < 2 ^ 64
      → IsSendable pb (request_meta pb city_hash l.client.manager.seq method request) request
      → call_in_loop pb city_hash l.client l.heap fresh method request response done ≡ ok r
      → Advances (behind (l.given ++ done ∷ []) r)
  call-Advances fresh method request response done new room fits e =
      let (d, z, called) =
        call_in_loop-Called law city_hash l.client l.heap fresh method request response done v.items
          v.valid room fits v.sending (unused_item v fresh new) in
      subst (λ r. Advances (behind (l.given ++ done ∷ []) r))
        (ok-injective (sym called.returns ∙ e))
        (
          Called-Kept v fresh new refl called,
          inr (
              rw
                (
                  called.number,
                  called.latest,
                  calls-append,
                  closures-acts called.actions,
                  append-nil,
                )
                (take_call done)),
        )

  respond-Advances :
      (incoming : RpcData M) {r : Client M × Heap M × List (Effect M)}
      → ((session : ClientSession)
          → lookup (get_seq incoming.meta) l.client.manager.sessions ≡ some session
          → contains session.data_ l.client.channel.pending ≡ false)
      → receive_package pb l.client l.heap incoming ≡ ok r
      → Advances (behind l.given r)
  unfolding receive_package release_session
  respond-Advances incoming out e =
      elim (Option-cases (lookup (get_seq incoming.meta) l.client.manager.sessions)) [
        | inl unknown ↦
            let same : receive_package pb l.client l.heap incoming ≡ ok (l.client, l.heap, []) =
              ground (arith, unknown) in
            subst (λ r. Advances (behind l.given r)) (ok-injective (sym same ∙ e))
              (v, inl (rw append-nil))
        | inr (session, found) ↦
            let (bytes, loaded) = v.loaded (get_seq incoming.meta) session found in
            let (x, known) =
              receive_package_inv pb l.client l.heap v incoming session loaded.object found
                loaded.live e in
            let gone =
              erase-Released (get_seq incoming.meta) session l.client.manager.sessions found in
            subst (λ r. Advances (behind l.given r)) (sym known)
              (
                answered-Kept pb l.client l.heap v incoming session found
                    (rw v.sending.queue at (out session found)),
                inr (
                    rw gone.left (
                      answer gone.front gone.back (get_seq incoming.meta) session.done gone.stood)),
              )
      ]

  elsewhere-Kept :
      (h : Heap M)
      → ((i : ℕ) (session : ClientSession)
          → lookup i l.client.manager.sessions ≡ some session
          → h session.data_ ≡ l.heap session.data_)
      → Kept l.client h
  elsewhere-Kept h same = record {
    valid = v.valid;
    loaded = λ i s e.
        let (bytes, r) = v.loaded i s e in
        (
          bytes,
          record {
            object = r.object;
            live = same i s e ∙ r.live;
            buffer = r.buffer;
            filled = r.filled;
          },
        );
    apart = v.apart;
    items = v.items;
    sending =
        IsSending-same
          (λ b i.
            let o = v.owned b i in
            subst (λ a. h a ≡ l.heap a) o.at_address (same o.number o.session o.found))
          v.sending;
    owned = v.owned;
    handed = λ i s d e out live. v.handed i s d e out (sym (same i s e) ∙ live);
  }

  pub Step-Advances : {m : Caller M} → Step pb city_hash l m → Advances m
  unfolding terminate_in_loop
  Step-Advances (call fresh method request response done new room fits e) =
      call-Advances fresh method request response done new room fits e
  Step-Advances (end a rest bytes pending q e) = (
    end-Kept pb l.client l.heap v v.items a rest bytes v.sending v.owned v.handed pending q e,
    inl refl,
  )
  Step-Advances (fail n e) = (fail-Kept pb l.client l.heap v n e, inl refl)
  Step-Advances (read error bytes e) = (read-Kept pb l.client l.heap v error bytes e, inl refl)
  Step-Advances (respond incoming out e) = respond-Advances incoming out e
  Step-Advances (reconnect error e) =
      let (kept, same, silent) = connected-Kept pb l.client l.heap v error e in
      (kept, inl (rw (same, silent, append-nil)))
  Step-Advances terminate = (Kept-same v _ refl, inl refl)
  Step-Advances (elsewhere h same) = (elsewhere-Kept h same, inl refl)
