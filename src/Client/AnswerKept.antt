-- ===== src/Client/AnswerKept.antt =====
-- The responses and reconnects of a client (rpc/detail/rpc_client_impl.cc,
-- rpc/detail/client_rpc_channel.cc), each from a state that keeps the invariant.
use gboost_rpc.Base.{
  ℕ, ◌≡◌, refl, sym, subst, ◌∙◌, ap, Bool, Bool-cases, Option-cases, inl, inr, false, true, ◌==◌,
  none, some, List, [], ◌∷◌, take, map, ok, ok-injective, arith,
}
use gboost_rpc.Base.Assoc.{lookup, erase, lookup-erase}
use gboost_rpc.Protocol.{Protobuf, get_seq, get_message_length}
use gboost_rpc.RpcData.{RpcData}
use gboost_rpc.Heap.{Heap, contains, store}
use gboost_rpc.RpcChannel.{RpcChannel, Action}
use gboost_rpc.RpcChannel.Queue.{Items, addresses, IsSending, IsSending-store}
use gboost_rpc.Session.{ClientSession, SessionManager, release_session}
use gboost_rpc.Session.Manager.{IsManager, release_session_lem}
use gboost_rpc.Client.{
  Client, Effect, acts, answered, connect_started, socket_closed, receive_package, connected,
}
use gboost_rpc.Client.Requests.{HasRequests}
use gboost_rpc.Client.Reconnect.{connected-Resent}
use gboost_rpc.Client.History.{with_channel, closures}
use gboost_rpc.Client.Gather.{Gathered, gather}
use gboost_rpc.Client.Kept.{Kept, IsSending-IsLoaded}

pub closures-acts : {M : Type 0} (actions : List (Action M)) → closures (map acts actions) ≡ []
closures-acts [] = refl
closures-acts (a ∷ actions) = closures-acts actions

requested :
    {M : Type 0} (h : Heap M) (sessions : List (ℕ × ClientSession)) (items : Items) (i : ℕ)
    (s : ClientSession)
    → HasRequests h sessions items
    → lookup i sessions ≡ some s
    → contains s.data_ (addresses items) ≡ true
requested h [] items i s r e = absurd cc
requested h (x ∷ sessions) [] i s r e = absurd r
requested h ((j, w) ∷ sessions) ((a, bytes) ∷ items) i s r e = elim (Bool-cases (j == i)) [
  | inl here ↦
      let one : some w ≡ some s = ground (arith, e, here) in
      let same : w ≡ s = cc in
      let at : s.data_ ≡ a = sym (ap (λ (t : ClientSession). t.data_) same) ∙ r.0 in
      ground (arith, at)
  | inr later ↦ ground (arith, requested h sessions items i s r.2 (ground (arith, e, later)))
]

-- The queue of all requests.
pub Kept-resent :
    {M : Type 0} {k : Client M} {h h' : Heap M} (v : Kept k h) (c : RpcChannel M)
    (g : Gathered h k.manager.sessions)
    → IsSending c h' g.items
    → Kept (with_channel k c) h'
Kept-resent {k = k} {h} v c g s = record {
  valid = v.valid;
  loaded = λ i session e.
      IsSending-IsLoaded g.items session.data_ s
        (requested h k.manager.sessions g.items i session g.requests e);
  apart = v.apart;
  items = g.items;
  sending = s;
  owned = g.owned;
  handed = λ i session d e out live.
      absurd (ground (arith, requested h k.manager.sessions g.items i session g.requests e, out));
}

module _ {M : Type 0} (pb : Protobuf M) (k : Client M) (h : Heap M) (v : Kept k h) where
  -- A package that was handled, for an open session whose request is not queued.
  pub receive_package_inv :
      (incoming : RpcData M) (session : ClientSession) (d : RpcData M)
      {r : Client M × Heap M × List (Effect M)}
      → lookup (get_seq incoming.meta) k.manager.sessions ≡ some session
      → h session.data_ ≡ some d
      → receive_package pb k h incoming ≡ ok r
      → (x : M) × (r ≡ (
        record k {
          manager = record k.manager {
            sessions = erase (get_seq incoming.meta) k.manager.sessions;
          };
        },
        store h session.data_ none,
        answered session.done session.response x ∷ [],
      ))
  unfolding receive_package
  receive_package_inv incoming session d found live e =
      elim (Option-cases
        (pb.from_array (take (get_message_length incoming.meta) incoming.payload_binaries))) [
          | inl bad ↦ absurd (ground (arith, found, bad, e))
          | inr (x, good) ↦ (
            x,
            ok-injective (
                sym e ∙ (elim (Bool-cases d.is_pending) [
                  | inl pending ↦ ground (arith, found, live, good, pending)
                  | inr idle ↦ absurd (ground (arith, found, live, good, idle, e))
                ])),
          )
        ]

  module _ (incoming : RpcData M) (session : ClientSession)
      (found : lookup (get_seq incoming.meta) k.manager.sessions ≡ some session)
      (out : contains session.data_ (addresses v.items) ≡ false) where
    abbrev rest : SessionManager
    rest = record k.manager { sessions = erase (get_seq incoming.meta) k.manager.sessions }

    rest_found :
        (i : ℕ) (s : ClientSession)
        → lookup i rest.sessions ≡ some s
        → ((get_seq incoming.meta == i) ≡ false) × (lookup i k.manager.sessions ≡ some s)
    rest_found i s e =
        ground (arith, lookup-erase (get_seq incoming.meta) i 0 k.manager.sessions v.valid.sorted)

    rest_still :
        (i : ℕ) (s : ClientSession)
        → lookup i k.manager.sessions ≡ some s
        → (get_seq incoming.meta == i) ≡ false
        → lookup i rest.sessions ≡ some s
    rest_still i s e other =
        ground (arith, lookup-erase (get_seq incoming.meta) i 0 k.manager.sessions v.valid.sorted)

    rest-IsManager : IsManager rest
    unfolding release_session
    rest-IsManager =
        ground (arith, release_session_lem k.manager (get_seq incoming.meta) 0 v.valid, found)

    -- No other session has the request of the session that is released.
    rest_apart :
        (i : ℕ) (s : ClientSession)
        → lookup i rest.sessions ≡ some s
        → (s.data_ == session.data_) ≡ false
    rest_apart i s e = elim (Bool-cases (s.data_ == session.data_)) [
      | inr ne ↦ ne
      | inl same ↦
          let (other, old) = rest_found i s e in
          let both : i ≡ get_seq incoming.meta =
            v.apart i (get_seq incoming.meta) s session old found (ground arith) in
          absurd (ground (arith, other, both))
    ]

    pub answered-Kept : Kept (record k { manager = rest }) (store h session.data_ none)
    answered-Kept = record {
      valid = rest-IsManager;
      loaded = λ i s e.
          let (other, old) = rest_found i s e in
          let (bytes, l) = v.loaded i s old in
          let ne = rest_apart i s e in
          (
            bytes,
            record {
              object = l.object;
              live = ground (arith, ne, l.live);
              buffer = l.buffer;
              filled = l.filled;
            },
          );
      apart = λ i j s t e f same. v.apart i j s t (rest_found i s e).1 (rest_found j t f).1 same;
      items = v.items;
      sending = IsSending-store session.data_ none out v.sending;
      owned = λ a i.
          let o = v.owned a i in
          let ne : (get_seq incoming.meta == o.number) ≡ false =
            elim (Bool-cases (get_seq incoming.meta == o.number)) [
              | inr ne ↦ ne
              | inl same ↦
                  let both : some session ≡ some o.session = ground (arith, found, o.found) in
                  let one : session ≡ o.session = cc in
                  let at : session.data_ ≡ a =
                    ap (λ (t : ClientSession). t.data_) one ∙ o.at_address in
                  absurd (ground (arith, ap (λ b. contains b (addresses v.items)) at, out, i))
            ] in
          record {
            number = o.number;
            session = o.session;
            found = rest_still o.number o.session o.found ne;
            at_address = o.at_address;
          };
      handed = λ i s d e away live.
          v.handed i s d (rest_found i s e).1 away (ground (arith, live, rest_apart i s e));
    }

  -- A reconnect, of whatever result: the sessions stay, no closure runs, and the invariant is kept.
  pub connected-Kept :
      (error : Bool) {k' : Client M} {h' : Heap M} {effects : List (Effect M)}
      → connected pb k h error ≡ ok (k', h', effects)
      → Kept k' h' × (k'.manager ≡ k.manager) × (closures effects ≡ [])
  unfolding connected
  connected-Kept error {k'} {h'} {effects} e =
      let known = λ (r : Client M × Heap M × List (Effect M)).
        λ (s : Kept r.0 r.1 × (r.0.manager ≡ k.manager) × (closures r.2 ≡ []))
            (f : connected pb k h error ≡ ok r).
          subst
            (λ (p : Client M × Heap M × List (Effect M)).
              Kept p.0 p.1 × (p.0.manager ≡ k.manager) × (closures p.2 ≡ []))
            (ok-injective (sym f ∙ e)) s in
      elim (Bool-cases k.channel.terminated) [
        | inl over ↦ known (k, h, socket_closed ∷ []) (v, refl, refl) (ground (arith, over))
        | inr running ↦ elim (Bool-cases error) [
          | inl bad ↦
              known (k, h, connect_started ∷ []) (v, refl, refl) (ground (arith, running, bad))
          | inr good ↦
              let g = gather h 0 k.manager.sessions v.valid.sorted v.loaded v.apart in
              let (heap, actions, returns, sending, starts) =
                connected-Resent pb k h g.items running g.requests g.distinct in
              known _
                (
                  Kept-resent v
                      (record k.channel { pending = addresses g.items; closed_by_peer = false }) g
                      sending,
                  refl,
                  closures-acts actions,
                )
                (ap (connected pb k h) good ∙ returns)
        ]
      ]
