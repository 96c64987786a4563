-- ===== src/Client/CallKept.antt =====
-- The calls of a client (SendInLoop of rpc/detail/client_rpc_channel.cc), from a state that keeps the
-- invariant.
use gboost_rpc.Base.{
  ℕ, ◌≡◌, sym, ◌∙◌, ap, Bool-cases, inl, inr, ◌⊎◌, false, true, ◌==◌, none, some, [], ◌∷◌, ◌++◌,
  arith,
}
use gboost_rpc.Base.Assoc.{lookup}
use gboost_rpc.RpcData.{RpcData}
use gboost_rpc.RpcData.Phases.{encode}
use gboost_rpc.Heap.{Heap, contains}
use gboost_rpc.RpcChannel.Queue.{Items, addresses, addresses-append, contains-append}
use gboost_rpc.Session.{ClientSession}
use gboost_rpc.Session.Manager.{AllBelow-lookup}
use gboost_rpc.Client.{
  Client, Effect, acts, answered, connect_started, socket_closed, call_in_loop, receive_package,
  connected,
}
use gboost_rpc.Client.Calls.{Called}
use gboost_rpc.Client.Gather.{AllLoaded, AllApart, Owner}
use gboost_rpc.Client.Kept.{AllHanded, Kept, IsSending-IsLoaded}

module _ {M : Type 0} {k : Client M} {h : Heap M} (v : Kept k h) (fresh : ℕ)
    (new : h fresh ≡ none) where
  unused_session :
      (i : ℕ) (s : ClientSession)
      → lookup i k.manager.sessions ≡ some s
      → (s.data_ == fresh) ≡ false
  unused_session i s e = elim (Bool-cases (s.data_ == fresh)) [
    | inr out ↦ out
    | inl same ↦
        let (bytes, l) = v.loaded i s e in
        let at : s.data_ ≡ fresh = ground arith in absurd (ground (arith, l.live, ap h at, new))
  ]

  pub unused_item : contains fresh (addresses v.items) ≡ false
  unused_item = elim (Bool-cases (contains fresh (addresses v.items))) [
    | inr out ↦ out
    | inl queued ↦
        let (bytes, l) = IsSending-IsLoaded v.items fresh v.sending queued in
        absurd (ground (arith, l.live, new))
  ]

  module _ {session : ClientSession} {frame : gboost_rpc.RpcData.Phases.Frame}
      {result : gboost_rpc.Client.Handling M} (at : session.data_ ≡ fresh)
      (called : Called k h fresh session v.items frame result) where
    abbrev longer : Items
    longer = v.items ++ (fresh, encode frame) ∷ []

    found_new : lookup k.manager.seq called.client.manager.sessions ≡ some session
    found_new = called.found k.manager.seq ∙ ground arith

    -- A session of the new map is the new one or an old one.
    found_either :
        (i : ℕ) (s : ClientSession)
        → lookup i called.client.manager.sessions ≡ some s
        → ((s.data_ ≡ fresh) × (i ≡ k.manager.seq)) ⊎ (lookup i k.manager.sessions ≡ some s)
    found_either i s e = elim (Bool-cases (k.manager.seq == i)) [
      | inl latest ↦
          let one : some session ≡ some s = ground (arith, called.found i) in
          let one' : session ≡ s = cc in
          inl (sym (ap (λ (t : ClientSession). t.data_) one') ∙ at, ground arith)
      | inr other ↦ inr (ground (arith, called.found i))
    ]

    found_still :
        (i : ℕ) (s : ClientSession)
        → lookup i k.manager.sessions ≡ some s
        → lookup i called.client.manager.sessions ≡ some s
    found_still i s e =
        ground
          (arith, called.found i, AllBelow-lookup k.manager.seq k.manager.sessions v.valid.below)

    fresh_queued : contains fresh (addresses longer) ≡ true
    fresh_queued = ground (
      arith,
      ap (contains fresh) (addresses-append v.items ((fresh, encode frame) ∷ [])),
      contains-append fresh (addresses v.items) (fresh ∷ []),
    )

    Called-loaded : AllLoaded called.heap called.client.manager.sessions
    Called-loaded i s e = elim (Bool-cases (contains s.data_ (addresses longer))) [
      | inl queued ↦ IsSending-IsLoaded longer s.data_ called.sending queued
      | inr out ↦ elim (found_either i s e) [
        | inl (latest, _) ↦
            let queued : contains s.data_ (addresses longer) ≡ true =
              ap (λ a. contains a (addresses longer)) latest ∙ fresh_queued in
            absurd (ground (arith, queued, out))
        | inr old ↦
            let (bytes, l) = v.loaded i s old in
            (
              bytes,
              record {
                object = l.object;
                live = called.spares s.data_ out ∙ l.live;
                buffer = l.buffer;
                filled = l.filled;
              },
            )
      ]
    ]

    Called-apart : AllApart called.client.manager.sessions
    Called-apart i j s t e f same = elim (found_either i s e) [
      | inl (latest, number) ↦ elim (found_either j t f) [
        | inl (latest', number') ↦ number ∙ sym number'
        | inr old ↦ absurd (ground (arith, unused_session j t old, same, latest))
      ]
      | inr old ↦ elim (found_either j t f) [
        | inl (latest, number) ↦ absurd (ground (arith, unused_session i s old, same, latest))
        | inr old' ↦ v.apart i j s t old old' same
      ]
    ]

    Called-owned :
        (a : ℕ) → contains a (addresses longer) ≡ true → Owner called.client.manager.sessions a
    Called-owned a i = elim (Bool-cases (a == fresh)) [
      | inl latest ↦ record {
        number = k.manager.seq;
        session = session;
        found = found_new;
        at_address = ground (arith, at);
      }
      | inr other ↦
          let o = v.owned a (
            ground (
              arith,
              ap (contains a) (addresses-append v.items ((fresh, encode frame) ∷ [])),
              contains-append a (addresses v.items) (fresh ∷ []),
            )) in
          record {
            number = o.number;
            session = o.session;
            found = found_still o.number o.session o.found;
            at_address = o.at_address;
          }
    ]

    Called-handed : AllHanded called.heap called.client.manager.sessions longer
    Called-handed i s d e out live = elim (found_either i s e) [
      | inl (latest, number) ↦
          let queued : contains s.data_ (addresses longer) ≡ true =
            ap (λ a. contains a (addresses longer)) latest ∙ fresh_queued in
          absurd (ground (arith, queued, out))
      | inr old ↦
          v.handed i s d old
            (ground (
              arith,
              out,
              ap (contains s.data_) (addresses-append v.items ((fresh, encode frame) ∷ [])),
              contains-append s.data_ (addresses v.items) (fresh ∷ []),
            ))
            (sym (called.spares s.data_ out) ∙ live)
    ]

    pub Called-Kept : Kept called.client called.heap
    Called-Kept = record {
      valid = called.valid;
      loaded = Called-loaded;
      apart = Called-apart;
      items = longer;
      sending = called.sending;
      owned = Called-owned;
      handed = Called-handed;
    }
