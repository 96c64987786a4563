-- ===== src/Client/Kept.antt =====
-- The invariant of a client (rpc/detail/client_rpc_channel.cc, rpc/detail/rpc_client_impl.cc), and the
-- steps of its channel.
use gboost_rpc.Base.{
  ◌==◌, ℕ, ◌≡◌, refl, sym, subst, ◌∙◌, ap, Bool, Bool-cases, inl, inr, false, true, some, List, [],
  ◌∷◌, length, ok, ok-injective, arith,
}
use gboost_rpc.Protocol.{Protobuf}
use gboost_rpc.Heap.{Heap, contains}
use gboost_rpc.RpcChannel.{RpcChannel, Action, read_in_loop}
use gboost_rpc.RpcChannel.Write.{client, written}
use gboost_rpc.RpcChannel.Queue.{Queued, Items, addresses, AllWait, IsSending, flying}
use gboost_rpc.RpcChannel.InOrder.{recycled, written-Sent}
use gboost_rpc.Session.Manager.{IsManager}
use gboost_rpc.Base.Assoc.{lookup}
use gboost_rpc.RpcData.{RpcData}
use gboost_rpc.Session.{ClientSession}
use gboost_rpc.Client.{Client}
use gboost_rpc.Client.Requests.{IsLoaded}
use gboost_rpc.Client.History.{with_channel}
use gboost_rpc.Client.Gather.{AllLoaded, AllApart, Owner}

-- A request that is not queued was handed to the socket.
abbrev pub AllHanded : {M : Type 0} → Heap M → List (ℕ × ClientSession) → Items → Type 0
AllHanded {M} h sessions items =
    (i : ℕ) (s : ClientSession) (d : RpcData M)
    → lookup i sessions ≡ some s
    → contains s.data_ (addresses items) ≡ false
    → h s.data_ ≡ some d
    → d.is_pending ≡ true

-- The sessions are in order, each with a live request of its own; the channel writes the first
-- message of a queue of such requests.
pub record Kept {M : Type 0} (k : Client M) (h : Heap M) : Type 0 where
  pub valid : IsManager k.manager
  pub loaded : AllLoaded h k.manager.sessions
  pub apart : AllApart k.manager.sessions
  pub items : Items
  pub sending : IsSending k.channel h items
  pub owned : (a : ℕ) → contains a (addresses items) ≡ true → Owner k.manager.sessions a
  pub handed : AllHanded h k.manager.sessions items

module _ {M : Type 0} {h : Heap M} where
  pub Queued-IsLoaded :
      {flag : Bool} {a : ℕ} {bytes : List ℕ} → Queued h flag a bytes → IsLoaded h a bytes
  Queued-IsLoaded q = record {
    object = q.object;
    live = q.live;
    buffer = q.buffer;
    filled = q.filled;
  }

  AllWait-IsLoaded :
      (items : Items) (a : ℕ)
      → AllWait h items
      → contains a (addresses items) ≡ true
      → (bytes : List ℕ) × IsLoaded h a bytes
  AllWait-IsLoaded [] a w i = absurd cc
  AllWait-IsLoaded ((b, bytes) ∷ items) a w i = elim (Bool-cases (a == b)) [
    | inl here ↦
        let same : b ≡ a = ground arith in
        (bytes, subst (λ c. IsLoaded h c bytes) same (Queued-IsLoaded w.0))
    | inr there ↦ AllWait-IsLoaded items a w.1 (ground arith)
  ]

  pub IsSending-IsLoaded :
      {c : RpcChannel M} (items : Items) (a : ℕ)
      → IsSending c h items
      → contains a (addresses items) ≡ true
      → (bytes : List ℕ) × IsLoaded h a bytes
  IsSending-IsLoaded [] a s i = absurd cc
  IsSending-IsLoaded ((b, bytes) ∷ items) a s i = elim (Bool-cases (a == b)) [
    | inl here ↦
        let same : b ≡ a = ground arith in
        (bytes, subst (λ c. IsLoaded h c bytes) same (Queued-IsLoaded s.states.0))
    | inr there ↦ AllWait-IsLoaded items a s.states.1 (ground arith)
  ]

-- A new queue, of requests of sessions, with every other loaded object as it was.
pub Kept-queue :
    {M : Type 0} {k : Client M} {h : Heap M} (v : Kept k h) (c : RpcChannel M) (h' : Heap M)
    (items : Items)
    → IsSending c h' items
    → ((a : ℕ) → contains a (addresses items) ≡ true → Owner k.manager.sessions a)
    → ((a : ℕ) (bytes : List ℕ)
        → contains a (addresses items) ≡ false
        → IsLoaded h a bytes
        → IsLoaded h' a bytes)
    → AllHanded h' k.manager.sessions items
    → Kept (with_channel k c) h'
Kept-queue v c h' items s owned others handed = record {
  valid = v.valid;
  loaded = λ i session e. elim (Bool-cases (contains session.data_ (addresses items))) [
    | inl queued ↦ IsSending-IsLoaded items session.data_ s queued
    | inr out ↦ let (bytes, l) = v.loaded i session e in (bytes, others session.data_ bytes out l)
  ];
  apart = v.apart;
  items = items;
  sending = s;
  owned = owned;
  handed = handed;
}

-- A channel with the same queue.
pub Kept-same :
    {M : Type 0} {k : Client M} {h : Heap M} (v : Kept k h) (c : RpcChannel M)
    → c.pending ≡ k.channel.pending
    → Kept (with_channel k c) h
Kept-same {h} v c e =
    Kept-queue v c h v.items
      (record {
        queue = e ∙ v.sending.queue;
        distinct = v.sending.distinct;
        states = v.sending.states;
      })
      v.owned (λ a bytes out l. l) v.handed

read_in_loop-pending :
    {M : Type 0} (pb : Protobuf M) (c c' : RpcChannel M) (error : Bool) (bytes : List ℕ)
    {actions : List (Action M)}
    → read_in_loop pb c error bytes ≡ ok (c', actions)
    → c'.pending ≡ c.pending
unfolding read_in_loop
read_in_loop-pending pb c c' error bytes e = ground (arith, e)

module _ {M : Type 0} (pb : Protobuf M) (k : Client M) (h : Heap M) (v : Kept k h) where
  pub read-Kept :
      (error : Bool) (bytes : List ℕ) {c : RpcChannel M} {actions : List (Action M)}
      → read_in_loop pb k.channel error bytes ≡ ok (c, actions)
      → Kept (with_channel k c) h
  read-Kept error bytes {c} e = Kept-same v c (read_in_loop-pending pb k.channel c error bytes e)

  pub fail-Kept :
      (n : ℕ) {c : RpcChannel M} {h' : Heap M} {actions : List (Action M)}
      → written pb client k.channel h true n ≡ ok (c, h', actions)
      → Kept (with_channel k c) h'
  unfolding written
  fail-Kept n e =
      subst (λ (p : RpcChannel M × Heap M × List (Action M)). Kept (with_channel k p.0) p.1)
        (ok-injective e) (Kept-same v k.channel refl)

  flying-IsLoaded :
      (a b : ℕ) {bytes others : List ℕ} (q : Queued h true a bytes)
      → IsLoaded h b others
      → IsLoaded (recycled pb k.channel h client a (flying pb q.object)) b others
  unfolding recycled
  flying-IsLoaded a b q l = elim (Bool-cases (b == a)) [
    | inl here ↦ record {
      object = flying pb q.object;
      live = ground arith;
      buffer = ground (arith, q.live, l.live, l.buffer, q.buffer);
      filled = l.filled;
    }
    | inr there ↦ record {
      object = l.object;
      live = ground (arith, l.live);
      buffer = l.buffer;
      filled = l.filled;
    }
  ]

  flying-pending :
      (a b : ℕ) {bytes : List ℕ} (d : RpcData M) (q : Queued h true a bytes)
      → recycled pb k.channel h client a (flying pb q.object) b ≡ some d
      → ((b == a) ≡ false → h b ≡ some d → d.is_pending ≡ true)
      → d.is_pending ≡ true
  unfolding recycled
  flying-pending a b d q live others = elim (Bool-cases (b == a)) [
    | inl here ↦ ground (arith, live, here)
    | inr there ↦ others there (ground (arith, live, there))
  ]

  pub end-Kept :
      (items : Items) (a : ℕ) (rest bytes : List ℕ) {c : RpcChannel M} {h' : Heap M}
      {actions : List (Action M)}
      → (s : IsSending k.channel h items)
      → ((b : ℕ) → contains b (addresses items) ≡ true → Owner k.manager.sessions b)
      → AllHanded h k.manager.sessions items
      → k.channel.pending ≡ a ∷ rest
      → Queued h true a bytes
      → written pb client k.channel h false (length bytes) ≡ ok (c, h', actions)
      → Kept (with_channel k c) h'
  end-Kept [] a rest bytes s owned handed pending q e = absurd (ground (arith, s.queue))
  end-Kept ((b, other) ∷ items) a rest bytes {c} {h'} {actions} s owned handed pending q e =
      let one : b ≡ a = cc (s.queue) in
      let whole : other ≡ bytes =
        ground (arith, q.live, q.buffer, s.states.0.live, s.states.0.buffer, ap h one) in
      let sent = written-Sent pb k.channel h client b other items s in
      let e' : written pb client k.channel h false (length other) ≡ ok (c, h', actions) =
        rw whole e in
      subst (λ (p : RpcChannel M × Heap M × List (Action M)). Kept (with_channel k p.0) p.1)
        (ok-injective (sym sent.returns ∙ e'))
        (Kept-queue v (record k.channel { pending = addresses items }) sent.heap items sent.sending
          (λ x i. owned x (ground arith))
          (λ x xs out l.
            let l' = flying-IsLoaded b x s.states.0 l in
            record {
              object = l'.object;
              live = sent.spares x out ∙ l'.live;
              buffer = l'.buffer;
              filled = l'.filled;
            })
          (λ i x d found out live.
            let live' : recycled pb k.channel h client b (flying pb s.states.0.object) x.data_
                ≡ some d =
              sym (sent.spares x.data_ out) ∙ live in
            flying-pending b x.data_ d s.states.0 live'
              λ other. handed i x d found (ground (arith, out, other))))
