-- ===== src/RpcChannel/Order.antt =====
-- The steps of the sending half of rpc/detail/rpc_channel.cc, each on a queue in order.
use mathlib.Core.List.{map-append}
use gboost_rpc.Base.{
  ℕ, ◌≡◌, refl, sym, ap, subst, false, true, some, List, [], ◌∷◌, ◌++◌, map, length, ok,
  ok-injective, Outcome, arith, ◌∙◌, append_assoc, append-nil,
}
use gboost_rpc.Protocol.{Protobuf}
use gboost_rpc.RpcData.{Buffer, held}
use gboost_rpc.Heap.{Heap, contains}
use gboost_rpc.RpcChannel.{RpcChannel, Action, new_channel}
use gboost_rpc.RpcChannel.Write.{Side, written}
use gboost_rpc.RpcChannel.Queue.{Queued, Items, IsSending, writes, IsSending-same}
use gboost_rpc.RpcChannel.InOrder.{waiting, first, Sent, send_in_loop-Sent, written-Sent}
use gboost_rpc.RpcChannel.History.{
  Link, Step, send, end, fail, elsewhere, Reach, here, next, InOrder,
}

abbrev buffers : Items → List Buffer
buffers items = map (λ (i : ℕ × List ℕ). held i.1) items

buffers-append :
    (items : Items) (a : ℕ) (bytes : List ℕ)
    → buffers (items ++ (a, bytes) ∷ []) ≡ buffers items ++ held bytes ∷ []
buffers-append items a bytes = map-append _ items _

first-waiting : (items : Items) → first items ++ waiting items ≡ buffers items
first-waiting [] = refl
first-waiting (i ∷ items) = refl

module _ {M : Type 0} {c₀ : RpcChannel M} {base : Heap M} {items : Items} {started : List Buffer}
    {result : Outcome (RpcChannel M × Heap M × List (Action M))} {c : RpcChannel M} {h : Heap M}
    {actions : List (Action M)} where
  Sent-known :
      Sent c₀ base items started result
      → result ≡ ok (c, h, actions)
      → IsSending c h items × (writes actions ≡ started)
  Sent-known s e =
      subst
        (λ (p : RpcChannel M × Heap M × List (Action M)).
          IsSending p.0 p.1 items × (writes p.2 ≡ started))
        (ok-injective (sym s.returns ∙ e)) (s.sending, s.starts)

module _ {M : Type 0} (pb : Protobuf M) (side : Side) (l : Link M) where
  send_split :
      (items : Items) (a : ℕ) (bytes : List ℕ) (started : List Buffer)
      → l.asked ≡ l.written_out ++ waiting items
      → started ≡ (
          gboost_rpc.Base.if◌then◌else◌
            (gboost_rpc.Base.◌==◌ (length items) 0)
            (held bytes ∷ [])
            [])
      → l.asked ++ held bytes ∷ []
        ≡ (l.written_out ++ started) ++ waiting (items ++ (a, bytes) ∷ [])
  send_split [] a bytes started e s = rw (e, s) (simp append-nil)
  send_split ((b, other) ∷ items) a bytes started e s =
      let still : started ≡ [] = ground arith in
      rw (e, still, append-nil, append_assoc)
        (ap (λ t. l.written_out ++ t) (sym (buffers-append items a bytes)))

  send-InOrder :
      (a : ℕ) (bytes : List ℕ) {c : RpcChannel M} {h : Heap M} {actions : List (Action M)}
      → InOrder l
      → Queued l.heap false a bytes
      → contains a l.channel.pending ≡ false
      → gboost_rpc.RpcChannel.Write.send_in_loop pb l.channel l.heap a ≡ ok (c, h, actions)
      → InOrder (record {
        channel = c;
        heap = h;
        written_out = l.written_out ++ writes actions;
        asked = l.asked ++ held bytes ∷ [];
      })
  send-InOrder a bytes o q out e =
      let known =
        Sent-known
          (send_in_loop-Sent pb l.channel l.heap o.items a bytes o.sending q
            (rw o.sending.queue at out))
          e in
      record {
        items = o.items ++ (a, bytes) ∷ [];
        sending = known.0;
        split = send_split o.items a bytes _ o.split known.1;
      }

  end-InOrder :
      (items : Items) (a : ℕ) (rest bytes : List ℕ) {c : RpcChannel M} {h : Heap M}
      {actions : List (Action M)}
      → IsSending l.channel l.heap items
      → l.asked ≡ l.written_out ++ waiting items
      → l.channel.pending ≡ a ∷ rest
      → Queued l.heap true a bytes
      → written pb side l.channel l.heap false (length bytes) ≡ ok (c, h, actions)
      → InOrder (record {
        channel = c;
        heap = h;
        written_out = l.written_out ++ writes actions;
        asked = l.asked;
      })
  end-InOrder [] a rest bytes s split pending q e = absurd (ground (arith, s.queue))
  end-InOrder ((b, other) ∷ items) a rest bytes {c} {h} {actions} s split pending q e =
      let one : b ≡ a = cc (s.queue) in
      let whole : other ≡ bytes =
        ground (arith, q.live, q.buffer, s.states.0.live, s.states.0.buffer, ap l.heap one) in
      let known : IsSending c h items × (writes actions ≡ first items) =
        Sent-known {actions = actions} (written-Sent pb l.channel l.heap side b other items s)
          (rw whole e) in
      record {
        items = items;
        sending = known.0;
        split = split ∙ rw (known.1, append_assoc, first-waiting items);
      }

  Step-InOrder : {m : Link M} → Step pb side l m → InOrder l → InOrder m
  unfolding written
  Step-InOrder (send a bytes q out e) o = send-InOrder a bytes o q out e
  Step-InOrder (end a rest bytes pending q e) o =
      end-InOrder o.items a rest bytes o.sending o.split pending q e
  Step-InOrder (fail n {c} {h} {actions} e) o =
      subst
        (λ (p : RpcChannel M × Heap M × List (Action M)). InOrder (record {
          channel = p.0;
          heap = p.1;
          written_out = l.written_out ++ writes p.2;
          asked = l.asked;
        }))
        (ok-injective e)
        (record { items = o.items; sending = o.sending; split = rw append-nil o.split })
  Step-InOrder (elsewhere h same) o = record {
    items = o.items;
    sending = IsSending-same (λ b i. same b (rw o.sending.queue i)) o.sending;
    split = o.split;
  }

Reach-InOrder :
    {M : Type 0} (pb : Protobuf M) (side : Side) {l m : Link M}
    → InOrder l
    → Reach pb side l m
    → InOrder m
Reach-InOrder pb side o here = o
Reach-InOrder pb side o (next {m} r st) = Step-InOrder pb side m st (Reach-InOrder pb side o r)

-- Along every history of a new channel the messages go out one at a time, in the order in which
-- they were sent: the buffers that `SendInLoop` was given are those that `async_write` was given,
-- followed by the buffers that wait, and of the queued messages the first alone is being written.
pub new_channel-InOrder :
    {M : Type 0} (pb : Protobuf M) (side : Side) (h : Heap M) {l : Link M}
    → Reach pb side (record { channel = new_channel; heap = h; written_out = []; asked = [] }) l
    → InOrder l
new_channel-InOrder pb side h r =
    Reach-InOrder pb side
      (record {
        items = [];
        sending = record { queue = refl; distinct = tt; states = tt };
        split = refl;
      })
      r
