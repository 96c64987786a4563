-- ===== src/Client/Reconnect.antt =====
-- Connected and SendPendingSessions of rpc/detail/client_rpc_channel.cc.
use gboost_rpc.Base.{
  ℕ, ◌≡◌, refl, sym, ap, ◌∙◌, ◌==◌, if◌then◌else◌, false, some, List, [], ◌∷◌, ◌++◌, map, length,
  Outcome, ok, arith, append-nil, append_assoc, length-append,
}
use gboost_rpc.Protocol.{Protobuf}
use gboost_rpc.RpcData.{Buffer, held, clear_pending_state}
use gboost_rpc.Heap.{Heap, store, contains, AllDistinct}
use gboost_rpc.RpcChannel.{RpcChannel, Action, read_started}
use gboost_rpc.RpcChannel.Write.{send_in_loop}
use gboost_rpc.RpcChannel.Queue.{
  Items, addresses, addresses-append, IsSending, IsSending-store, AllDistinct-apart,
  contains-append, writes-append, writes,
}
use gboost_rpc.RpcChannel.InOrder.{Sent, first, send_in_loop-Sent}
use gboost_rpc.Session.{ClientSession}
use gboost_rpc.Client.{Client, acts, send_sessions, send_pending_sessions, connected}
use gboost_rpc.Client.Requests.{
  IsLoaded, HasRequests, rebuild_socket-client, session_clear_pending-ok, cleared-Queued,
  HasRequests-same,
}

-- The sessions were sent: they stand in the queue, and one write was started if there was none.
pub record Resent {M : Type 0} (c : RpcChannel M) (queued items : Items)
    (result : Outcome (RpcChannel M × Heap M × List (Action M))) : Type 0 where
  pub heap : Heap M
  pub actions : List (Action M)
  pub returns : result ≡ ok (record c { pending = addresses (queued ++ items) }, heap, actions)
  pub sending :
      IsSending (record c { pending = addresses (queued ++ items) }) heap (queued ++ items)
  pub starts : writes actions ≡ (if length queued == 0 then first items else [])

module _ {M : Type 0} (pb : Protobuf M) where
  Resent-none :
      (c : RpcChannel M) (h : Heap M) (queued : Items)
      → IsSending c h queued
      → Resent c queued [] (ok (c, h, []))
  Resent-none c h queued s = record {
    heap = h;
    actions = [];
    returns = rw (append-nil) (ap (λ p. ok (record c { pending = p }, h, [])) s.queue);
    sending = rw append-nil (record { queue = refl; distinct = s.distinct; states = s.states });
    starts = ground arith;
  }

  module _ (seq : ℕ) (session : ClientSession) (sessions : List (ℕ × ClientSession))
      (c : RpcChannel M) (h : Heap M) (queued items : Items) (a : ℕ) (bytes : List ℕ)
      (e : session.data_ ≡ a) (l : IsLoaded h a bytes) where
    abbrev cleared : Heap M
    cleared = store h a (some (clear_pending_state l.object))

    abbrev longer : Items
    longer = queued ++ (a, bytes) ∷ []

    abbrev after : RpcChannel M
    after = record c { pending = addresses longer }

    abbrev started : List Buffer
    started = if length queued == 0 then held bytes ∷ [] else []

    spared :
        (sent : Sent c cleared longer started (send_in_loop pb c cleared a)) (b : ℕ)
        → contains b (addresses longer) ≡ false
        → sent.heap b ≡ h b
    spared sent b out =
        let ne : (b == a) ≡ false = ground (
          arith,
          ap (contains b) (addresses-append queued ((a, bytes) ∷ [])),
          contains-append b (addresses queued) (a ∷ []),
        ) in
        sent.spares b out ∙ rw ne

    Resent-cons :
        (sent : Sent c cleared longer started (send_in_loop pb c cleared a))
        → Resent after longer items (send_sessions pb sessions after sent.heap)
        → Resent c queued ((a, bytes) ∷ items) (send_sessions pb ((seq, session) ∷ sessions) c h)
    unfolding send_sessions
    Resent-cons sent next =
        let regrouped : longer ++ items ≡ queued ++ (a, bytes) ∷ items =
          append_assoc queued ((a, bytes) ∷ []) items in
        let busy : (length longer == 0) ≡ false =
          ground (arith, length-append queued ((a, bytes) ∷ [])) in
        record {
          heap = next.heap;
          actions = sent.actions ++ next.actions;
          returns =
              rw (session_clear_pending-ok h session e l, e, sent.returns, next.returns, regrouped);
          sending = rw regrouped at next.sending;
          starts =
              rw (
                writes-append sent.actions next.actions,
                sent.starts,
                next.starts,
                busy,
                append-nil,
              );
        }

  send_sessions-Resent :
      (sessions : List (ℕ × ClientSession)) (c : RpcChannel M) (h : Heap M) (queued items : Items)
      → IsSending c h queued
      → HasRequests h sessions items
      → AllDistinct (addresses (queued ++ items))
      → Resent c queued items (send_sessions pb sessions c h)
  unfolding send_sessions
  send_sessions-Resent [] c h queued [] s r distinct = Resent-none c h queued s
  send_sessions-Resent [] c h queued (i ∷ items) s r distinct = absurd r
  send_sessions-Resent (x ∷ sessions) c h queued [] s r distinct = absurd r
  send_sessions-Resent ((seq, session) ∷ sessions) c h queued ((a, bytes) ∷ items) s (e, l, more)
        distinct =
      let parts : AllDistinct (addresses queued ++ a ∷ addresses items) =
        rw (addresses-append queued ((a, bytes) ∷ items)) at distinct in
      let apart : contains a (addresses queued) ≡ false =
        AllDistinct-apart a (addresses queued) (a ∷ addresses items) parts (ground arith) in
      let distinct' : AllDistinct (addresses ((queued ++ (a, bytes) ∷ []) ++ items)) =
        rw (sym (append_assoc queued ((a, bytes) ∷ []) items)) at distinct in
      let split : AllDistinct (addresses (queued ++ (a, bytes) ∷ []) ++ addresses items) =
        rw (addresses-append (queued ++ (a, bytes) ∷ []) items) at distinct' in
      let sent =
        send_in_loop-Sent pb c (store h a (some (clear_pending_state l.object))) queued a bytes
          (IsSending-store a _ apart s) (cleared-Queued h a l) apart in
      Resent-cons seq session sessions c h queued items a bytes e l sent (
        send_sessions-Resent sessions (record c { pending = addresses (queued ++ (a, bytes) ∷ []) })
          sent.heap (queued ++ (a, bytes) ∷ []) items sent.sending
          (HasRequests-same h sent.heap sessions items
            (λ b i. spared seq session sessions c h queued items a bytes e l sent b (
              AllDistinct-apart b (addresses (queued ++ (a, bytes) ∷ [])) (addresses items) split
                i))
            more)
          distinct')

  -- `Connected` with a new socket, of a client that is not terminated and whose sessions have each an
  -- object of its own with a filled buffer: whatever was queued, and whatever was pending, the queue
  -- is now the requests of all sessions in the order of their numbers, one read is started, and one
  -- write, of the first request.
  pub connected-Resent :
      (k : Client M) (h : Heap M) (items : Items)
      → k.channel.terminated ≡ false
      → HasRequests h k.manager.sessions items
      → AllDistinct (addresses items)
      → (heap : Heap M) × (actions : List (Action M)) × (connected pb k h false
          ≡ ok (
            record k {
              channel = record k.channel { pending = addresses items; closed_by_peer = false };
            },
            heap,
            acts read_started ∷ map acts actions,
          ))
        × IsSending
            (record k.channel { pending = addresses items; closed_by_peer = false })
            heap
            items
        × (writes actions ≡ first items)
  unfolding connected send_pending_sessions
  connected-Resent k h items running r distinct =
      let fresh = record k.channel { pending = []; closed_by_peer = false } in
      let sent =
        send_sessions-Resent k.manager.sessions fresh h [] items
          (record { queue = refl; distinct = tt; states = tt }) r distinct in
      (
        sent.heap,
        sent.actions,
        ground (arith, rebuild_socket-client k.channel h, sent.returns),
        sent.sending,
        sent.starts,
      )
