-- ===== src/Client/Calls.antt =====
-- SendInLoop of rpc/detail/client_rpc_channel.cc: a session is saved and its request queued.
use gboost_rpc.Base.{
  ℕ, ◌+◌, ◌^◌, ◌<◌, ◌≡◌, ap, ◌∙◌, Option, ◌==◌, if◌then◌else◌, false, some, List, [], ◌∷◌, ◌++◌,
  map, length, length-append, ok, arith,
}
use gboost_rpc.Base.Assoc.{lookup}
use gboost_rpc.Protocol.{Protobuf, IsProtobuf}
use gboost_rpc.RpcData.{RpcData, held}
use gboost_rpc.RpcData.Bytes.{to_big_endian, length-to_big_endian}
use gboost_rpc.RpcData.Phases.{Frame, encode}
use gboost_rpc.RpcData.Outgoing.{IsSendable, Serialized}
use gboost_rpc.Heap.{Heap, store, contains}
use gboost_rpc.RpcChannel.{Action}
use gboost_rpc.RpcChannel.Queue.{
  Queued, Items, addresses, IsSending, IsSending-store, writes, addresses-append, contains-append,
}
use gboost_rpc.RpcChannel.InOrder.{send_in_loop-Sent}
use gboost_rpc.Session.{ClientSession, Method, request_meta}
use gboost_rpc.Session.Manager.{IsManager, save_session-Saved}
use gboost_rpc.Client.{Client, Handling, acts, call_in_loop}

-- What a call leaves: the session under its number, and its frame at the end of the queue.
pub record Called {M : Type 0} (k : Client M) (h : Heap M) (fresh : ℕ) (session : ClientSession)
    (items : Items) (frame : Frame) (result : Handling M) : Type 0 where
  pub client : Client M
  pub heap : Heap M
  pub actions : List (Action M)
  pub returns : result ≡ ok (client, heap, map acts actions)
  pub valid : IsManager client.manager
  pub found :
      (i : ℕ)
      → lookup i client.manager.sessions
        ≡ (if k.manager.seq == i then some session else lookup i k.manager.sessions)
  pub number : client.manager.seq ≡ k.manager.seq + 1
  pub latest : client.manager.sessions ≡ k.manager.sessions ++ (k.manager.seq, session) ∷ []
  pub sending : IsSending client.channel heap (items ++ (fresh, encode frame) ∷ [])
  pub starts : writes actions ≡ (if length items == 0 then held (encode frame) ∷ [] else [])
  pub spares :
      (b : ℕ) → contains b (addresses (items ++ (fresh, encode frame) ∷ [])) ≡ false → heap b ≡ h b

encode_filled : (f : Frame) → 0 < length (encode f)
encode_filled f = omega (
  arith,
  length-append (to_big_endian (length f.descriptor)) (f.descriptor ++ f.payload),
  length-to_big_endian (length f.descriptor),
)

outside :
    {M : Type 0} (h : Heap M) (a : ℕ) (o : Option (RpcData M)) (items : Items) (bytes : List ℕ)
    (b : ℕ)
    → contains b (addresses (items ++ (a, bytes) ∷ [])) ≡ false
    → store h a o b ≡ h b
outside h a o items bytes b out = ground (
  arith,
  ap (contains b) (addresses-append items ((a, bytes) ∷ [])),
  contains-append b (addresses items) (a ∷ []),
)

module _ {M : Type 0} {pb : Protobuf M} (law : IsProtobuf pb) (city_hash : List ℕ → ℕ) where
  -- `SendInLoop` of a client, for a request that fits in a frame, before the numbers wrap, with an
  -- object that is not queued, on a queue of which the first message alone is being written: the
  -- session is stored under the next number, the frame of the request, which parses to the request,
  -- is the last of the queue, which stays such a queue, and a write is started exactly if the queue
  -- was empty. No other object changes.
  pub call_in_loop-Called :
      (k : Client M) (h : Heap M) (fresh : ℕ) (method : Method) (request : M) (response done : ℕ)
      (items : Items)
      → IsManager k.manager
      → k.manager.seq + 1 < 2 ^ 64
      → IsSendable pb (request_meta pb city_hash k.manager.seq method request) request
      → IsSending k.channel h items
      → contains fresh (addresses items) ≡ false
      → (d : RpcData M) × (z : Serialized pb
          (request_meta pb city_hash k.manager.seq method request)
          request
          d)
        × Called k h fresh
            (record { data_ = fresh; response = response; done = done })
            items
            z.frame
            (call_in_loop pb city_hash k h fresh method request response done)
  unfolding call_in_loop
  call_in_loop-Called k h fresh method request response done items v room fits s out =
      let saved =
        save_session-Saved law city_hash k.manager h fresh method request response done v room
          fits in
      let z = saved.serialized in
      let queued : Queued (store h fresh (some saved.object)) false fresh (encode z.frame) =
        record {
          object = saved.object;
          live = ground arith;
          state = z.idle;
          buffer = z.written;
          filled = encode_filled z.frame;
        } in
      let sent =
        send_in_loop-Sent pb k.channel (store h fresh (some saved.object)) items fresh
          (encode z.frame) (IsSending-store fresh _ out s) queued out in
      (
        saved.object,
        z,
        record {
          client = record k {
            channel = record k.channel {
              pending = addresses (items ++ (fresh, encode z.frame) ∷ []);
            };
            manager = saved.manager;
          };
          heap = sent.heap;
          actions = sent.actions;
          returns = rw (saved.returns, sent.returns);
          valid = saved.valid;
          found = saved.found;
          number = saved.next;
          latest = saved.latest;
          sending = sent.sending;
          starts = sent.starts;
          spares = λ b out.
              sent.spares b out ∙ outside h fresh (some saved.object) items (encode z.frame) b out;
        },
      )
