-- ===== src/RpcChannel/History.antt =====
-- The histories of the sending half of rpc/detail/rpc_channel.cc: its steps, and what is kept in order.
use gboost_rpc.Base.{ℕ, ◌≡◌, true, false, List, [], ◌∷◌, ◌++◌, length, ok}
use gboost_rpc.Protocol.{Protobuf}
use gboost_rpc.RpcData.{Buffer, held}
use gboost_rpc.Heap.{Heap, contains}
use gboost_rpc.RpcChannel.{RpcChannel, Action}
use gboost_rpc.RpcChannel.Write.{Side, send_in_loop, written}
use gboost_rpc.RpcChannel.Queue.{Queued, Items, IsSending, writes}
use gboost_rpc.RpcChannel.InOrder.{waiting}

-- A channel with its objects, the writes started so far, and the messages sent so far.
pub record Link (M : Type 0) : Type 0 where
  pub channel : RpcChannel M
  pub heap : Heap M
  pub written_out : List Buffer
  pub asked : List Buffer

-- What happens to it: a message is sent; the outstanding write ends, well or badly; some other part
-- of the process makes, changes or deletes objects that are not queued.
pub data Step {M : Type 0} (pb : Protobuf M) (side : Side) (l : Link M) : Link M → Type 0 where
  send :
      (a : ℕ) (bytes : List ℕ) {c : RpcChannel M} {h : Heap M} {actions : List (Action M)}
      → Queued l.heap false a bytes
      → contains a l.channel.pending ≡ false
      → send_in_loop pb l.channel l.heap a ≡ ok (c, h, actions)
      → Step pb side l (record {
        channel = c;
        heap = h;
        written_out = l.written_out ++ writes actions;
        asked = l.asked ++ held bytes ∷ [];
      })
  end :
      (a : ℕ) (rest bytes : List ℕ) {c : RpcChannel M} {h : Heap M} {actions : List (Action M)}
      → l.channel.pending ≡ a ∷ rest
      → Queued l.heap true a bytes
      → written pb side l.channel l.heap false (length bytes) ≡ ok (c, h, actions)
      → Step pb side l (record {
        channel = c;
        heap = h;
        written_out = l.written_out ++ writes actions;
        asked = l.asked;
      })
  fail :
      (n : ℕ) {c : RpcChannel M} {h : Heap M} {actions : List (Action M)}
      → written pb side l.channel l.heap true n ≡ ok (c, h, actions)
      → Step pb side l (record {
        channel = c;
        heap = h;
        written_out = l.written_out ++ writes actions;
        asked = l.asked;
      })
  elsewhere :
      (h : Heap M)
      → ((b : ℕ) → contains b l.channel.pending ≡ true → h b ≡ l.heap b)
      → Step pb side l (record l { heap = h })

pub data Reach {M : Type 0} (pb : Protobuf M) (side : Side) (l : Link M) : Link M → Type 0 where
  here : Reach pb side l l
  next : {m n : Link M} → Reach pb side l m → Step pb side m n → Reach pb side l n

-- What was sent is what was written, and then what waits.
pub record InOrder {M : Type 0} (l : Link M) : Type 0 where
  pub items : Items
  pub sending : IsSending l.channel l.heap items
  pub split : l.asked ≡ l.written_out ++ waiting items
