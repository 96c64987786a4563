-- ===== src/RpcChannel/Transfer.antt =====
-- Messages that ToBuffer (rpc/detail/rpc_data.cc) writes on one side of a connection and ReadInLoop
-- (rpc/detail/rpc_channel.cc) reads on the other.
use mathlib.Core.List.{flatten}
use gboost_rpc.Base.{ℕ, ◌≡◌, refl, ap, ◌∙◌, none, Option, some, List, [], ◌∷◌, map, All, ok}
use gboost_rpc.Protocol.{Meta, Protobuf, IsProtobuf}
use gboost_rpc.RpcData.{RpcData, new_outgoing}
use gboost_rpc.RpcData.Phases.{Frame, IsFrame}
use gboost_rpc.RpcData.Outgoing.{Serialized}
use gboost_rpc.RpcChannel.{Action, new_channel, receive}
use gboost_rpc.RpcChannel.Stream.{stream, IsAligned, content, between}
use gboost_rpc.RpcChannel.Receive.{deliveries, receive-Delivers}

-- The frames of messages that were made by `RPCData(meta, payload)`, in order.
pub data Wire {M : Type 0} (pb : Protobuf M) : List (Meta × M) → List Frame → Type 0 where
  empty : Wire pb [] []
  sent :
      {m : Meta} {x : M} {ms : List (Meta × M)} {fs : List Frame} (d : RpcData M)
      → new_outgoing pb m x ≡ ok d
      → (z : Serialized pb m x d) → Wire pb ms fs
      → Wire pb ((m, x) ∷ ms) (z.frame ∷ fs)

-- A message as the receiver has it: the metadata, and what the payload parses to.
abbrev pub parsed : {M : Type 0} → Protobuf M → Meta × List ℕ → Meta × Option M
parsed pb (m, payload) = (m, pb.from_array payload)

abbrev pub meant : {M : Type 0} → Meta × M → Meta × Option M
meant (m, x) = (m, some x)

module _ {M : Type 0} {pb : Protobuf M} (law : IsProtobuf pb) where
  -- A new channel reads a stream of frames, cut into reads of at least one byte none of which ends
  -- strictly inside the metadata of a frame: it hands over the metadata and the payload of every
  -- frame, once and in order, and no partial message is left.
  pub receive-stream :
      (fs : List Frame) (reads : List (List ℕ))
      → All (IsFrame pb) fs
      → flatten reads ≡ stream fs
      → IsAligned fs reads
      → (actions : List (Action M)) × (receive pb new_channel reads ≡ ok (new_channel, actions))
        × (deliveries actions ≡ map content fs)
  receive-stream fs reads are whole aligned =
      receive-Delivers law new_channel reads fs none refl are refl (between whole) tt aligned

  pub Wire-IsFrame : {ms : List (Meta × M)} {fs : List Frame} → Wire pb ms fs → All (IsFrame pb) fs
  Wire-IsFrame empty = tt
  Wire-IsFrame (sent d made z w) = (z.framed, Wire-IsFrame w)

  Wire-parsed :
      {ms : List (Meta × M)} {fs : List Frame}
      → Wire pb ms fs
      → map (parsed pb) (map content fs) ≡ map meant ms
  Wire-parsed empty = refl
  Wire-parsed (sent d made z w) = rw (z.tagged, z.loaded, Wire-parsed w)

  -- The messages of one side, written in order, and read by a new channel of the other side in such
  -- reads: the metadata arrive unchanged, and the payloads parse to the messages that were sent.
  pub transfer :
      (ms : List (Meta × M)) (fs : List Frame) (reads : List (List ℕ))
      → Wire pb ms fs
      → flatten reads ≡ stream fs
      → IsAligned fs reads
      → (actions : List (Action M)) × (receive pb new_channel reads ≡ ok (new_channel, actions))
        × (map (parsed pb) (deliveries actions) ≡ map meant ms)
  transfer ms fs reads w whole aligned =
      let (actions, got, given) = receive-stream fs reads (Wire-IsFrame w) whole aligned in
      (actions, got, ap (map (parsed pb)) given ∙ Wire-parsed w)
