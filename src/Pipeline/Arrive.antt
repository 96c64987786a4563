-- ===== src/Pipeline/Arrive.antt =====
-- The messages of a stream of frames, as the receiver has them.
use mathlib.Core.List.{flatten}
use gboost_rpc.Base.{ℕ, ◌≡◌, refl, ap, ◌∙◌, none, List, [], ◌∷◌, map, ok, false}
use gboost_rpc.Protocol.{Meta, Protobuf, IsProtobuf}
use gboost_rpc.RpcData.{RpcData}
use gboost_rpc.RpcData.Phases.{Frame}
use gboost_rpc.RpcChannel.{
  RpcChannel, Action, received, cancelled, read_started, write_started, shut_down, receive,
}
use gboost_rpc.RpcChannel.Stream.{stream, IsAligned, carried, content, between}
use gboost_rpc.RpcChannel.Receive.{deliveries, receive-Delivers}
use gboost_rpc.RpcChannel.Transfer.{Wire, empty, sent, Wire-IsFrame}
use gboost_rpc.Exchange.{meta-carried, payload-carried, length-carried}
use gboost_rpc.Pipeline.{delivered, Arrived, nobody, arrive}

deliveries-delivered :
    {M : Type 0} (actions : List (Action M)) → map carried (delivered actions) ≡ deliveries actions
deliveries-delivered [] = refl
deliveries-delivered (received d ∷ actions) =
    ap (λ ds. carried d ∷ ds) (deliveries-delivered actions)
deliveries-delivered (cancelled ∷ actions) = deliveries-delivered actions
deliveries-delivered (read_started ∷ actions) = deliveries-delivered actions
deliveries-delivered (write_started b ∷ actions) = deliveries-delivered actions
deliveries-delivered (shut_down ∷ actions) = deliveries-delivered actions

module _ {M : Type 0} {pb : Protobuf M} where
  Wire-Arrived :
      (ds : List (RpcData M)) {ms : List (Meta × M)} {fs : List Frame}
      → Wire pb ms fs
      → map carried ds ≡ map content fs
      → Arrived pb ms ds
  Wire-Arrived [] empty e = nobody
  Wire-Arrived (d ∷ ds) empty e = absurd cc
  Wire-Arrived [] (sent q made z w) e = absurd cc
  Wire-Arrived (d ∷ ds) (sent {m} {x} q made z w) e =
      let same : carried d ≡ content z.frame = cc in
      arrive d (meta-carried pb m x q z d same) (payload-carried pb m x q z d same)
        (length-carried pb m x q z d same) (Wire-Arrived ds w cc)

  -- The messages of one side, written in order, and read by a channel that is between two frames.
  pub receive-Arrived :
      IsProtobuf pb
      → (c : RpcChannel M) (ms : List (Meta × M)) (fs : List Frame) (reads : List (List ℕ))
      → c.partial_message ≡ none
      → c.terminated ≡ false
      → Wire pb ms fs
      → flatten reads ≡ stream fs
      → IsAligned fs reads
      → (actions : List (Action M)) × (receive pb c reads
          ≡ ok (record c { partial_message = none }, actions))
        × Arrived pb ms (delivered actions)
  receive-Arrived law c ms fs reads start running w whole aligned =
      let (actions, got, given) =
        receive-Delivers law c reads fs none start (Wire-IsFrame law w) running (between whole) tt
          aligned in
      (actions, got, Wire-Arrived (delivered actions) w (deliveries-delivered actions ∙ given))
