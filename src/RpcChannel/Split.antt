-- ===== src/RpcChannel/Split.antt =====
-- ReadInLoop (rpc/detail/rpc_channel.cc) where a part of the metadata was put aside.
use gboost_rpc.Base.{
  ℕ, ◌≤◌, ◌≡◌, ◌≢◌, ap, false, some, List, [], ◌∷◌, ◌∙◌, length, length-append, length-pos, fatal,
  arith,
}
use gboost_rpc.Protocol.{Protobuf, IsProtobuf}
use gboost_rpc.RpcData.{RpcData, append_binaries}
use gboost_rpc.RpcData.Phases.{Frame, InMeta}
use gboost_rpc.RpcData.Append.{append_binaries_past, append_meta_split}
use gboost_rpc.RpcChannel.{RpcChannel, read_loop, read_in_loop}

module _ {M : Type 0} {pb : Protobuf M} (law : IsProtobuf pb) (f : Frame) (d : RpcData M)
    (rest bytes : List ℕ) where
  append_binaries_split :
      InMeta f d rest
      → d.payload_binaries ≢ []
      → length rest ≤ length bytes
      → append_binaries pb d bytes (length bytes) ≡ fatal
  append_binaries_split p kept enough =
      let n = ap length p.descriptor in
      let cut = length-append d.payload_binaries rest in
      let more = length-pos rest p.more in
      let sized : d.meta_size ≢ 0 = omega (arith, n, cut, more, p.sized) in
      append_binaries_past pb d bytes (length bytes) (omega arith) sized
      ∙ append_meta_split d bytes 0 (length bytes) (omega arith) pb (rw p.unparsed law.empty_size)
          kept (omega (arith, p.sized, n, cut, more)) (omega (arith, p.sized, n, cut, enough))

-- The metadata of a frame that arrives in two reads stops the process: the channel has put a part
-- of it aside, and the next read brings the rest.
pub read_in_loop_split :
    {M : Type 0} {pb : Protobuf M}
    → IsProtobuf pb
    → (f : Frame) (d : RpcData M) (rest bytes : List ℕ) (c : RpcChannel M) → c.terminated ≡ false
    → c.partial_message ≡ some d
    → InMeta f d rest
    → d.payload_binaries ≢ []
    → length rest ≤ length bytes
    → read_in_loop pb c false bytes ≡ fatal
unfolding read_in_loop read_loop
read_in_loop_split law f d rest [] c running aside p kept enough =
    absurd (omega (arith, length-pos rest p.more, enough))
read_in_loop_split {pb} law f d rest (b ∷ bs) c running aside p kept enough =
    let stops = append_binaries_split law f d rest (b ∷ bs) p kept enough in
    rw (running, aside) (ground (arith, stops))
