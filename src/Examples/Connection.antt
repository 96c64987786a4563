-- ===== src/Examples/Connection.antt =====
-- Two messages over a connection, in three reads.
use mathlib.Core.List.{flatten}
use gboost_rpc.Base.{
  ℕ, ◌≡◌, ◌≢◌, refl, false, some, List, [], ◌∷◌, ◌++◌, map, arith, ok, fatal, stuck,
}
use gboost_rpc.RpcData.{RpcData, new_data, held, new_outgoing, append_binaries}
use gboost_rpc.RpcData.Bytes.{to_big_endian}
use gboost_rpc.RpcData.Phases.{Frame, IsFrame, encode, InSize, in_size, Advanced}
use gboost_rpc.RpcData.Cases.{append_binaries-Advanced}
use gboost_rpc.RpcData.Outgoing.{Serialized, new_outgoing-Serialized}
use gboost_rpc.RpcChannel.{Action, new_channel, receive, read_in_loop}
use gboost_rpc.RpcChannel.Stream.{stream, IsAligned}
use gboost_rpc.RpcChannel.Receive.{deliveries}
use gboost_rpc.RpcChannel.Transfer.{Wire, empty, sent, parsed, receive-stream, transfer}
use gboost_rpc.RpcChannel.Split.{read_in_loop_split}
use gboost_rpc.RpcChannel.Total.{read_in_loop_total}
use gboost_rpc.Examples.Codec.{codec, codec-IsProtobuf, meta_of, meta_of-IsWritable}

abbrev pub frame_1 : Frame
frame_1 = record {
  meta = meta_of 7 5 1 2 [];
  descriptor = 7 ∷ 5 ∷ 1 ∷ 2 ∷ [];
  payload = 9 ∷ 8 ∷ [];
}

abbrev pub frame_2 : Frame
frame_2 = record { meta = meta_of 8 5 1 0 []; descriptor = 8 ∷ 5 ∷ 1 ∷ 0 ∷ []; payload = [] }

abbrev reads : List (List ℕ)
reads =
    (0 ∷ 0 ∷ []) ∷ (0 ∷ 4 ∷ 7 ∷ 5 ∷ 1 ∷ 2 ∷ 9 ∷ []) ∷ (8 ∷ 0 ∷ 0 ∷ 0 ∷ 4 ∷ 8 ∷ 5 ∷ 1 ∷ 0 ∷ []) ∷ []

frame_1-IsFrame : IsFrame codec frame_1
frame_1-IsFrame = record {
  parses = refl;
  described = omega arith;
  small = omega arith;
  measured = refl;
}

frame_2-IsFrame : IsFrame codec frame_2
frame_2-IsFrame = record {
  parses = refl;
  described = omega arith;
  small = omega arith;
  measured = refl;
}

reads-IsAligned : IsAligned (frame_1 ∷ frame_2 ∷ []) reads
unfolding flatten to_big_endian
reads-IsAligned = (omega arith, refl, (omega arith, refl, (omega arith, refl, tt)))

reads_whole : flatten reads ≡ stream (frame_1 ∷ frame_2 ∷ [])
unfolding flatten to_big_endian
reads_whole = refl

pub encode_1 : encode frame_1 ≡ 0 ∷ 0 ∷ 0 ∷ 4 ∷ 7 ∷ 5 ∷ 1 ∷ 2 ∷ 9 ∷ 8 ∷ []
unfolding to_big_endian
encode_1 = refl

pub encode_2 : encode frame_2 ≡ 0 ∷ 0 ∷ 0 ∷ 4 ∷ 8 ∷ 5 ∷ 1 ∷ 0 ∷ []
unfolding to_big_endian
encode_2 = refl

receive-stream_example :
    (actions : List (Action (List ℕ))) × (receive codec new_channel reads
      ≡ ok (new_channel, actions))
    × (deliveries actions ≡ (meta_of 7 5 1 2 [], 9 ∷ 8 ∷ []) ∷ (meta_of 8 5 1 0 [], []) ∷ [])
receive-stream_example =
    receive-stream codec-IsProtobuf (frame_1 ∷ frame_2 ∷ []) reads
      (frame_1-IsFrame, (frame_2-IsFrame, tt)) reads_whole reads-IsAligned

-- The messages as `RPCData(meta, payload)` makes them.
abbrev pub outgoing : Frame → RpcData (List ℕ)
outgoing f = record new_data { meta = f.meta; payload = some f.payload; buffer = held (encode f) }

abbrev pub outgoing-Serialized :
    (f : Frame) → IsFrame codec f → Serialized codec f.meta f.payload (outgoing f)
outgoing-Serialized f framed = record {
  frame = f;
  tagged = refl;
  framed = framed;
  loaded = refl;
  written = refl;
  idle = refl;
}

frames-Wire :
    Wire codec
      ((meta_of 7 5 1 2 [], 9 ∷ 8 ∷ []) ∷ (meta_of 8 5 1 0 [], []) ∷ [])
      (frame_1 ∷ frame_2 ∷ [])
unfolding new_outgoing to_big_endian
frames-Wire =
    sent (outgoing frame_1) refl (outgoing-Serialized frame_1 frame_1-IsFrame)
      (sent (outgoing frame_2) refl (outgoing-Serialized frame_2 frame_2-IsFrame) empty)

transfer_example :
    (actions : List (Action (List ℕ))) × (receive codec new_channel reads
      ≡ ok (new_channel, actions))
    × (map (parsed codec) (deliveries actions)
        ≡ (meta_of 7 5 1 2 [], some (9 ∷ 8 ∷ [])) ∷ (meta_of 8 5 1 0 [], some []) ∷ [])
transfer_example =
    transfer codec-IsProtobuf ((meta_of 7 5 1 2 [], 9 ∷ 8 ∷ []) ∷ (meta_of 8 5 1 0 [], []) ∷ [])
      (frame_1 ∷ frame_2 ∷ []) reads frames-Wire reads_whole reads-IsAligned

new_outgoing-Serialized_example :
    (d : RpcData (List ℕ)) × (new_outgoing codec (meta_of 7 5 1 2 []) (9 ∷ 8 ∷ []) ≡ ok d)
    × Serialized codec (meta_of 7 5 1 2 []) (9 ∷ 8 ∷ []) d
new_outgoing-Serialized_example =
    new_outgoing-Serialized codec-IsProtobuf (meta_of 7 5 1 2 []) (9 ∷ 8 ∷ []) (record {
      initialized = refl;
      writable = meta_of-IsWritable 7 5 1 2 (omega arith) (omega arith) (omega arith) (omega arith);
      measured = refl;
      small = omega arith;
    })

abbrev size_1 : List ℕ
size_1 = 0 ∷ 0 ∷ 0 ∷ 4 ∷ []

fresh-InSize : InSize {M = List ℕ} frame_1 new_data size_1
unfolding to_big_endian
fresh-InSize = record { unsized = refl; unparsed = refl; size = refl; more = λ e. cc }

append_binaries-Advanced_example :
    Advanced frame_1 0
      (0 ∷ 0 ∷ 0 ∷ 4 ∷ 7 ∷ 5 ∷ [])
      (1 ∷ 2 ∷ 9 ∷ 8 ∷ [])
      (size_1 ++ (frame_1.descriptor ++ frame_1.payload))
      []
      (append_binaries codec new_data (0 ∷ 0 ∷ 0 ∷ 4 ∷ 7 ∷ 5 ∷ []) 6)
append_binaries-Advanced_example =
    append_binaries-Advanced frame_1 codec frame_1-IsFrame codec-IsProtobuf new_data
      (0 ∷ 0 ∷ 0 ∷ 4 ∷ 7 ∷ 5 ∷ []) (1 ∷ 2 ∷ 9 ∷ 8 ∷ []) [] (in_size size_1 refl fresh-InSize)
      (λ sized unparsed. refl) (λ e. cc) refl

read_in_loop_total_example : read_in_loop codec new_channel false (0 ∷ 0 ∷ 0 ∷ 4 ∷ 7 ∷ []) ≢ stuck
read_in_loop_total_example = read_in_loop_total codec new_channel false (0 ∷ 0 ∷ 0 ∷ 4 ∷ 7 ∷ [])

-- Two of the four bytes of the metadata were put aside.
abbrev aside : RpcData (List ℕ)
aside = record new_data { meta_size = 4; payload_binaries = 7 ∷ 5 ∷ [] }

read_in_loop_split_example :
    read_in_loop codec (record new_channel { partial_message = some aside }) false (1 ∷ 2 ∷ 9 ∷ [])
    ≡ fatal
read_in_loop_split_example =
    read_in_loop_split codec-IsProtobuf frame_1 aside (1 ∷ 2 ∷ []) (1 ∷ 2 ∷ 9 ∷ [])
      (record new_channel { partial_message = some aside }) refl refl
      (record { sized = refl; unparsed = refl; descriptor = refl; more = λ e. cc }) (λ e. cc)
      (omega arith)
