-- ===== src/RpcData/Phases.antt =====
-- A frame on the wire, and how far an RPCData (rpc/detail/rpc_data.h) that receives it has come.
use gboost_rpc.Base.{
  ℕ, ◌+◌, ◌^◌, ◌<◌, ◌≡◌, ◌≢◌, List, [], ◌++◌, length, some, ok, arith, ap, append_assoc,
  length-append,
}
use gboost_rpc.Protocol.{Meta, empty_meta, get_message_length, Protobuf}
use gboost_rpc.RpcData.{RpcData, Appended}
use gboost_rpc.RpcData.Bytes.{to_big_endian}

-- What one `ToBuffer` writes: the metadata, its serialised form, and the payload.
pub record Frame : Type 0 where
  pub meta : Meta
  pub descriptor : List ℕ
  pub payload : List ℕ

abbrev pub encode : Frame → List ℕ
encode f = to_big_endian (length f.descriptor) ++ (f.descriptor ++ f.payload)

-- The descriptor parses to the metadata, which names the length of the payload.
pub record IsFrame {M : Type 0} (pb : Protobuf M) (f : Frame) : Type 0 where
  pub parses : pb.meta_from_array f.descriptor ≡ some f.meta
  pub described : 0 < length f.descriptor
  pub small : length f.descriptor < 2 ^ 32
  pub measured : get_message_length f.meta ≡ length f.payload

module _ {M : Type 0} (f : Frame) (d : RpcData M) where
  pub record InSize (rest : List ℕ) : Type 0 where
    pub unsized : d.meta_size ≡ 0
    pub unparsed : d.meta ≡ empty_meta
    pub size : to_big_endian (length f.descriptor) ≡ d.payload_binaries ++ rest
    pub more : rest ≢ []

  pub record InMeta (rest : List ℕ) : Type 0 where
    pub sized : d.meta_size ≡ length f.descriptor
    pub unparsed : d.meta ≡ empty_meta
    pub descriptor : f.descriptor ≡ d.payload_binaries ++ rest
    pub more : rest ≢ []

  pub record InPayload (rest : List ℕ) : Type 0 where
    pub sized : d.meta_size ≡ length f.descriptor
    pub parsed : d.meta ≡ f.meta
    pub payload : f.payload ≡ d.payload_binaries ++ rest
    pub more : rest ≢ []

  -- `remaining` is what is still to come of the frame.
  pub data Holds (remaining : List ℕ) : Type 0 where
    in_size :
        (rest : List ℕ)
        → remaining ≡ rest ++ (f.descriptor ++ f.payload)
        → InSize rest
        → Holds remaining
    in_meta : (rest : List ℕ) → remaining ≡ rest ++ f.payload → InMeta rest → Holds remaining
    in_payload : (rest : List ℕ) → remaining ≡ rest → InPayload rest → Holds remaining

  pub record IsComplete : Type 0 where
    pub parsed : d.meta ≡ f.meta
    pub whole : d.payload_binaries ≡ f.payload

  -- No part of the metadata was put aside.
  abbrev pub IsReady : Type 0
  IsReady = d.meta_size ≢ 0 → d.meta ≡ empty_meta → d.payload_binaries ≡ []

-- What a call that was given the bytes `taken` behind `offset` has made of the frame: it took them
-- all and the frame goes on, or it took what was missing and no more. `later` is what follows
-- `taken` in the stream, and `beyond` what follows the frame.
pub data Advanced {M : Type 0} (f : Frame) (offset : ℕ) (taken later remaining beyond : List ℕ)
    (result : Appended M) : Type 0 where
  paused :
      (d : RpcData M) (tail : List ℕ)
      → remaining ≡ taken ++ tail
      → later ≡ tail ++ beyond
      → result ≡ ok (d, some (offset + length taken))
      → Holds f d tail
      → Advanced f offset taken later remaining beyond result
  finished :
      (d : RpcData M) (extra : List ℕ)
      → taken ≡ remaining ++ extra
      → beyond ≡ extra ++ later
      → result ≡ ok (d, some (offset + length remaining))
      → IsComplete f d
      → Advanced f offset taken later remaining beyond result

-- The bytes `front` were taken before.
pub Advanced-behind :
    {M : Type 0} (f : Frame) (offset offset' : ℕ) (front : List ℕ)
    {taken taken' later remaining beyond : List ℕ} {result : Appended M}
    → offset + length front ≡ offset'
    → taken ≡ front ++ taken'
    → Advanced f offset' taken' later remaining beyond result
    → Advanced f offset taken later (front ++ remaining) beyond result
Advanced-behind f offset offset' front {taken} {taken'} {later} {remaining} o e
      (paused d tail cut back r h) =
    let whole : front ++ remaining ≡ taken ++ tail = rw (e, append_assoc, cut) in
    let n : offset' + length taken' ≡ offset + length taken =
      omega (arith, ap length e, length-append front taken') in
    paused d tail whole back (rw n at r) h
Advanced-behind f offset offset' front {taken} {taken'} {later} {remaining} o e
      (finished d extra cut back r h) =
    let whole : taken ≡ (front ++ remaining) ++ extra = rw (e, append_assoc, cut) in
    let n : offset' + length remaining ≡ offset + length (front ++ remaining) =
      omega (arith, length-append front remaining) in
    finished d extra whole back (rw n at r) h
