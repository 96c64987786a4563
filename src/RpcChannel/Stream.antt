-- ===== src/RpcChannel/Stream.antt =====
-- A stream of frames, cut into the reads of ReadInLoop (rpc/detail/rpc_channel.cc), and the place in it
-- that a channel has come to.
use mathlib.Core.List.{flatten}
use gboost_rpc.Base.{
  ℕ, ◌+◌, ◌<◌, ◌≡◌, ltb, Bool, false, ◌&&◌, ◌||◌, Option, none, some, List, [], ◌∷◌, ◌++◌, length,
}
use gboost_rpc.Protocol.{Meta, Protobuf}
use gboost_rpc.RpcData.{RpcData}
use gboost_rpc.RpcData.Phases.{Frame, encode, Holds}

abbrev pub stream : List Frame → List ℕ
stream [] = []
stream (f ∷ fs) = encode f ++ stream fs

-- Whether the place with `left` bytes of the stream to come lies strictly inside some metadata.
abbrev pub splits_meta : List Frame → ℕ → Bool
splits_meta [] left = false
splits_meta (f ∷ fs) left =
    let behind = length (stream fs) + length f.payload in
    (ltb behind left && ltb left (behind + length f.descriptor)) || splits_meta fs left

-- No read ends strictly inside the metadata of a frame, and none is empty.
abbrev pub IsAligned : List Frame → List (List ℕ) → Type 0
IsAligned fs [] = Unit
IsAligned fs (r ∷ rs) =
    (0 < length r) × (splits_meta fs (length (flatten rs)) ≡ false) × IsAligned fs rs

-- What a message carries, and what a frame does.
abbrev pub carried : {M : Type 0} → RpcData M → Meta × List ℕ
carried d = (d.meta, d.payload_binaries)

abbrev pub content : Frame → Meta × List ℕ
content f = (f.meta, f.payload)

-- With this partial message the bytes `left`, of these frames, are still to come.
pub data Waiting {M : Type 0} (pb : Protobuf M) (left : List ℕ)
    : Option (RpcData M) → List Frame → Type 0 where
  between : {fs : List Frame} → left ≡ stream fs → Waiting pb left none fs
  inside :
      {f : Frame} {fs : List Frame} {d : RpcData M} (tail : List ℕ)
      → left ≡ tail ++ stream fs
      → Holds f d tail
      → Waiting pb left (some d) (f ∷ fs)
