-- ===== src/RpcChannel/Limits.antt =====
-- The bounds that ReadInLoop (rpc/detail/rpc_channel.cc) checks after AppendBinaries.
use gboost_rpc.Base.{
  ℕ, ◌≤◌, ◌<◌, ◌≡◌, ◌==◌, true, false, Bool-cases, inl, inr, ◌⊎◌, some, List, length, ok, arith,
}
use gboost_rpc.Protocol.{get_message_length, Protobuf, IsProtobuf}
use gboost_rpc.RpcData.{RpcData, append_binaries, partial}
use gboost_rpc.RpcData.Limits.{fits, within, append_binaries-within}
use gboost_rpc.RpcChannel.Total.{moves, append_binaries-moves}

-- What holds of every message that AppendBinaries collects: without a size it has no metadata.
abbrev pub IsCollecting : {M : Type 0} → Protobuf M → RpcData M → Type 0
IsCollecting pb d = d.meta_size ≡ 0 → pb.meta_byte_size d.meta ≡ 0

-- A call of AppendBinaries, given `total` bytes, took `n` of them and left the message `d`.
pub record Took {M : Type 0} (pb : Protobuf M) (total n : ℕ) (d : RpcData M) : Type 0 where
  pub some_taken : 0 < n
  pub no_more : n ≤ total
  pub decided : (partial pb d ≡ ok false) ⊎ ((partial pb d ≡ ok true) × (n ≡ total))
  pub collecting : IsCollecting pb d

module _ {M : Type 0} (pb : Protobuf M) where
  fits-decided :
      (total n : ℕ) (d : RpcData M)
      → fits pb total n d ≡ true
      → (partial pb d ≡ ok false) ⊎ ((partial pb d ≡ ok true) × (n ≡ total))
  unfolding partial
  fits-decided total n d h = elim (Bool-cases (pb.meta_byte_size d.meta == 0)) [
    | inl unparsed ↦ inr (ground (arith, unparsed), ground (arith, unparsed, h))
    | inr parsed ↦ elim (Bool-cases (length d.payload_binaries == get_message_length d.meta)) [
      | inl complete ↦ inl (ground (arith, parsed, complete))
      | inr lacking ↦ inr (ground (arith, parsed, lacking, h), ground (arith, parsed, lacking, h))
    ]
  ]

-- From a message that has a size or no metadata, and for whatever bytes a peer sends, a call of
-- `AppendBinaries` that takes bytes takes one at least and no more
-- than it was given. `Partial` of what it leaves returns, and a message that is still partial took
-- all of the bytes: the three checks that ReadInLoop and Partial make then hold. The message has
-- again a size or no metadata.
pub append_binaries-Took :
    {M : Type 0} {pb : Protobuf M}
    → IsProtobuf pb
    → (d d' : RpcData M) (bytes : List ℕ) (n : ℕ) → IsCollecting pb d
    → 0 < length bytes
    → append_binaries pb d bytes (length bytes) ≡ ok (d', some n)
    → Took pb (length bytes) n d'
append_binaries-Took {pb} law d d' bytes n unsized pos e =
    let w : within pb (length bytes) (ok (d', some n)) ≡ true =
      rw e at (append_binaries-within pb law d bytes (length bytes) unsized (omega arith) pos) in
    let moved : moves (ok (d', some n)) ≡ true =
      rw e at (append_binaries-moves pb d bytes (length bytes) pos) in
    record {
      some_taken = ground (arith, moved);
      no_more = ground (arith, w);
      decided = fits-decided pb (length bytes) n d' (ground (arith, w));
      collecting = λ unset. ground (arith, w, unset);
    }
