-- ===== src/RpcData/Limits.antt =====
-- What AppendBinaries (rpc/detail/rpc_data.cc) takes and keeps, whatever bytes a peer sends.
use native.Mathlib.Decide.{dec_lt}
use gboost_rpc.Base.{
  ℕ, ◌+◌, ◌-◌, ◌≤◌, ◌<◌, ◌≡◌, ◌≢◌, ap, leb, ltb, ◌==◌, if◌then◌else◌, Bool, true, false, ◌&&◌, ◌||◌,
  Bool-cases, list_cases, inl, inr, Option-cases, none, some, List, [], ◌++◌, length, take, drop,
  length-append, length-take, length-drop, ok, fatal, stuck, ◌>>◌, check, arith,
}
use gboost_rpc.Protocol.{get_message_length, Protobuf, IsProtobuf}
use gboost_rpc.RpcData.{
  RpcData, Appended, is_empty, append_binaries, append_meta, append_payload, parse_meta,
}
use gboost_rpc.RpcData.Append.{
  length-fast_append, append_meta_short, append_meta_split, append_binaries_short,
}
use gboost_rpc.RpcData.Bytes.{from_big_endian}

module _ {M : Type 0} (pb : Protobuf M) where
  -- A message that is complete, or a partial one with less than the part that it collects.
  abbrev pub fits : ℕ → ℕ → RpcData M → Bool
  fits total n d =
      if pb.meta_byte_size d.meta == 0
      then n == total
        && (if d.meta_size == 0
            then ltb (length d.payload_binaries) 4
            else ltb (length d.payload_binaries) d.meta_size)
      else ltb 0 d.meta_size
        && (leb (length d.payload_binaries) (get_message_length d.meta)
            && (length d.payload_binaries == get_message_length d.meta || n == total))

  -- A call that was given `total` bytes.
  abbrev pub within : ℕ → Appended M → Bool
  within total (ok (d, none)) = true
  within total (ok (d, some n)) = leb n total && fits total n d
  within total fatal = true
  within total stuck = false

  append_payload-within :
      (d : RpcData M) (bytes : List ℕ) (offset len total : ℕ)
      → offset + len ≡ total
      → total ≤ length bytes
      → 0 < d.meta_size
      → pb.meta_byte_size d.meta ≢ 0
      → within total (append_payload d bytes offset len) ≡ true
  unfolding append_payload
  append_payload-within d bytes offset len total sum room some_size parsed =
      let lacked = get_message_length d.meta - length d.payload_binaries in
      let rest = drop offset bytes in
      ground (
        arith,
        length-fast_append d.payload_binaries rest len (omega (arith, length-drop offset bytes)),
        length-append d.payload_binaries (take lacked rest),
        length-take lacked rest,
        length-drop offset bytes,
      )

  module _ (law : IsProtobuf pb) where
    parse_meta-within :
        (d : RpcData M) (bytes : List ℕ) (offset lacked len total : ℕ)
        → offset + len ≡ total
        → d.payload_binaries ≡ []
        → total ≤ length bytes
        → lacked ≤ len
        → 0 < d.meta_size
        → within total (parse_meta pb d bytes offset lacked len) ≡ true
    unfolding parse_meta
    parse_meta-within d bytes offset lacked len total sum nothing room enough some_size =
        elim (Option-cases (pb.meta_from_array (take d.meta_size (drop offset bytes)))) [
          | inl bad ↦ ground (arith, bad)
          | inr (m, good) ↦
              let parsed = law.parsed_size (take d.meta_size (drop offset bytes)) m good in
              let d' = record d {
                meta = m;
                payload_binaries = if get_message_length m == 0 then d.payload_binaries else [];
              } in
              let nothing_more =
                append_payload-within d' bytes (offset + lacked) (len - lacked) total (omega arith)
                  room some_size parsed in
              ground (arith, nothing_more, parsed, good)
        ]

    append_meta_late :
        (d : RpcData M) (bytes : List ℕ) (offset len : ℕ)
        → pb.meta_byte_size d.meta ≡ 0
        → d.meta_size ≤ length d.payload_binaries
        → append_meta pb d bytes offset len ≡ fatal
    unfolding append_meta
    append_meta_late d bytes offset len unparsed late = ground arith

    append_meta-within_kept :
        (d : RpcData M) (bytes : List ℕ) (offset len total : ℕ)
        → offset + len ≡ total
        → total ≤ length bytes
        → 0 < len
        → pb.meta_byte_size d.meta ≡ 0
        → d.payload_binaries ≢ []
        → within total (append_meta pb d bytes offset len) ≡ true
    append_meta-within_kept d bytes offset len total sum room pos unparsed kept =
        let room' : offset + len ≤ length bytes = omega arith in
        elim (dec_lt (length d.payload_binaries) d.meta_size) [
          | no late ↦ rw (append_meta_late d bytes offset len unparsed (omega (arith, late)))
          | yes early ↦ elim (dec_lt (length d.payload_binaries + len) d.meta_size) [
            | yes short ↦ rw (append_meta_short d bytes offset len room' pb unparsed pos short) (
                ground (
                  arith,
                  length-fast_append d.payload_binaries (drop offset bytes) len
                      (omega (arith, length-drop offset bytes)),
                ))
            | no full ↦ rw (
                append_meta_split d bytes offset len room' pb unparsed kept early
                  (omega (arith, full)))
          ]
        ]

    append_meta-within :
        (d : RpcData M) (bytes : List ℕ) (offset len total : ℕ)
        → offset + len ≡ total
        → total ≤ length bytes
        → 0 < len
        → 0 < d.meta_size
        → within total (append_meta pb d bytes offset len) ≡ true
    unfolding append_meta
    append_meta-within d bytes offset len total sum room pos some_size =
        elim (Bool-cases (pb.meta_byte_size d.meta == 0)) [
          | inr parsed ↦
              rw parsed
                (append_payload-within d bytes offset len total sum room some_size (ground arith))
          | inl unparsed ↦ elim (list_cases d.payload_binaries) [
            | inl nothing ↦ ground (
              arith,
              ap length nothing,
              parse_meta-within d bytes offset (d.meta_size - length d.payload_binaries) len total
                  sum nothing room,
              length-fast_append d.payload_binaries (drop offset bytes) len
                  (omega (arith, length-drop offset bytes)),
            )
            | inr kept ↦
                append_meta-within_kept d bytes offset len total sum room pos (ground arith) kept
          ]
        ]

    sized-within :
        (d : RpcData M) (bytes grown : List ℕ) (lacked len : ℕ)
        → len ≤ length bytes
        → lacked ≤ len
        → within len (
            check (ltb 0 (from_big_endian (if is_empty grown then bytes else grown)))
            >> (if len - lacked == 0
                then ok (
                  record d {
                    meta_size = from_big_endian (if is_empty grown then bytes else grown);
                    payload_binaries = [];
                  },
                  some lacked,
                )
                else append_meta pb
                    (record d {
                      meta_size = from_big_endian (if is_empty grown then bytes else grown);
                      payload_binaries = [];
                    })
                    bytes
                    lacked
                    (len - lacked)))
          ≡ true
    sized-within d bytes grown lacked len room enough =
        let sized = record d {
          meta_size = from_big_endian (if is_empty grown then bytes else grown);
          payload_binaries = [];
        } in
        ground (arith, append_meta-within sized bytes lacked (len - lacked) len (omega arith) room)

    pub append_binaries-within :
        (d : RpcData M) (bytes : List ℕ) (len : ℕ)
        → (d.meta_size ≡ 0 → pb.meta_byte_size d.meta ≡ 0)
        → len ≤ length bytes
        → 0 < len
        → within len (append_binaries pb d bytes len) ≡ true
    unfolding append_binaries
    append_binaries-within d bytes len unsized room pos =
        let lacked = 4 - length d.payload_binaries in
        elim (Bool-cases (d.meta_size == 0)) [
          | inr sized ↦
              rw sized (append_meta-within d bytes 0 len len (omega arith) room pos (ground arith))
          | inl start ↦ elim (dec_lt len lacked) [
            | yes short ↦
                rw
                  (append_binaries_short pb d bytes len room (ground arith) pos
                    (omega (arith, short)))
                  (ground (arith, unsized, length-fast_append d.payload_binaries bytes len room))
            | no full ↦ elim (list_cases d.payload_binaries) [
              | inl nothing ↦
                  ground (arith, ap length nothing, sized-within d bytes [] lacked len room)
              | inr kept ↦ ground (
                arith,
                sized-within d bytes (d.payload_binaries ++ take lacked bytes) lacked len room,
              )
            ]
          ]
        ]
