-- ===== src/RpcData/Append.antt =====
-- The branches of AppendBinaries (rpc/detail/rpc_data.cc), each under the condition that leads to it.
use gboost_rpc.Base.{
  ℕ, ◌+◌, ◌-◌, ◌≤◌, ◌<◌, ◌≡◌, ◌≢◌, some, List, [], ◌++◌, length, take, drop, length-append,
  length-take, length-drop, ok, fatal, arith, ◌⊎◌, ◌==◌, if◌then◌else◌,
}
use gboost_rpc.Protocol.{get_message_length, Protobuf}
use gboost_rpc.RpcData.{
  RpcData, with_binaries, append_payload, parse_meta, append_meta, append_binaries,
}
use gboost_rpc.RpcData.Bytes.{from_big_endian}

pub length-fast_append :
    (got content : List ℕ) (n : ℕ)
    → n ≤ length content
    → length (got ++ take n content) ≡ length got + n
length-fast_append got content n h =
    omega (arith, length-append got (take n content), length-take n content)

module _ {M : Type 0} (d : RpcData M) (binaries : List ℕ) (offset len : ℕ)
    (room : offset + len ≤ length binaries) where
  abbrev got : ℕ
  got = length d.payload_binaries

  abbrev rest : List ℕ
  rest = drop offset binaries

  enough : len ≤ length rest
  enough = omega (arith, length-drop offset binaries)

  pub append_payload_short :
      0 < len
      → got + len < get_message_length d.meta
      → append_payload d binaries offset len
        ≡ ok (with_binaries d (d.payload_binaries ++ take len rest), some (offset + len))
  unfolding append_payload
  append_payload_short pos short =
      ground (arith, length-fast_append d.payload_binaries rest len enough)

  pub append_payload_full :
      (n : ℕ)
      → 0 < n
      → got + n ≡ get_message_length d.meta
      → n ≤ len
      → append_payload d binaries offset len
        ≡ ok (with_binaries d (d.payload_binaries ++ take n rest), some (offset + n))
  unfolding append_payload
  append_payload_full n pos full le =
      let e : get_message_length d.meta - got ≡ n = omega arith in
      rw e (ground (arith, length-fast_append d.payload_binaries rest n (omega (arith, enough))))

  module _ (pb : Protobuf M) (unparsed : pb.meta_byte_size d.meta ≡ 0) where
    pub append_meta_short :
        0 < len
        → got + len < d.meta_size
        → append_meta pb d binaries offset len
          ≡ ok (with_binaries d (d.payload_binaries ++ take len rest), some (offset + len))
    unfolding append_meta
    append_meta_short pos short =
        ground (arith, length-fast_append d.payload_binaries rest len enough)

    -- Metadata that was put aside and is now complete stops the process.
    pub append_meta_split :
        d.payload_binaries ≢ []
        → got < d.meta_size
        → d.meta_size ≤ got + len
        → append_meta pb d binaries offset len ≡ fatal
    unfolding append_meta
    append_meta_split kept more full = ground (
      arith,
      length-fast_append d.payload_binaries rest (d.meta_size - got) (omega (arith, enough)),
    )

    pub append_meta_whole :
        d.payload_binaries ≡ []
        → 0 < d.meta_size
        → d.meta_size ≤ len
        → append_meta pb d binaries offset len ≡ parse_meta pb d binaries offset d.meta_size len
    unfolding append_meta
    append_meta_whole nothing pos full = ground arith

module _ {M : Type 0} (pb : Protobuf M) (d : RpcData M) (binaries : List ℕ) (len : ℕ)
    (room : len ≤ length binaries) where
  abbrev held_back : ℕ
  held_back = length d.payload_binaries

  pub append_binaries_short :
      d.meta_size ≡ 0
      → 0 < len
      → held_back + len < 4
      → append_binaries pb d binaries len
        ≡ ok (with_binaries d (d.payload_binaries ++ take len binaries), some len)
  unfolding append_binaries
  append_binaries_short unsized pos short = ground arith

  -- The size is complete; `n` is the number that its four bytes stand for.
  pub append_binaries_sized :
      (lacked n : ℕ)
      → d.meta_size ≡ 0
      → 0 < lacked
      → held_back + lacked ≡ 4
      → lacked ≤ len
      → 0 < n
      → from_big_endian binaries ≡ n ⊎ (0 < held_back)
      → from_big_endian (d.payload_binaries ++ take lacked binaries) ≡ n
      → append_binaries pb d binaries len ≡ (
          if len - lacked == 0
          then ok (record d { meta_size = n; payload_binaries = [] }, some lacked)
          else append_meta pb
              (record d { meta_size = n; payload_binaries = [] })
              binaries
              lacked
              (len - lacked))
  unfolding append_binaries
  append_binaries_sized lacked n unsized more full le pos direct read =
      let e : 4 - held_back ≡ lacked = omega arith in rw e (ground arith)

  pub append_binaries_past :
      d.meta_size ≢ 0 → append_binaries pb d binaries len ≡ append_meta pb d binaries 0 len
  unfolding append_binaries
  append_binaries_past sized = ground arith

  pub append_meta_past :
      (offset : ℕ)
      → pb.meta_byte_size d.meta ≢ 0
      → append_meta pb d binaries offset len ≡ append_payload d binaries offset len
  unfolding append_meta
  append_meta_past offset parsed = ground arith
