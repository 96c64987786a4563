-- ===== src/Protocol/Parse.antt =====
-- MergePartialFromCodedStream of rpc/detail/protocol/rpc.pb.cc, over the functions of the protobuf
-- runtime that read from a stream. A stream is the bytes that are left of it.
pub mod Ends
pub mod Results
pub mod Labels
pub mod Unknown
pub mod Merges
pub mod Types
pub mod Typed
use gboost_rpc.Base.{
  ℕ, zero, suc, ◌/◌, ◌%◌, ◌+◌, ◌*◌, ◌≤◌, ◌<◌, ◌^◌, ◌==◌, if◌then◌else◌, Bool, true, false, ◌≡◌, ◌≢◌,
  ◌||◌, Option, none, some, List, [], ◌++◌, length, Outcome, ok, stuck,
}
use gboost_rpc.Protocol.{Meta}
use gboost_rpc.Protocol.Wire.{
  WireFormat, set_seq, set_service_id, set_method_id, set_message_length,
}

-- CodedInputStream with `ReadTagWithCutoff(127)`, which answers a tag, whether it is one below the
-- cutoff, and what is left, `ExpectTag` and `ExpectAtEnd`; and of WireFormatLite and WireFormat
-- `ReadPrimitive`, of a value and what is left, `SkipField`, of the field's bytes and what is left,
-- and the two parts of a tag.
pub record CodedInput : Type 0 where
  pub read_tag : List ℕ → ℕ × Bool × List ℕ
  pub expect_tag : ℕ → List ℕ → Option (List ℕ)
  pub expect_at_end : List ℕ → Bool
  pub read_uint64 : List ℕ → Option (ℕ × List ℕ)
  pub read_int32 : List ℕ → Option (ℕ × List ℕ)
  pub read_uint32 : List ℕ → Option (ℕ × List ℕ)
  pub skip_field : ℕ → List ℕ → Option (List ℕ × List ℕ)
  pub field_number : ℕ → ℕ
  pub wire_type : ℕ → ℕ

-- What the runtime documents: no call makes a stream longer, and a tag takes a byte at least.
pub record IsCodedInput (i : CodedInput) : Type 0 where
  pub tag_taken :
      (bytes : List ℕ) → (i.read_tag bytes).0 ≢ 0 → length (i.read_tag bytes).2 < length bytes
  pub expected_taken :
      (tag : ℕ) (bytes rest : List ℕ)
      → i.expect_tag tag bytes ≡ some rest
      → length rest ≤ length bytes
  pub uint64_taken :
      (bytes rest : List ℕ) (v : ℕ)
      → i.read_uint64 bytes ≡ some (v, rest)
      → length rest ≤ length bytes
  pub int32_taken :
      (bytes rest : List ℕ) (v : ℕ)
      → i.read_int32 bytes ≡ some (v, rest)
      → length rest ≤ length bytes
  pub uint32_taken :
      (bytes rest : List ℕ) (v : ℕ)
      → i.read_uint32 bytes ≡ some (v, rest)
      → length rest ≤ length bytes
  pub field_taken :
      (tag : ℕ) (bytes rest field : List ℕ)
      → i.skip_field tag bytes ≡ some (field, rest)
      → length rest ≤ length bytes

-- What the runtime documents of reading what it wrote: a tag is the field number and, in its last
-- three bits, the type 0 of a varint; a value is read back; a tag that is expected is the next one;
-- a stream that says that it is at its end is; and the tag at the end is 0.
pub record ReadsBack (w : WireFormat) (i : CodedInput) : Type 0 where
  pub number_of : (tag : ℕ) → i.field_number tag ≡ tag / 8
  pub type_of : (tag : ℕ) → i.wire_type tag ≡ tag % 8
  pub at_end : (bytes : List ℕ) → i.expect_at_end bytes ≡ true → bytes ≡ []
  pub end_tag : i.read_tag [] ≡ (0, false, [])
  pub expected :
      (tag : ℕ) (bytes rest : List ℕ)
      → tag ≤ 127
      → i.expect_tag tag bytes ≡ some rest
      → i.read_tag bytes ≡ (tag, true, rest)
  pub uint64_back :
      (number v : ℕ) (rest : List ℕ)
      → 0 < number
      → number < 16
      → v < 2 ^ 64
      → (body : List ℕ) × (i.read_tag (w.write_uint64 number v ++ rest) ≡ (number * 8, true, body))
        × (i.read_uint64 body ≡ some (v, rest))
  pub int32_back :
      (number v : ℕ) (rest : List ℕ)
      → 0 < number
      → number < 16
      → v < 2 ^ 32
      → (body : List ℕ) × (i.read_tag (w.write_int32 number v ++ rest) ≡ (number * 8, true, body))
        × (i.read_int32 body ≡ some (v, rest))
  pub uint32_back :
      (number v : ℕ) (rest : List ℕ)
      → 0 < number
      → number < 16
      → v < 2 ^ 32
      → (body : List ℕ) × (i.read_tag (w.write_uint32 number v ++ rest) ≡ (number * 8, true, body))
        × (i.read_uint32 body ≡ some (v, rest))

-- What the runtime documents of types and of unknown fields: a value that is read is one of its type,
-- and the bytes of a field that was skipped are read back as that field, whatever follows.
pub record ReadsTypes (i : CodedInput) : Type 0 where
  pub uint64_fits :
      (bytes rest : List ℕ) (v : ℕ) → i.read_uint64 bytes ≡ some (v, rest) → v < 2 ^ 64
  pub int32_fits : (bytes rest : List ℕ) (v : ℕ) → i.read_int32 bytes ≡ some (v, rest) → v < 2 ^ 32
  pub uint32_fits :
      (bytes rest : List ℕ) (v : ℕ) → i.read_uint32 bytes ≡ some (v, rest) → v < 2 ^ 32
  pub field_back :
      (bytes body field rest : List ℕ) (tag : ℕ) (known : Bool)
      → i.read_tag bytes ≡ (tag, known, body)
      → tag ≢ 0
      → i.skip_field tag body ≡ some (field, rest)
      → (after : List ℕ)
      → (again : List ℕ) × (i.read_tag (field ++ after) ≡ (tag, known, again))
        × (i.skip_field tag again ≡ some (field, after))

-- How an arm of the switch is left: by `break`, or by `goto success` or `goto failure`.
pub data Arm : Type 0 where
  breaks : Meta → List ℕ → Arm
  success : Meta → Arm
  failure : Arm

module _ (i : CodedInput) where
  -- The label `parse_message_length`, and the others before it.
  unfoldable pub parse_message_length : Meta → List ℕ → Arm
  parse_message_length m bytes = elim (i.read_uint32 bytes) [
    | none ↦ failure
    | some (v, rest) ↦
        if i.expect_at_end rest
        then success (set_message_length m v)
        else breaks (set_message_length m v) rest
  ]

  unfoldable pub parse_method_id : Meta → List ℕ → Arm
  unfolding parse_message_length
  parse_method_id m bytes = elim (i.read_int32 bytes) [
    | none ↦ failure
    | some (v, rest) ↦ elim (i.expect_tag 32 rest) [
      | none ↦ breaks (set_method_id m v) rest
      | some after ↦ parse_message_length (set_method_id m v) after
    ]
  ]

  unfoldable pub parse_service_id : Meta → List ℕ → Arm
  unfolding parse_method_id
  parse_service_id m bytes = elim (i.read_int32 bytes) [
    | none ↦ failure
    | some (v, rest) ↦ elim (i.expect_tag 24 rest) [
      | none ↦ breaks (set_service_id m v) rest
      | some after ↦ parse_method_id (set_service_id m v) after
    ]
  ]

  unfoldable pub parse_seq : Meta → List ℕ → Arm
  unfolding parse_service_id
  parse_seq m bytes = elim (i.read_uint64 bytes) [
    | none ↦ failure
    | some (v, rest) ↦ elim (i.expect_tag 16 rest) [
      | none ↦ breaks (set_seq m v) rest
      | some after ↦ parse_service_id (set_seq m v) after
    ]
  ]

  -- The label `handle_unusual`. A type 4 ends a group.
  unfoldable pub handle_unusual : Meta → ℕ → List ℕ → Arm
  handle_unusual m tag bytes =
      if tag == 0 || i.wire_type tag == 4 then success m else elim (i.skip_field tag bytes) [
        | none ↦ failure
        | some (field, rest) ↦ breaks (record m { unknown_fields = m.unknown_fields ++ field }) rest
      ]

  -- The switch on the field number.
  unfoldable pub switch_field : Meta → ℕ → List ℕ → Arm
  unfolding handle_unusual parse_seq
  switch_field m tag bytes =
      if i.field_number tag == 1
      then (if tag == 8 then parse_seq m bytes else handle_unusual m tag bytes)
      else if i.field_number tag == 2
      then (if tag == 16 then parse_service_id m bytes else handle_unusual m tag bytes)
      else if i.field_number tag == 3
      then (if tag == 24 then parse_method_id m bytes else handle_unusual m tag bytes)
      else if i.field_number tag == 4
      then (if tag == 32 then parse_message_length m bytes else handle_unusual m tag bytes)
      else handle_unusual m tag bytes

  -- One round of the loop.
  unfoldable pub parse_round : Meta → List ℕ → Arm
  unfolding switch_field
  parse_round m bytes =
      let (tag, known, rest) = i.read_tag bytes in
      if known then switch_field m tag rest else handle_unusual m tag rest

  -- The loop. `none` is the result false; what it leaves of the metadata then is not looked at: RPCData
  -- drops the message.
  unfoldable pub parse_loop : ℕ → Meta → List ℕ → Outcome (Option Meta)
  unfolding parse_round
  parse_loop zero m bytes = stuck
  parse_loop (suc fuel) m bytes = elim (parse_round m bytes) [
    | breaks m' rest ↦ parse_loop fuel m' rest
    | success m' ↦ ok (some m')
    | failure ↦ ok none
  ]

  -- `MergePartialFromCodedStream`. Each round but the last takes a byte.
  unfoldable pub merge_partial : Meta → List ℕ → Outcome (Option Meta)
  unfolding parse_loop
  merge_partial m bytes = parse_loop (suc (length bytes)) m bytes
