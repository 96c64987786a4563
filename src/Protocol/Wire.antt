-- ===== src/Protocol/Wire.antt =====
-- The methods of RPCMetaData in rpc/detail/protocol/rpc.pb.h and rpc.pb.cc that write, measure and
-- copy it, over the functions of the protobuf runtime that write and measure one number.
use gboost_rpc.Base.{
  ℕ, ◌+◌, ◌<◌, [], ◌≡◌, refl, Option, none, some, List, ◌++◌, length, length-append, arith,
}
use gboost_rpc.Protocol.{Meta, empty_meta}

-- WireFormatLite: `WriteUInt64ToArray` and the like, of a field number and a value, and the sizes of
-- the values.
pub record WireFormat : Type 0 where
  pub write_uint64 : ℕ → ℕ → List ℕ
  pub write_int32 : ℕ → ℕ → List ℕ
  pub write_uint32 : ℕ → ℕ → List ℕ
  pub uint64_size : ℕ → ℕ
  pub int32_size : ℕ → ℕ
  pub uint32_size : ℕ → ℕ

-- A field is one byte, the tag of a field number below 16, and its value.
pub record IsWireFormat (w : WireFormat) : Type 0 where
  pub uint64_written :
      (number value : ℕ)
      → number < 16
      → length (w.write_uint64 number value) ≡ 1 + w.uint64_size value
  pub int32_written :
      (number value : ℕ)
      → number < 16
      → length (w.write_int32 number value) ≡ 1 + w.int32_size value
  pub uint32_written :
      (number value : ℕ)
      → number < 16
      → length (w.write_uint32 number value) ≡ 1 + w.uint32_size value

abbrev pub field_size : (ℕ → ℕ) → Option ℕ → ℕ
field_size size none = 0
field_size size (some value) = 1 + size value

abbrev pub field_bytes : (ℕ → List ℕ) → Option ℕ → List ℕ
field_bytes write none = []
field_bytes write (some value) = write value

-- `ByteSize`
unfoldable pub byte_size_of : WireFormat → Meta → ℕ
byte_size_of w m =
    field_size w.uint64_size m.seq
    + field_size w.int32_size m.service_id
    + field_size w.int32_size m.method_id
    + field_size w.uint32_size m.message_length
    + length m.unknown_fields

-- `SerializeWithCachedSizes` and `SerializeWithCachedSizesToArray`
unfoldable pub serialize : WireFormat → Meta → List ℕ
serialize w m =
    field_bytes (w.write_uint64 1) m.seq
    ++ (field_bytes (w.write_int32 2) m.service_id
        ++ (field_bytes (w.write_int32 3) m.method_id
            ++ (field_bytes (w.write_uint32 4) m.message_length ++ m.unknown_fields)))

abbrev pub set_seq : Meta → ℕ → Meta
set_seq m value = record m { seq = some value }

abbrev pub set_service_id : Meta → ℕ → Meta
set_service_id m value = record m { service_id = some value }

abbrev pub set_method_id : Meta → ℕ → Meta
set_method_id m value = record m { method_id = some value }

abbrev pub set_message_length : Meta → ℕ → Meta
set_message_length m value = record m { message_length = some value }

abbrev pub merge_field : (Meta → ℕ → Meta) → Option ℕ → Meta → Meta
merge_field set none m = m
merge_field set (some value) m = set m value

-- `MergeFrom`
unfoldable pub merge_from : Meta → Meta → Meta
merge_from m source =
    let fields = merge_field set_message_length source.message_length (
      merge_field set_method_id source.method_id
        (merge_field set_service_id source.service_id (merge_field set_seq source.seq m))) in
    record fields { unknown_fields = m.unknown_fields ++ source.unknown_fields }

-- `CopyFrom`, from another object. The copy constructor merges into new metadata as well.
unfoldable pub copy_from : Meta → Meta → Meta
unfolding merge_from
copy_from m source = merge_from empty_meta source

field_written :
    (write : ℕ → List ℕ) (size : ℕ → ℕ) (field : Option ℕ)
    → ((value : ℕ) → length (write value) ≡ 1 + size value)
    → length (field_bytes write field) ≡ field_size size field
field_written write size none h = refl
field_written write size (some value) h = h value

-- `ByteSize` is the number of bytes that the serialisation writes, whichever fields are set.
pub length-serialize :
    (w : WireFormat) (m : Meta) → IsWireFormat w → length (serialize w m) ≡ byte_size_of w m
unfolding serialize byte_size_of
length-serialize w m law =
    let a = field_bytes (w.write_uint64 1) m.seq in
    let b = field_bytes (w.write_int32 2) m.service_id in
    let c = field_bytes (w.write_int32 3) m.method_id in
    let d = field_bytes (w.write_uint32 4) m.message_length in
    omega (
      arith,
      length-append a (b ++ (c ++ (d ++ m.unknown_fields))),
      length-append b (c ++ (d ++ m.unknown_fields)),
      length-append c (d ++ m.unknown_fields),
      length-append d m.unknown_fields,
      field_written (w.write_uint64 1) w.uint64_size m.seq
          (λ v. law.uint64_written 1 v (omega arith)),
      field_written (w.write_int32 2) w.int32_size m.service_id
          (λ v. law.int32_written 2 v (omega arith)),
      field_written (w.write_int32 3) w.int32_size m.method_id
          (λ v. law.int32_written 3 v (omega arith)),
      field_written (w.write_uint32 4) w.uint32_size m.message_length
          (λ v. law.uint32_written 4 v (omega arith)),
    )

copied :
    (a b c d : Option ℕ) (u : List ℕ) (m : Meta)
    → copy_from m
        (record { seq = a; service_id = b; method_id = c; message_length = d; unknown_fields = u })
      ≡ record { seq = a; service_id = b; method_id = c; message_length = d; unknown_fields = u }
unfolding copy_from merge_from
copied a b c d u m = ground arith

-- `CopyFrom` makes the metadata those of the source, whatever they were before: which fields are set,
-- their values, and the unknown fields.
pub copy_from_lem : (m source : Meta) → copy_from m source ≡ source
copy_from_lem m source =
    copied source.seq source.service_id source.method_id source.message_length source.unknown_fields
      m
