-- ===== src/Protocol.antt =====
-- rpc/detail/protocol/rpc.proto and the class RPCMetaData that is generated from it, and what the
-- library asks of the protobuf runtime.
pub mod Wire
pub mod Parse
pub mod Runtime
pub mod Message
use gboost_rpc.Base.{
  ℕ, ◌≡◌, ◌≢◌, ◌⊎◌, Bool, true, false, ◌&&◌, Option, none, some, List, [], length, ◌<◌, ◌^◌,
}

-- A field that is unset reads as 0. An int32 is its bit pattern, below 2 ^ 32.
-- `unknown_fields` is what the unknown fields of a parsed message are written back as.
pub record Meta : Type 0 where
  pub seq : Option ℕ
  pub service_id : Option ℕ
  pub method_id : Option ℕ
  pub message_length : Option ℕ
  pub unknown_fields : List ℕ

-- A new RPCMetaData, and one after `Clear`.
abbrev pub empty_meta : Meta
empty_meta = record {
  seq = none;
  service_id = none;
  method_id = none;
  message_length = none;
  unknown_fields = [];
}

abbrev or_zero : Option ℕ → ℕ
or_zero none = 0
or_zero (some n) = n

abbrev pub get_seq : Meta → ℕ
get_seq m = or_zero m.seq

abbrev pub get_service_id : Meta → ℕ
get_service_id m = or_zero m.service_id

abbrev pub get_method_id : Meta → ℕ
get_method_id m = or_zero m.method_id

abbrev pub get_message_length : Meta → ℕ
get_message_length m = or_zero m.message_length

abbrev has : Option ℕ → Bool
has none = false
has (some n) = true

-- The four required fields are set.
abbrev pub is_initialized : Meta → Bool
is_initialized m = has m.seq && (has m.service_id && (has m.method_id && has m.message_length))

-- The fields that are set have values of their types.
pub record IsInRange (m : Meta) : Type 0 where
  pub seq_fits : (v : ℕ) → m.seq ≡ some v → v < 2 ^ 64
  pub service_id_fits : (v : ℕ) → m.service_id ≡ some v → v < 2 ^ 32
  pub method_id_fits : (v : ℕ) → m.method_id ≡ some v → v < 2 ^ 32
  pub message_length_fits : (v : ℕ) → m.message_length ≡ some v → v < 2 ^ 32

-- The calls that the library makes into the protobuf runtime: `ByteSize`, `SerializeToArray` into
-- an array of a given size, and `ParseFromArray`, of an RPCMetaData and of a message of a service.
pub record Protobuf (M : Type 0) : Type 0 where
  pub meta_byte_size : Meta → ℕ
  pub meta_to_array : Meta → ℕ → Option (List ℕ)
  pub meta_from_array : List ℕ → Option Meta
  pub byte_size : M → ℕ
  pub to_array : M → ℕ → Option (List ℕ)
  pub from_array : List ℕ → Option M

-- Metadata that can be written and read back: the fields are in range, and there are no unknown
-- fields but those that a parse left.
pub record IsWritable {M : Type 0} (pb : Protobuf M) (m : Meta) : Type 0 where
  pub in_range : IsInRange m
  pub unknown :
      (m.unknown_fields ≡ [])
      ⊎ ((bytes : List ℕ) × (p : Meta) × (pb.meta_from_array bytes ≡ some p)
          × (p.unknown_fields ≡ m.unknown_fields))

-- What the runtime documents. Metadata that parse have their required fields, in range.
pub record IsProtobuf {M : Type 0} (pb : Protobuf M) : Type 0 where
  pub empty_size : pb.meta_byte_size empty_meta ≡ 0
  pub parsed_size :
      (bytes : List ℕ) (m : Meta) → pb.meta_from_array bytes ≡ some m → pb.meta_byte_size m ≢ 0
  pub parsed_fields :
      (bytes : List ℕ) (m : Meta)
      → pb.meta_from_array bytes ≡ some m
      → (is_initialized m ≡ true) × IsInRange m
  pub meta_round_trip :
      (m : Meta)
      → is_initialized m ≡ true
      → IsWritable pb m
      → (bytes : List ℕ) × (pb.meta_to_array m (pb.meta_byte_size m) ≡ some bytes)
        × (length bytes ≡ pb.meta_byte_size m)
        × (pb.meta_from_array bytes ≡ some m)
  pub round_trip :
      (x : M)
      → (bytes : List ℕ) × (pb.to_array x (pb.byte_size x) ≡ some bytes)
        × (length bytes ≡ pb.byte_size x)
        × (pb.from_array bytes ≡ some x)
