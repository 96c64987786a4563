-- ===== src/Protocol/Message.antt =====
-- The class RPCMetaData as rpc/detail/protocol/rpc.pb.h and rpc.pb.cc write it: the members, the bits
-- of `_has_bits_[0]`, and the methods that read and change them. Objects are named by addresses.
pub mod Bits
pub mod Represents
pub mod Merge
pub mod Refine
use Prim.Native.Nat.{bit_and, bit_or}
use gboost_rpc.Base.{
  ℕ, ◌+◌, ◌-◌, ◌^◌, ◌==◌, if◌then◌else◌, Bool, true, false, not, List, [], ◌++◌, length, Outcome,
  ok, ◌>>=◌, ◌>>◌, check,
}
use gboost_rpc.Protocol.Wire.{WireFormat}

-- The unknown fields are what they are written back as, as in `Meta`.
pub record Message : Type 0 where
  pub has_bits : ℕ
  pub cached_size : ℕ
  pub seq_ : ℕ
  pub service_id_ : ℕ
  pub method_id_ : ℕ
  pub message_length_ : ℕ
  pub unknown : List ℕ

-- A mask, of the 32 bits: `bits & mask` is not 0, `bits | mask` and `bits & ~mask`.
abbrev pub has_bit : ℕ → ℕ → Bool
has_bit mask bits = not (bit_and bits mask == 0)

abbrev pub set_bit : ℕ → ℕ → ℕ
set_bit mask bits = bit_or bits mask

abbrev pub clear_bit : ℕ → ℕ → ℕ
clear_bit mask bits = bit_and bits (2 ^ 32 - 1 - mask)

-- `SharedCtor`, after the constructor of the unknown fields.
abbrev pub new_message : Message
new_message = record {
  has_bits = 0;
  cached_size = 0;
  seq_ = 0;
  service_id_ = 0;
  method_id_ = 0;
  message_length_ = 0;
  unknown = [];
}

abbrev pub has_seq : Message → Bool
has_seq x = has_bit 1 x.has_bits

abbrev pub has_service_id : Message → Bool
has_service_id x = has_bit 2 x.has_bits

abbrev pub has_method_id : Message → Bool
has_method_id x = has_bit 4 x.has_bits

abbrev pub has_message_length : Message → Bool
has_message_length x = has_bit 8 x.has_bits

-- `set_seq` and the like.
abbrev pub put_seq : ℕ → Message → Message
put_seq value x = record x { has_bits = set_bit 1 x.has_bits; seq_ = value }

abbrev pub put_service_id : ℕ → Message → Message
put_service_id value x = record x { has_bits = set_bit 2 x.has_bits; service_id_ = value }

abbrev pub put_method_id : ℕ → Message → Message
put_method_id value x = record x { has_bits = set_bit 4 x.has_bits; method_id_ = value }

abbrev pub put_message_length : ℕ → Message → Message
put_message_length value x = record x { has_bits = set_bit 8 x.has_bits; message_length_ = value }

abbrev pub clear_seq : Message → Message
clear_seq x = record x { has_bits = clear_bit 1 x.has_bits; seq_ = 0 }

abbrev pub clear_service_id : Message → Message
clear_service_id x = record x { has_bits = clear_bit 2 x.has_bits; service_id_ = 0 }

abbrev pub clear_method_id : Message → Message
clear_method_id x = record x { has_bits = clear_bit 4 x.has_bits; method_id_ = 0 }

abbrev pub clear_message_length : Message → Message
clear_message_length x = record x { has_bits = clear_bit 8 x.has_bits; message_length_ = 0 }

-- `Clear`. The members from `seq_` to `message_length_` stand next to each other.
abbrev pub clear_message : Message → Message
clear_message x = record {
  has_bits = 0;
  cached_size = x.cached_size;
  seq_ = 0;
  service_id_ = 0;
  method_id_ = 0;
  message_length_ = 0;
  unknown = [];
}

-- `IsInitialized`
unfoldable pub message_is_initialized : Message → Bool
message_is_initialized x = bit_and x.has_bits 15 == 15

abbrev pub when : {A : Type 0} → Bool → (A → A) → A → A
when b f a = if b then f a else a

-- `MergeFrom`, of another object.
unfoldable pub merge : Message → Message → Message
merge from x =
    let fields : Message =
      when (has_bit 255 from.has_bits)
        (λ y. when (has_message_length from) (put_message_length from.message_length_) (
          when (has_method_id from) (put_method_id from.method_id_) (
            when (has_service_id from) (put_service_id from.service_id_)
              (when (has_seq from) (put_seq from.seq_) y))))
        x in
    record fields { unknown = fields.unknown ++ from.unknown }

-- `ByteSize`, with the size that it keeps.
unfoldable pub byte_size_with : WireFormat → Message → ℕ
byte_size_with w x =
    (if has_bit 255 x.has_bits
      then (if has_seq x then 1 + w.uint64_size x.seq_ else 0)
        + (if has_service_id x then 1 + w.int32_size x.service_id_ else 0)
        + (if has_method_id x then 1 + w.int32_size x.method_id_ else 0)
        + (if has_message_length x then 1 + w.uint32_size x.message_length_ else 0)
      else 0)
    + length x.unknown

abbrev pub byte_size : WireFormat → Message → Message
byte_size w x = record x { cached_size = byte_size_with w x }

-- `SerializeWithCachedSizes` and `SerializeWithCachedSizesToArray`
unfoldable pub serialize_with : WireFormat → Message → List ℕ
serialize_with w x =
    (if has_seq x then w.write_uint64 1 x.seq_ else [])
    ++ ((if has_service_id x then w.write_int32 2 x.service_id_ else [])
        ++ ((if has_method_id x then w.write_int32 3 x.method_id_ else [])
            ++ ((if has_message_length x then w.write_uint32 4 x.message_length_ else [])
                ++ x.unknown)))

abbrev pub Messages : Type 0
Messages = ℕ → Message

abbrev pub assign : {A : Type 0} → ℕ → A → (ℕ → A) → ℕ → A
assign a x s = λ b. if b == a then x else s b

-- `MergeFrom`, with its GOOGLE_CHECK_NE.
unfoldable pub merge_at : ℕ → ℕ → Messages → Outcome Messages
unfolding merge
merge_at this from s = check (not (from == this)) >> ok (assign this (merge (s from) (s this)) s)

-- `CopyFrom`
unfoldable pub copy_at : ℕ → ℕ → Messages → Outcome Messages
unfolding merge_at
copy_at this from s =
    if from == this then ok s else merge_at this from (assign this (clear_message (s this)) s)

-- `Swap`
unfoldable pub swap_at : ℕ → ℕ → Messages → Messages
swap_at this other s = if other == this then s else assign other (s this) (assign this (s other) s)
