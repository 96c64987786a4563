-- ===== src/Examples/Codec.antt =====
-- A codec that keeps the laws of the protobuf runtime: a message of a service is a list of bytes,
-- and metadata are their four fields, followed by the unknown ones.
use gboost_rpc.Base.{
  ltb, ◌&&◌, ◌^◌, ◌<◌, if◌then◌else◌, inl, ℕ, ◌≡◌, ◌≢◌, refl, true, Option, none, some, List, [],
  ◌∷◌, length, arith,
}
use gboost_rpc.Protocol.{Meta, is_initialized, Protobuf, IsProtobuf, IsInRange, IsWritable}
use gboost_rpc.RpcData.{new_data, append_binaries}
use gboost_rpc.RpcData.Bytes.{from_big_endian}
use gboost_rpc.RpcChannel.Limits.{Took, append_binaries-Took}

abbrev numbers : (seq service_id method_id message_length : Option ℕ) → List ℕ → List ℕ
numbers (some a) (some b) (some c) (some d) u = a ∷ b ∷ c ∷ d ∷ u
numbers a b c d u = []

abbrev meta_bytes : Meta → List ℕ
meta_bytes m = numbers m.seq m.service_id m.method_id m.message_length m.unknown_fields

abbrev pub meta_of : (seq service_id method_id message_length : ℕ) → List ℕ → Meta
meta_of a b c d u = record {
  seq = some a;
  service_id = some b;
  method_id = some c;
  message_length = some d;
  unknown_fields = u;
}

abbrev read_meta : List ℕ → Option Meta
read_meta (a ∷ b ∷ c ∷ d ∷ u) =
    if ltb a (2 ^ 64) && (ltb b (2 ^ 32) && (ltb c (2 ^ 32) && ltb d (2 ^ 32)))
    then some (meta_of a b c d u)
    else none
read_meta bytes = none

abbrev pub codec : Protobuf (List ℕ)
codec = record {
  meta_byte_size = λ m. length (meta_bytes m);
  meta_to_array = λ m size. some (meta_bytes m);
  meta_from_array = read_meta;
  byte_size = λ x. length x;
  to_array = λ x size. some x;
  from_array = λ bytes. some bytes;
}

read_meta_size : (bytes : List ℕ) (m : Meta) → read_meta bytes ≡ some m → length (meta_bytes m) ≢ 0
read_meta_size [] m e = absurd cc
read_meta_size (a ∷ []) m e = absurd cc
read_meta_size (a ∷ b ∷ []) m e = absurd cc
read_meta_size (a ∷ b ∷ c ∷ []) m e = absurd cc
read_meta_size (a ∷ b ∷ c ∷ d ∷ u) m e = ground (arith, e)

read_meta_fields :
    (bytes : List ℕ) (m : Meta) → read_meta bytes ≡ some m → (is_initialized m ≡ true) × IsInRange m
read_meta_fields [] m e = absurd cc
read_meta_fields (a ∷ []) m e = absurd cc
read_meta_fields (a ∷ b ∷ []) m e = absurd cc
read_meta_fields (a ∷ b ∷ c ∷ []) m e = absurd cc
read_meta_fields (a ∷ b ∷ c ∷ d ∷ u) m e = (
  ground (arith, e),
  record {
    seq_fits = λ v q. ground (arith, e, q);
    service_id_fits = λ v q. ground (arith, e, q);
    method_id_fits = λ v q. ground (arith, e, q);
    message_length_fits = λ v q. ground (arith, e, q);
  },
)

abbrev meta_with : (seq service_id method_id message_length : Option ℕ) → List ℕ → Meta
meta_with a b c d u = record {
  seq = a;
  service_id = b;
  method_id = c;
  message_length = d;
  unknown_fields = u;
}

read_meta_round_trip :
    (a b c d : Option ℕ) (u : List ℕ)
    → is_initialized (meta_with a b c d u) ≡ true
    → IsInRange (meta_with a b c d u)
    → read_meta (numbers a b c d u) ≡ some (meta_with a b c d u)
read_meta_round_trip (some a) (some b) (some c) (some d) u h r = ground (
  arith,
  r.seq_fits a refl,
  r.service_id_fits b refl,
  r.method_id_fits c refl,
  r.message_length_fits d refl,
)
read_meta_round_trip none b c d u h r = absurd cc
read_meta_round_trip (some a) none c d u h r = absurd cc
read_meta_round_trip (some a) (some b) none d u h r = absurd cc
read_meta_round_trip (some a) (some b) (some c) none u h r = absurd cc

pub codec-IsProtobuf : IsProtobuf codec
codec-IsProtobuf = record {
  empty_size = refl;
  parsed_size = read_meta_size;
  parsed_fields = read_meta_fields;
  meta_round_trip = λ m i v. (
    meta_bytes m,
    refl,
    refl,
    read_meta_round_trip m.seq m.service_id m.method_id m.message_length m.unknown_fields i
        v.in_range,
  );
  round_trip = λ x. (x, refl, refl, refl);
}

-- Metadata of numbers in range, and no unknown fields.
pub meta_of-IsWritable :
    (a b c d : ℕ)
    → a < 2 ^ 64
    → b < 2 ^ 32
    → c < 2 ^ 32
    → d < 2 ^ 32
    → IsWritable codec (meta_of a b c d [])
meta_of-IsWritable a b c d p q r s = record {
  in_range = record {
    seq_fits = λ v e. ground (arith, p, e);
    service_id_fits = λ v e. ground (arith, q, e);
    method_id_fits = λ v e. ground (arith, r, e);
    message_length_fits = λ v e. ground (arith, s, e);
  };
  unknown = inl refl;
}

append_binaries-Took_example :
    Took codec 9 9
      (record new_data { meta = meta_of 1 2 3 3 []; meta_size = 4; payload_binaries = 7 ∷ [] })
unfolding append_binaries from_big_endian
append_binaries-Took_example =
    append_binaries-Took codec-IsProtobuf new_data
      (record new_data { meta = meta_of 1 2 3 3 []; meta_size = 4; payload_binaries = 7 ∷ [] })
      (0 ∷ 0 ∷ 0 ∷ 4 ∷ 1 ∷ 2 ∷ 3 ∷ 3 ∷ 7 ∷ []) 9 (λ e. refl) (omega arith) refl
