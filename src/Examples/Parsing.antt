-- ===== src/Examples/Parsing.antt =====
-- A runtime that reads what the small runtime of Examples/Copying writes: a tag and a value.
use gboost_rpc.Base.{
  ℕ, ◌/◌, ◌%◌, ◌*◌, ◌≡◌, ◌≢◌, ◌==◌, if◌then◌else◌, leb, refl, sym, ap, ◌≤◌, ◌<◌, ◌^◌, ◌++◌, ltb,
  stuck, Bool, true, false, Option, none, some, List, [], ◌∷◌, length, ok, fatal, arith, Outcome,
}
use gboost_rpc.Protocol.{Meta, empty_meta, is_initialized, Protobuf, IsProtobuf}
use gboost_rpc.Protocol.Runtime.{IsMessageLite, message_lite-IsProtobuf}
use gboost_rpc.Protocol.Wire.{serialize, merge_from, byte_size_of}
use gboost_rpc.Examples.Codec.{meta_of}
use gboost_rpc.Examples.Copying.{bytewise, bytewise-IsWireFormat}
use gboost_rpc.Protocol.Parse.{
  parse_round, parse_loop, parse_service_id, switch_field, handle_unusual, CodedInput, IsCodedInput,
  ReadsBack, ReadsTypes, merge_partial,
}
use gboost_rpc.Protocol.Parse.Ends.{merge_partial_total}
use gboost_rpc.Protocol.Parse.Unknown.{IsUnknown, nothing, kept_field}
use gboost_rpc.Protocol.Parse.Types.{IsTyped}
use gboost_rpc.Protocol.Parse.Typed.{merge_partial-IsTyped}
use gboost_rpc.Protocol.Parse.Merges.{merge_partial-serialize}

abbrev take_tag : List ℕ → ℕ × Bool × List ℕ
take_tag [] = (0, false, [])
take_tag (t ∷ rest) = (t, leb t 127, rest)

abbrev take_expected : ℕ → List ℕ → Option (List ℕ)
take_expected tag [] = none
take_expected tag (t ∷ rest) = if t == tag then some rest else none

abbrev is_over : List ℕ → Bool
is_over [] = true
is_over (t ∷ rest) = false

abbrev take_value : ℕ → List ℕ → Option (ℕ × List ℕ)
take_value bound [] = none
take_value bound (v ∷ rest) = if ltb v bound then some (v, rest) else none

abbrev take_field : ℕ → List ℕ → Option (List ℕ × List ℕ)
take_field tag [] = none
take_field tag (v ∷ rest) = some (tag ∷ v ∷ [], rest)

abbrev plain_input : CodedInput
plain_input = record {
  read_tag = take_tag;
  expect_tag = take_expected;
  expect_at_end = is_over;
  read_uint64 = take_value (2 ^ 64);
  read_int32 = take_value (2 ^ 32);
  read_uint32 = take_value (2 ^ 32);
  skip_field = take_field;
  field_number = λ tag. tag / 8;
  wire_type = λ tag. tag % 8;
}

take_value_taken :
    (bound : ℕ) (bytes rest : List ℕ) (v : ℕ)
    → take_value bound bytes ≡ some (v, rest)
    → length rest ≤ length bytes
take_value_taken bound [] rest v e = absurd cc
take_value_taken bound (b ∷ bytes) rest v e = ground (arith, e)

take_value_fits :
    (bound : ℕ) (bytes rest : List ℕ) (v : ℕ) → take_value bound bytes ≡ some (v, rest) → v < bound
take_value_fits bound [] rest v e = absurd cc
take_value_fits bound (b ∷ bytes) rest v e = ground (arith, e)

take_value_back :
    (bound v : ℕ) (rest : List ℕ) → v < bound → take_value bound (v ∷ rest) ≡ some (v, rest)
take_value_back bound v rest small = ground (arith, small)

take_field_back :
    (bytes body field rest : List ℕ) (tag : ℕ) (known : Bool)
    → take_tag bytes ≡ (tag, known, body)
    → tag ≢ 0
    → take_field tag body ≡ some (field, rest)
    → (after : List ℕ)
    → (again : List ℕ) × (take_tag (field ++ after) ≡ (tag, known, again))
      × (take_field tag again ≡ some (field, after))
take_field_back [] body kept rest tag known e some_tag f after =
    absurd (some_tag (ap (λ (p : ℕ × Bool × List ℕ). p.0) (sym e)))
take_field_back (t ∷ bytes) [] kept rest tag known e some_tag f after = absurd cc
take_field_back (t ∷ bytes) (v ∷ body) kept rest tag known e some_tag f after =
    (v ∷ after, ground (arith, e, f), ground (arith, e, f))

take_tag_taken :
    (bytes : List ℕ) → (take_tag bytes).0 ≢ 0 → length (take_tag bytes).2 < length bytes
take_tag_taken [] some_tag = absurd (some_tag refl)
take_tag_taken (t ∷ rest) some_tag = omega arith

take_expected_taken :
    (tag : ℕ) (bytes rest : List ℕ)
    → take_expected tag bytes ≡ some rest
    → length rest ≤ length bytes
take_expected_taken tag [] rest e = absurd cc
take_expected_taken tag (t ∷ bytes) rest e = ground (arith, e)

take_field_taken :
    (tag : ℕ) (bytes rest field : List ℕ)
    → take_field tag bytes ≡ some (field, rest)
    → length rest ≤ length bytes
take_field_taken tag [] rest field e = absurd cc
take_field_taken tag (v ∷ bytes) rest field e = ground (arith, e)

plain_input-IsCodedInput : IsCodedInput plain_input
plain_input-IsCodedInput = record {
  tag_taken = take_tag_taken;
  expected_taken = take_expected_taken;
  uint64_taken = take_value_taken (2 ^ 64);
  int32_taken = take_value_taken (2 ^ 32);
  uint32_taken = take_value_taken (2 ^ 32);
  field_taken = take_field_taken;
}

is_over_end : (bytes : List ℕ) → is_over bytes ≡ true → bytes ≡ []
is_over_end [] e = refl
is_over_end (b ∷ bytes) e = absurd cc

take_expected_next :
    (tag : ℕ) (bytes rest : List ℕ)
    → tag ≤ 127
    → take_expected tag bytes ≡ some rest
    → take_tag bytes ≡ (tag, true, rest)
take_expected_next tag [] rest small e = absurd cc
take_expected_next tag (t ∷ bytes) rest small e = ground (arith, e)

below_cutoff : (number : ℕ) → number < 16 → leb (number * 8) 127 ≡ true
below_cutoff number small = ground arith

plain_input-ReadsBack : ReadsBack bytewise plain_input
plain_input-ReadsBack = record {
  number_of = λ tag. refl;
  type_of = λ tag. refl;
  at_end = is_over_end;
  end_tag = refl;
  expected = take_expected_next;
  uint64_back = λ number v rest pos small fits. (
    v ∷ rest,
    ap (λ b. (number * 8, b, v ∷ rest)) (below_cutoff number small),
    take_value_back (2 ^ 64) v rest fits,
  );
  int32_back = λ number v rest pos small fits. (
    v ∷ rest,
    ap (λ b. (number * 8, b, v ∷ rest)) (below_cutoff number small),
    take_value_back (2 ^ 32) v rest fits,
  );
  uint32_back = λ number v rest pos small fits. (
    v ∷ rest,
    ap (λ b. (number * 8, b, v ∷ rest)) (below_cutoff number small),
    take_value_back (2 ^ 32) v rest fits,
  );
}

plain_input-ReadsTypes : ReadsTypes plain_input
plain_input-ReadsTypes = record {
  uint64_fits = take_value_fits (2 ^ 64);
  int32_fits = take_value_fits (2 ^ 32);
  uint32_fits = take_value_fits (2 ^ 32);
  field_back = take_field_back;
}

abbrev source : Meta
source = record empty_meta { seq = some 9; method_id = some 2; unknown_fields = 40 ∷ 7 ∷ [] }

bytes_40-IsUnknown : IsUnknown plain_input (40 ∷ 7 ∷ [])
unfolding parse_round switch_field handle_unusual
bytes_40-IsUnknown = kept_field (40 ∷ 7 ∷ []) (λ m after. refl) nothing

source-IsTyped : IsTyped plain_input source
source-IsTyped = record {
  in_range = record {
    seq_fits = λ v e. ground (arith, e);
    service_id_fits = λ v e. absurd cc;
    method_id_fits = λ v e. ground (arith, e);
    message_length_fits = λ v e. absurd cc;
  };
  unknown = bytes_40-IsUnknown;
}

merge_partial-IsTyped_example :
    IsTyped plain_input
      (record source { service_id = some 3; unknown_fields = 40 ∷ 7 ∷ 48 ∷ 1 ∷ [] })
unfolding merge_partial parse_loop parse_round switch_field handle_unusual parse_service_id
merge_partial-IsTyped_example =
    merge_partial-IsTyped plain_input-ReadsTypes plain_input-ReadsBack source
      (record source { service_id = some 3; unknown_fields = 40 ∷ 7 ∷ 48 ∷ 1 ∷ [] })
      (16 ∷ 3 ∷ 48 ∷ 1 ∷ []) source-IsTyped refl

merge_partial-serialize_example :
    merge_partial plain_input (meta_of 3 4 1 2 []) (serialize bytewise source)
    ≡ ok (some (merge_from (meta_of 3 4 1 2 []) source))
merge_partial-serialize_example =
    merge_partial-serialize plain_input-IsCodedInput plain_input-ReadsBack (meta_of 3 4 1 2 [])
      source source-IsTyped

merge_partial_total_example :
    (r : Option Meta) × (merge_partial plain_input empty_meta (40 ∷ 7 ∷ 8 ∷ 5 ∷ 24 ∷ []) ≡ ok r)
merge_partial_total_example =
    merge_partial_total plain_input-IsCodedInput empty_meta (40 ∷ 7 ∷ 8 ∷ 5 ∷ 24 ∷ [])

-- The runtime over that input: `ParseFromArray` reads with the class, and asks for the required fields.
abbrev initialized_only : Outcome (Option Meta) → Option Meta
initialized_only (ok (some m)) = if is_initialized m then some m else none
initialized_only o = none

abbrev plain_runtime : Protobuf (List ℕ)
plain_runtime = record {
  meta_byte_size = byte_size_of bytewise;
  meta_to_array =
      λ m size. if leb (byte_size_of bytewise m) size then some (serialize bytewise m) else none;
  meta_from_array = λ bytes. initialized_only (merge_partial plain_input empty_meta bytes);
  byte_size = λ x. length x;
  to_array = λ x size. some x;
  from_array = λ bytes. some bytes;
}

initialized_only-some :
    (o : Outcome (Option Meta)) (m : Meta)
    → initialized_only o ≡ some m
    → (o ≡ ok (some m)) × (is_initialized m ≡ true)
initialized_only-some (ok (some p)) m e = (ground (arith, e), ground (arith, e))
initialized_only-some (ok none) m e = absurd cc
initialized_only-some fatal m e = absurd cc
initialized_only-some stuck m e = absurd cc

plain_runtime-IsMessageLite : IsMessageLite bytewise plain_input plain_runtime
plain_runtime-IsMessageLite = record {
  sized = λ m. refl;
  written = λ m size i fits. ground (arith, fits);
  reads = λ bytes m. initialized_only-some (merge_partial plain_input empty_meta bytes) m;
  read = λ bytes m e i s. ground (arith, e, i);
}

message_lite-IsProtobuf_example : IsProtobuf plain_runtime
message_lite-IsProtobuf_example =
    message_lite-IsProtobuf plain_runtime-IsMessageLite bytewise-IsWireFormat
      plain_input-IsCodedInput plain_input-ReadsBack plain_input-ReadsTypes
      (λ x. (x, refl, refl, refl))
