-- ===== src/Examples/Copying.antt =====
-- Metadata over a wire format in which each value is one byte.
use gboost_rpc.Base.{List, ◌*◌, ◌≡◌, refl, [], ◌∷◌, length}
use gboost_rpc.Protocol.{empty_meta}
use gboost_rpc.Protocol.Wire.{WireFormat, IsWireFormat, byte_size_of, serialize, length-serialize}
use gboost_rpc.Protocol.Message.{new_message}
use gboost_rpc.Protocol.Message.Refine.{
  MethodCall, sets_seq, sets_service_id, sets_method_id, clears_seq, copies, merges, swaps, sizes,
  Agrees, all_calls, call_method_of, call_of_value, new_messages-Agrees,
}
use gboost_rpc.Examples.Codec.{meta_of}

abbrev pub bytewise : WireFormat
bytewise = record {
  write_uint64 = λ number value. number * 8 ∷ value ∷ [];
  write_int32 = λ number value. number * 8 ∷ value ∷ [];
  write_uint32 = λ number value. number * 8 ∷ value ∷ [];
  uint64_size = λ value. 1;
  int32_size = λ value. 1;
  uint32_size = λ value. 1;
}

pub bytewise-IsWireFormat : IsWireFormat bytewise
bytewise-IsWireFormat = record {
  uint64_written = λ number value small. refl;
  int32_written = λ number value small. refl;
  uint32_written = λ number value small. refl;
}

length-serialize_example :
    length (serialize bytewise (meta_of 3 4 1 2 (40 ∷ 7 ∷ [])))
    ≡ byte_size_of bytewise (meta_of 3 4 1 2 (40 ∷ 7 ∷ []))
length-serialize_example =
    length-serialize bytewise (meta_of 3 4 1 2 (40 ∷ 7 ∷ [])) bytewise-IsWireFormat

-- Two objects: fields are set, one is copied, merged and swapped, and a field is cleared.
abbrev object_calls : List MethodCall
object_calls =
    sets_seq 0 7
    ∷ sets_service_id 0 9
    ∷ copies 1 0
    ∷ sets_method_id 1 2
    ∷ clears_seq 1
    ∷ merges 0 1
    ∷ swaps 0 1
    ∷ sizes 1
    ∷ []

new_messages-Agrees_example :
    Agrees bytewise
      (all_calls (call_method_of bytewise) object_calls (λ a. new_message))
      (all_calls call_of_value object_calls (λ a. empty_meta))
new_messages-Agrees_example = new_messages-Agrees bytewise object_calls
