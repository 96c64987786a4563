-- ===== src/Protocol/Message/Merge.antt =====
-- MergeFrom of an RPCMetaData (rpc/detail/protocol/rpc.pb.cc), and what is read of the members.
use gboost_rpc.Base.{
  ℕ, ◌+◌, ◌≡◌, refl, sym, ap, subst, ◌∙◌, if◌then◌else◌, Bool, Bool-cases, inl, inr, true, false,
  Option, none, some, List, [], ◌++◌, length, arith,
}
use gboost_rpc.Protocol.{
  Meta, is_initialized, get_seq, get_service_id, get_method_id, get_message_length,
}
use gboost_rpc.Protocol.Wire.{
  WireFormat, set_seq, set_service_id, set_method_id, set_message_length, merge_field, merge_from,
  field_bytes, field_size, serialize, byte_size_of,
}
use gboost_rpc.Protocol.Message.{
  Message, has_bit, has_seq, has_service_id, has_method_id, has_message_length, put_seq,
  put_service_id, put_method_id, put_message_length, when, merge, message_is_initialized,
  byte_size_with, serialize_with,
}
use gboost_rpc.Protocol.Message.Bits.{four_bits, eight_bits}
use gboost_rpc.Protocol.Message.Represents.{
  IsField, Represents, put_seq-Represents, put_service_id-Represents, put_method_id-Represents,
  put_message_length-Represents,
}

when_put-Represents :
    (bit : Bool) (v : ℕ) (field : Option ℕ) (put : ℕ → Message → Message) (set : Meta → ℕ → Meta)
    → IsField bit v field
    → ((x : Message) (m : Meta) → Represents x m → (v : ℕ) → Represents (put v x) (set m v))
    → (x : Message) (m : Meta) → Represents x m
    → Represents (when bit (put v) x) (merge_field set field m)
when_put-Represents true v field put set f next x m r =
    subst (λ o. Represents (put v x) (merge_field set o m)) (sym f.shown) (next x m r v)
when_put-Represents false v field put set f next x m r =
    subst (λ o. Represents x (merge_field set o m)) (sym f.shown) r

module _ (from : Message) (source : Meta) (q : Represents from source) where
  abbrev fields_into : Message → Message
  fields_into x = when (has_message_length from) (put_message_length from.message_length_) (
      when (has_method_id from) (put_method_id from.method_id_) (
        when (has_service_id from) (put_service_id from.service_id_)
          (when (has_seq from) (put_seq from.seq_) x)))

  guarded : (x : Message) → when (has_bit 255 from.has_bits) fields_into x ≡ fields_into x
  guarded x = elim (Bool-cases (has_bit 255 from.has_bits)) [
    | inl some_bit ↦ rw some_bit refl
    | inr no_bit ↦ ground (arith, no_bit, eight_bits from.has_bits q.small)
  ]

  fields_into-Represents :
      (x : Message) (m : Meta)
      → Represents x m
      → Represents (fields_into x) (
          merge_field set_message_length source.message_length (
            merge_field set_method_id source.method_id
              (merge_field set_service_id source.service_id (merge_field set_seq source.seq m))))
  fields_into-Represents x m r =
      when_put-Represents _ _ _ put_message_length set_message_length q.message_length_held
        put_message_length-Represents _ _
        (when_put-Represents _ _ _ put_method_id set_method_id q.method_id_held
          put_method_id-Represents _ _
          (when_put-Represents _ _ _ put_service_id set_service_id q.service_id_held
            put_service_id-Represents _ _
            (when_put-Represents _ _ _ put_seq set_seq q.seq_held put_seq-Represents x m r)))

  fields_of_unknown :
      (a b c d : Option ℕ) (m : Meta)
      → (merge_field set_message_length d (
          merge_field set_method_id c
            (merge_field set_service_id b (merge_field set_seq a m)))).unknown_fields
        ≡ m.unknown_fields
  fields_of_unknown a b c d m = ground arith

  pub merge-Represents :
      (x : Message) (m : Meta) → Represents x m → Represents (merge from x) (merge_from m source)
  unfolding merge merge_from
  merge-Represents x m r =
      let f = fields_into-Represents x m r in
      let known =
        fields_of_unknown source.seq source.service_id source.method_id source.message_length m in
      subst
        (λ (y : Message).
          Represents (record y { unknown = y.unknown ++ from.unknown }) (merge_from m source))
        (sym (guarded x))
        (record {
          small = f.small;
          seq_held = f.seq_held;
          service_id_held = f.service_id_held;
          method_id_held = f.method_id_held;
          message_length_held = f.message_length_held;
          unknown_held =
              ap (λ u. u ++ source.unknown_fields) (sym known ∙ f.unknown_held)
              ∙ ap (λ u. (fields_into x).unknown ++ u) q.unknown_held;
        })

-- What the methods read of an object is what the fields say.
pub record Observed (w : WireFormat) (x : Message) (m : Meta) : Type 0 where
  pub seq_read : x.seq_ ≡ get_seq m
  pub service_id_read : x.service_id_ ≡ get_service_id m
  pub method_id_read : x.method_id_ ≡ get_method_id m
  pub message_length_read : x.message_length_ ≡ get_message_length m
  pub unknown_read : x.unknown ≡ m.unknown_fields
  pub initialized_read : message_is_initialized x ≡ is_initialized m
  pub size_read : byte_size_with w x ≡ byte_size_of w m
  pub bytes_read : serialize_with w x ≡ serialize w m

abbrev read_field : Option ℕ → ℕ
read_field none = 0
read_field (some v) = v

field_read : (bit : Bool) (v : ℕ) (field : Option ℕ) → IsField bit v field → v ≡ read_field field
field_read true v field f = ground (arith, f.shown)
field_read false v field f = ground (arith, f.shown, f.else_zero refl)

bytes_as :
    (bit : Bool) (v : ℕ) (field : Option ℕ) (write : ℕ → List ℕ)
    → IsField bit v field
    → (if bit then write v else []) ≡ field_bytes write field
bytes_as true v field write f = ap (field_bytes write) (sym f.shown)
bytes_as false v field write f = ap (field_bytes write) (sym f.shown)

size_as :
    (bit : Bool) (v : ℕ) (field : Option ℕ) (size : ℕ → ℕ)
    → IsField bit v field
    → (if bit then 1 + size v else 0) ≡ field_size size field
size_as true v field size f = ap (field_size size) (sym f.shown)
size_as false v field size f = ap (field_size size) (sym f.shown)

module _ (w : WireFormat) (x : Message) (m : Meta) (r : Represents x m) where
  initialized_as : message_is_initialized x ≡ is_initialized m
  unfolding message_is_initialized
  initialized_as = ground (
    arith,
    four_bits x.has_bits r.small,
    r.seq_held.shown,
    r.service_id_held.shown,
    r.method_id_held.shown,
    r.message_length_held.shown,
  )

  serialized_as : serialize_with w x ≡ serialize w m
  unfolding serialize serialize_with
  serialized_as = rw (
    sym (bytes_as _ _ _ (w.write_uint64 1) r.seq_held),
    sym (bytes_as _ _ _ (w.write_int32 2) r.service_id_held),
    sym (bytes_as _ _ _ (w.write_int32 3) r.method_id_held),
    sym (bytes_as _ _ _ (w.write_uint32 4) r.message_length_held),
    r.unknown_held,
  )

  sized_as : byte_size_with w x ≡ byte_size_of w m
  unfolding byte_size_with byte_size_of
  sized_as =
      let a = size_as _ _ _ w.uint64_size r.seq_held in
      let b = size_as _ _ _ w.int32_size r.service_id_held in
      let c = size_as _ _ _ w.int32_size r.method_id_held in
      let d = size_as _ _ _ w.uint32_size r.message_length_held in
      let rest = ap (λ (l : List ℕ). length l) r.unknown_held in
      elim (Bool-cases (has_bit 255 x.has_bits)) [
        | inl some_bit ↦ rw some_bit (omega (arith, a, b, c, d, rest))
        | inr no_bit ↦
            rw no_bit (ground (arith, no_bit, eight_bits x.has_bits r.small, a, b, c, d, rest))
      ]

  pub Represents-Observed : Observed w x m
  Represents-Observed = record {
    seq_read = field_read _ _ _ r.seq_held;
    service_id_read = field_read _ _ _ r.service_id_held;
    method_id_read = field_read _ _ _ r.method_id_held;
    message_length_read = field_read _ _ _ r.message_length_held;
    unknown_read = sym r.unknown_held;
    initialized_read = initialized_as;
    size_read = sized_as;
    bytes_read = serialized_as;
  }
