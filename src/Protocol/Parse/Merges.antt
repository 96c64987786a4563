-- ===== src/Protocol/Parse/Merges.antt =====
-- What MergePartialFromCodedStream (rpc/detail/protocol/rpc.pb.cc) reads of metadata that were
-- written.
use gboost_rpc.Base.{
  ℕ, suc, ◌<◌, ◌^◌, ◌≡◌, refl, sym, ap, subst, ◌∙◌, Option, none, some, List, [], ◌++◌, length, ok,
  arith,
}
use gboost_rpc.Protocol.{Meta}
use gboost_rpc.Protocol.Wire.{
  WireFormat, serialize, merge_from, merge_field, field_bytes, set_seq, set_service_id,
  set_method_id, set_message_length,
}
use gboost_rpc.Protocol.Parse.{
  CodedInput, IsCodedInput, ReadsBack, Arm, parse_message_length, parse_method_id, parse_service_id,
  parse_seq, parse_round, merge_partial,
}
use gboost_rpc.Protocol.Parse.Ends.{merge_partial_total}
use gboost_rpc.Protocol.Parse.Results.{Parses, Settles, one_result, round-Parses}
use gboost_rpc.Protocol.Parse.Unknown.{IsUnknown-Parses}
use gboost_rpc.Protocol.Parse.Types.{IsTyped}
use gboost_rpc.Protocol.Parse.Labels.{
  round_8, round_16, round_24, round_32, round_end, parse_message_length-Settles,
  parse_method_id-Settles, parse_service_id-Settles, parse_seq-Settles,
}

-- The metadata with the fields that are set.
abbrev fields_of : (seq service_id method_id message_length : Option ℕ) → Meta → Meta
fields_of a b c d m =
    merge_field set_message_length d
      (merge_field set_method_id c (merge_field set_service_id b (merge_field set_seq a m)))

fields_of_unknown :
    (a b c d : Option ℕ) (m : Meta) → (fields_of a b c d m).unknown_fields ≡ m.unknown_fields
fields_of_unknown a b c d m = ground arith

merge_from_fields :
    (m source : Meta)
    → (let last = fields_of source.seq source.service_id source.method_id source.message_length m in
        record last { unknown_fields = last.unknown_fields ++ source.unknown_fields })
      ≡ merge_from m source
unfolding merge_from
merge_from_fields m source =
    let last = fields_of source.seq source.service_id source.method_id source.message_length m in
    ap (λ u. record last { unknown_fields = u ++ source.unknown_fields })
      (fields_of_unknown source.seq source.service_id source.method_id source.message_length m)

module _ (i : CodedInput) {w : WireFormat} (law : ReadsBack w i) where
  -- A round that meets a tag and goes to the label of the tag.
  label-Parses :
      (label : Meta → List ℕ → Arm) (m : Meta) (bytes body : List ℕ) (r : Option Meta)
      → parse_round i m bytes ≡ label m body
      → Settles i (label m body) r
      → Parses i m bytes r
  label-Parses label m bytes body r at s =
      round-Parses i m bytes r (subst (λ a. Settles i a r) (sym at) s)

  -- A field that is written or not, before the rest of the stream.
  field-Parses :
      (set : Meta → ℕ → Meta) (write : ℕ → List ℕ) (bound : ℕ)
      → ((m : Meta) (v : ℕ) (rest : List ℕ) (r : Option Meta)
          → v < bound
          → Parses i (set m v) rest r
          → Parses i m (write v ++ rest) r)
      → (m : Meta) (field : Option ℕ) (rest : List ℕ) (r : Option Meta)
      → ((v : ℕ) → field ≡ some v → v < bound)
      → Parses i (merge_field set field m) rest r
      → Parses i m (field_bytes write field ++ rest) r
  field-Parses set write bound one m none rest r fits p = p
  field-Parses set write bound one m (some v) rest r fits p = one m v rest r (fits v refl) p

  seq-Parses :
      (m : Meta) (v : ℕ) (rest : List ℕ) (r : Option Meta)
      → v < 2 ^ 64
      → Parses i (set_seq m v) rest r
      → Parses i m (w.write_uint64 1 v ++ rest) r
  seq-Parses m v rest r fits p =
      let (body, tag, value) = law.uint64_back 1 v rest (omega arith) (omega arith) fits in
      label-Parses (parse_seq i) m (w.write_uint64 1 v ++ rest) body r (round_8 i law m _ body tag)
        (parse_seq-Settles i law m body rest v r value p)

  service_id-Parses :
      (m : Meta) (v : ℕ) (rest : List ℕ) (r : Option Meta)
      → v < 2 ^ 32
      → Parses i (set_service_id m v) rest r
      → Parses i m (w.write_int32 2 v ++ rest) r
  service_id-Parses m v rest r fits p =
      let (body, tag, value) = law.int32_back 2 v rest (omega arith) (omega arith) fits in
      label-Parses (parse_service_id i) m (w.write_int32 2 v ++ rest) body r
        (round_16 i law m _ body tag) (parse_service_id-Settles i law m body rest v r value p)

  method_id-Parses :
      (m : Meta) (v : ℕ) (rest : List ℕ) (r : Option Meta)
      → v < 2 ^ 32
      → Parses i (set_method_id m v) rest r
      → Parses i m (w.write_int32 3 v ++ rest) r
  method_id-Parses m v rest r fits p =
      let (body, tag, value) = law.int32_back 3 v rest (omega arith) (omega arith) fits in
      label-Parses (parse_method_id i) m (w.write_int32 3 v ++ rest) body r
        (round_24 i law m _ body tag) (parse_method_id-Settles i law m body rest v r value p)

  message_length-Parses :
      (m : Meta) (v : ℕ) (rest : List ℕ) (r : Option Meta)
      → v < 2 ^ 32
      → Parses i (set_message_length m v) rest r
      → Parses i m (w.write_uint32 4 v ++ rest) r
  message_length-Parses m v rest r fits p =
      let (body, tag, value) = law.uint32_back 4 v rest (omega arith) (omega arith) fits in
      label-Parses (parse_message_length i) m (w.write_uint32 4 v ++ rest) body r
        (round_32 i law m _ body tag) (parse_message_length-Settles i law m body rest v r value p)

  end-Parses : (m : Meta) → Parses i m [] (some m)
  end-Parses m =
      round-Parses i m [] (some m)
        (subst (λ a. Settles i a (some m)) (sym (round_end i law m)) refl)

  serialize-Parses :
      (m source : Meta)
      → IsTyped i source
      → Parses i m (serialize w source) (some (merge_from m source))
  unfolding serialize
  serialize-Parses m source t =
      let last = fields_of source.seq source.service_id source.method_id source.message_length m in
      let ends : Parses i last source.unknown_fields (some (merge_from m source)) =
        IsUnknown-Parses last source.unknown_fields (some (merge_from m source)) t.unknown (
          subst (λ x. Parses i x [] (some (merge_from m source))) (sym (merge_from_fields m source))
            (end-Parses (merge_from m source))) in
      field-Parses set_seq (w.write_uint64 1) (2 ^ 64) seq-Parses m source.seq _ _
        t.in_range.seq_fits
        (field-Parses set_service_id (w.write_int32 2) (2 ^ 32) service_id-Parses _
          source.service_id _ _ t.in_range.service_id_fits
          (field-Parses set_method_id (w.write_int32 3) (2 ^ 32) method_id-Parses _ source.method_id
            _ _ t.in_range.method_id_fits
            (field-Parses set_message_length (w.write_uint32 4) (2 ^ 32) message_length-Parses _
              source.message_length _ _ t.in_range.message_length_fits ends)))

-- `MergePartialFromCodedStream`, over whatever the metadata were before, of what the serialisation of
-- metadata wrote, with any of their fields set, of their types, and with unknown fields that are read
-- as they were written: it returns true and does what `MergeFrom` of those metadata does, whether or
-- not `ExpectTag` and `ExpectAtEnd` recognise what comes next.
pub merge_partial-serialize :
    {i : CodedInput} {w : WireFormat}
    → IsCodedInput i
    → ReadsBack w i
    → (m source : Meta) → IsTyped i source
    → merge_partial i m (serialize w source) ≡ ok (some (merge_from m source))
unfolding merge_partial
merge_partial-serialize {i} {w} taken law m source t =
    let (r, e) = merge_partial_total taken m (serialize w source) in
    let same =
      one_result i m (serialize w source) (suc (length (serialize w source)))
        (some (merge_from m source)) r (serialize-Parses i law m source t) e in
    e ∙ ap (λ x. ok x) same
