-- ===== src/Protocol/Runtime.antt =====
-- What RPCData (rpc/detail/rpc_data.cc) asks of the protobuf runtime about RPCMetaData, from the methods
-- of rpc/detail/protocol/rpc.pb.cc that the runtime calls.
use gboost_rpc.Base.{
  ℕ, ◌≤◌, ◌≡◌, ◌≢◌, refl, sym, ap, subst, ◌∙◌, inl, inr, true, Option-cases, some, List, length, ok,
  arith,
}
use gboost_rpc.Protocol.{Meta, empty_meta, is_initialized, IsWritable, Protobuf, IsProtobuf}
use gboost_rpc.Protocol.Wire.{
  WireFormat, IsWireFormat, byte_size_of, serialize, copy_from, length-serialize, copy_from_lem,
}
use gboost_rpc.Protocol.Parse.{CodedInput, IsCodedInput, ReadsBack, ReadsTypes, merge_partial}
use gboost_rpc.Protocol.Parse.Unknown.{IsUnknown, nothing}
use gboost_rpc.Protocol.Parse.Types.{IsTyped}
use gboost_rpc.Protocol.Parse.Typed.{merge_partial-IsTyped}
use gboost_rpc.Protocol.Parse.Merges.{merge_partial-serialize}

-- MessageLite: `ByteSize` is the method of the class. `SerializeToArray`, of a message that is
-- initialised and an array that is large enough, writes what the class serialises. `ParseFromArray`
-- answers only what the class reads into an empty message, when that is initialised, and it does
-- where the class reads metadata that are written as these bytes, so that it read them all.
pub record IsMessageLite {M : Type 0} (w : WireFormat) (i : CodedInput) (pb : Protobuf M)
    : Type 0 where
  pub sized : (m : Meta) → pb.meta_byte_size m ≡ byte_size_of w m
  pub written :
      (m : Meta) (size : ℕ)
      → is_initialized m ≡ true
      → byte_size_of w m ≤ size
      → pb.meta_to_array m size ≡ some (serialize w m)
  pub reads :
      (bytes : List ℕ) (m : Meta)
      → pb.meta_from_array bytes ≡ some m
      → (merge_partial i empty_meta bytes ≡ ok (some m)) × (is_initialized m ≡ true)
  pub read :
      (bytes : List ℕ) (m : Meta)
      → merge_partial i empty_meta bytes ≡ ok (some m)
      → is_initialized m ≡ true
      → serialize w m ≡ bytes
      → pb.meta_from_array bytes ≡ some m

-- What is documented of the services' messages.
abbrev pub RoundTrips : {M : Type 0} → Protobuf M → Type 0
RoundTrips {M} pb =
    (x : M)
    → (bytes : List ℕ) × (pb.to_array x (pb.byte_size x) ≡ some bytes)
      × (length bytes ≡ pb.byte_size x)
      × (pb.from_array bytes ≡ some x)

module _ {M : Type 0} {w : WireFormat} {i : CodedInput} {pb : Protobuf M}
    (lite : IsMessageLite w i pb) (wire : IsWireFormat w) (taken : IsCodedInput i)
    (back : ReadsBack w i) (types : ReadsTypes i) where
  parsed-IsTyped : (bytes : List ℕ) (m : Meta) → pb.meta_from_array bytes ≡ some m → IsTyped i m
  parsed-IsTyped bytes m e =
      merge_partial-IsTyped types back empty_meta m bytes
        (record {
          in_range = record {
            seq_fits = λ v none_set. absurd cc;
            service_id_fits = λ v none_set. absurd cc;
            method_id_fits = λ v none_set. absurd cc;
            message_length_fits = λ v none_set. absurd cc;
          };
          unknown = nothing;
        })
        (lite.reads bytes m e).0

  IsWritable-IsTyped : (m : Meta) → IsWritable pb m → IsTyped i m
  IsWritable-IsTyped m v = record {
    in_range = v.in_range;
    unknown = elim v.unknown [
      | inl e ↦ subst (λ u. IsUnknown i u) (sym e) nothing
      | inr (bytes, p, parses, same) ↦
          subst (λ u. IsUnknown i u) same (parsed-IsTyped bytes p parses).unknown
    ];
  }

  initialized_size : (m : Meta) → is_initialized m ≡ true → byte_size_of w m ≢ 0
  unfolding byte_size_of
  initialized_size m h = elim (Option-cases m.seq) [
    | inl none_set ↦ absurd (ground (arith, h, none_set))
    | inr (v, e) ↦ λ z. ground (arith, z, e)
  ]

  read_back : (m : Meta) → IsTyped i m → merge_partial i empty_meta (serialize w m) ≡ ok (some m)
  unfolding copy_from
  read_back m t =
      merge_partial-serialize taken back empty_meta m t
      ∙ ap (λ x. ok (some x)) (copy_from_lem empty_meta m)

  -- With a runtime whose `ByteSize`, `SerializeToArray` and `ParseFromArray` call the methods of the
  -- class as documented, and of which the numbers and tags are read as they were written, RPCMetaData
  -- has what RPCData asks: empty metadata have the size 0 and metadata that parse another, metadata
  -- that parse have all fields, in range, and metadata with all fields, in range, and with the unknown
  -- fields of a parse or none, are written in as many bytes as `ByteSize` says, which parse to them.
  pub message_lite-IsProtobuf : RoundTrips pb → IsProtobuf pb
  unfolding byte_size_of
  message_lite-IsProtobuf services = record {
    empty_size = lite.sized empty_meta;
    parsed_size = λ bytes m e zero_size.
        initialized_size m (lite.reads bytes m e).1 (sym (lite.sized m) ∙ zero_size);
    parsed_fields = λ bytes m e. ((lite.reads bytes m e).1, (parsed-IsTyped bytes m e).in_range);
    meta_round_trip = λ m initialized writable.
        let t = IsWritable-IsTyped m writable in
        (
          serialize w m,
          lite.written m (pb.meta_byte_size m) initialized (omega (arith, lite.sized m)),
          length-serialize w m wire ∙ sym (lite.sized m),
          lite.read (serialize w m) m (read_back m t) initialized refl,
        );
    round_trip = services;
  }
