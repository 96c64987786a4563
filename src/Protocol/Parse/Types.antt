-- ===== src/Protocol/Parse/Types.antt =====
-- The labels of MergePartialFromCodedStream (rpc/detail/protocol/rpc.pb.cc), and the types of the fields
-- that they set.
use gboost_rpc.Base.{
  ℕ, ◌<◌, ◌^◌, ◌≡◌, inl, inr, refl, Bool-cases, Option-cases, List, Option, none, some, arith,
}
use gboost_rpc.Protocol.{Meta, IsInRange}
use gboost_rpc.Protocol.Wire.{set_seq, set_service_id, set_method_id, set_message_length}
use gboost_rpc.Protocol.Parse.{
  CodedInput, ReadsTypes, Arm, breaks, success, failure, parse_message_length, parse_method_id,
  parse_service_id, parse_seq,
}
use gboost_rpc.Protocol.Parse.Ends.{labelled}
use gboost_rpc.Protocol.Parse.Unknown.{IsUnknown}

-- The fields have their types, and the unknown ones are bytes that are read as they were written.
pub record IsTyped (i : CodedInput) (m : Meta) : Type 0 where
  pub in_range : IsInRange m
  pub unknown : IsUnknown i m.unknown_fields

-- What an arm leaves of the metadata is typed.
abbrev pub Keeps : CodedInput → Arm → Type 0
Keeps i (breaks m rest) = IsTyped i m
Keeps i (success m) = IsTyped i m
Keeps i failure = Unit

module _ {i : CodedInput} where
  labelled-Keeps :
      (read : Option (ℕ × List ℕ)) (expect : List ℕ → Option (List ℕ)) (set : ℕ → Meta)
      (label : Meta → List ℕ → Arm)
      → ((v : ℕ) (rest : List ℕ) → read ≡ some (v, rest) → IsTyped i (set v))
      → ((m : Meta) (bytes : List ℕ) → IsTyped i m → Keeps i (label m bytes))
      → Keeps i (labelled read expect set label)
  labelled-Keeps none expect set label typed next = tt
  labelled-Keeps (some (v, rest)) expect set label typed next = elim (Option-cases (expect rest)) [
    | inl no_tag ↦ rw (Keeps, labelled, no_tag) (typed v rest refl)
    | inr (after, tag) ↦ rw (Keeps, labelled, tag) (next (set v) after (typed v rest refl))
  ]

  set_seq-IsTyped : (m : Meta) (v : ℕ) → v < 2 ^ 64 → IsTyped i m → IsTyped i (set_seq m v)
  set_seq-IsTyped m v small t = record {
    in_range = record {
      seq_fits = λ x e. ground (arith, small, e);
      service_id_fits = t.in_range.service_id_fits;
      method_id_fits = t.in_range.method_id_fits;
      message_length_fits = t.in_range.message_length_fits;
    };
    unknown = t.unknown;
  }

  set_service_id-IsTyped :
      (m : Meta) (v : ℕ) → v < 2 ^ 32 → IsTyped i m → IsTyped i (set_service_id m v)
  set_service_id-IsTyped m v small t = record {
    in_range = record {
      seq_fits = t.in_range.seq_fits;
      service_id_fits = λ x e. ground (arith, small, e);
      method_id_fits = t.in_range.method_id_fits;
      message_length_fits = t.in_range.message_length_fits;
    };
    unknown = t.unknown;
  }

  set_method_id-IsTyped :
      (m : Meta) (v : ℕ) → v < 2 ^ 32 → IsTyped i m → IsTyped i (set_method_id m v)
  set_method_id-IsTyped m v small t = record {
    in_range = record {
      seq_fits = t.in_range.seq_fits;
      service_id_fits = t.in_range.service_id_fits;
      method_id_fits = λ x e. ground (arith, small, e);
      message_length_fits = t.in_range.message_length_fits;
    };
    unknown = t.unknown;
  }

  set_message_length-IsTyped :
      (m : Meta) (v : ℕ) → v < 2 ^ 32 → IsTyped i m → IsTyped i (set_message_length m v)
  set_message_length-IsTyped m v small t = record {
    in_range = record {
      seq_fits = t.in_range.seq_fits;
      service_id_fits = t.in_range.service_id_fits;
      method_id_fits = t.in_range.method_id_fits;
      message_length_fits = λ x e. ground (arith, small, e);
    };
    unknown = t.unknown;
  }

  module _ (law : ReadsTypes i) where
    pub parse_message_length-Keeps :
        (m : Meta) (bytes : List ℕ) → IsTyped i m → Keeps i (parse_message_length i m bytes)
    unfolding parse_message_length
    parse_message_length-Keeps m bytes t = elim (Option-cases (i.read_uint32 bytes)) [
      | inl bad ↦ rw (Keeps, bad) tt
      | inr ((v, rest), good) ↦
          let t' = set_message_length-IsTyped m v (law.uint32_fits bytes rest v good) t in
          elim (Bool-cases (i.expect_at_end rest)) [
            | inl over ↦ rw (Keeps, good, over) t'
            | inr more ↦ rw (Keeps, good, more) t'
          ]
    ]

    pub parse_method_id-Keeps :
        (m : Meta) (bytes : List ℕ) → IsTyped i m → Keeps i (parse_method_id i m bytes)
    unfolding parse_method_id
    parse_method_id-Keeps m bytes t =
        labelled-Keeps (i.read_int32 bytes) (i.expect_tag 32) (set_method_id m)
          (parse_message_length i)
          (λ v rest e. set_method_id-IsTyped m v (law.int32_fits bytes rest v e) t)
          parse_message_length-Keeps

    pub parse_service_id-Keeps :
        (m : Meta) (bytes : List ℕ) → IsTyped i m → Keeps i (parse_service_id i m bytes)
    unfolding parse_service_id
    parse_service_id-Keeps m bytes t =
        labelled-Keeps (i.read_int32 bytes) (i.expect_tag 24) (set_service_id m) (parse_method_id i)
          (λ v rest e. set_service_id-IsTyped m v (law.int32_fits bytes rest v e) t)
          parse_method_id-Keeps

    pub parse_seq-Keeps : (m : Meta) (bytes : List ℕ) → IsTyped i m → Keeps i (parse_seq i m bytes)
    unfolding parse_seq
    parse_seq-Keeps m bytes t =
        labelled-Keeps (i.read_uint64 bytes) (i.expect_tag 16) (set_seq m) (parse_service_id i)
          (λ v rest e. set_seq-IsTyped m v (law.uint64_fits bytes rest v e) t)
          parse_service_id-Keeps
