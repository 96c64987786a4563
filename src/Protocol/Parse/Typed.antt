-- ===== src/Protocol/Parse/Typed.antt =====
-- The metadata that MergePartialFromCodedStream (rpc/detail/protocol/rpc.pb.cc) gives: the types of the
-- fields, and the unknown ones.
use gboost_rpc.Base.{
  ℕ, zero, suc, ◌==◌, ◌||◌, ◌≡◌, ◌≢◌, ◌⊎◌, inl, inr, refl, sym, ap, subst, ◌∙◌, if◌then◌else◌, Bool,
  Bool-cases, Option-cases, true, false, ◌++◌, List, [], some, append-nil, arith, ok, length,
}
use gboost_rpc.Protocol.{Meta}
use gboost_rpc.Protocol.Wire.{WireFormat}
use gboost_rpc.Protocol.Parse.{
  CodedInput, ReadsTypes, ReadsBack, parse_message_length, parse_method_id, parse_service_id,
  parse_seq, handle_unusual, switch_field, parse_round, parse_loop, merge_partial,
}
use gboost_rpc.Protocol.Parse.Ends.{arm_cases}
use gboost_rpc.Protocol.Parse.Unknown.{IsUnknown, nothing, kept_field, append-IsUnknown}
use gboost_rpc.Protocol.Parse.Types.{
  IsTyped, Keeps, parse_seq-Keeps, parse_service_id-Keeps, parse_method_id-Keeps,
  parse_message_length-Keeps,
}

-- Where the switch sends a tag: to one of the labels, or to `handle_unusual` whatever the metadata
-- and the stream are.
switched :
    (i : CodedInput) (tag : ℕ)
    → ((tag ≡ 8) ⊎ ((tag ≡ 16) ⊎ ((tag ≡ 24) ⊎ (tag ≡ 32))))
      ⊎ ((m : Meta) (body : List ℕ) → switch_field i m tag body ≡ handle_unusual i m tag body)
unfolding switch_field
switched i tag = elim (Bool-cases (tag == 8)) [
  | inl e ↦ inl (inl (ground arith))
  | inr n8 ↦ elim (Bool-cases (tag == 16)) [
    | inl e ↦ inl (inr (inl (ground arith)))
    | inr n16 ↦ elim (Bool-cases (tag == 24)) [
      | inl e ↦ inl (inr (inr (inl (ground arith))))
      | inr n24 ↦ elim (Bool-cases (tag == 32)) [
        | inl e ↦ inl (inr (inr (inr (ground arith))))
        | inr n32 ↦ inr (λ m body. ground (arith, n8, n16, n24, n32))
      ]
    ]
  ]
]

module _ {i : CodedInput} where
  module _ (law : ReadsTypes i) where
    -- A field that was skipped is kept.
    handle_unusual-Keeps :
        (m : Meta) (tag : ℕ) (body : List ℕ)
        → IsTyped i m
        → ((bytes rest : List ℕ)
            → tag ≢ 0
            → i.wire_type tag ≢ 4
            → i.skip_field tag body ≡ some (bytes, rest)
            → IsUnknown i (bytes ++ []))
        → Keeps i (handle_unusual i m tag body)
    unfolding handle_unusual
    handle_unusual-Keeps m tag body t kept = elim (Bool-cases (tag == 0 || i.wire_type tag == 4)) [
      | inl over ↦ rw (Keeps, over) t
      | inr goes ↦ elim (Option-cases (i.skip_field tag body)) [
        | inl bad ↦ rw (Keeps, goes, bad) tt
        | inr ((bytes, rest), good) ↦
            rw (Keeps, goes, good)
              (record {
                in_range = record {
                  seq_fits = t.in_range.seq_fits;
                  service_id_fits = t.in_range.service_id_fits;
                  method_id_fits = t.in_range.method_id_fits;
                  message_length_fits = t.in_range.message_length_fits;
                };
                unknown = append-IsUnknown m.unknown_fields bytes t.unknown (
                    subst (λ l. IsUnknown i l) (append-nil bytes)
                      (kept bytes rest (ground arith) (ground arith) good));
              })
      ]
    ]

    -- A tag that the loop takes to `handle_unusual` is one that it takes there again.
    unusual-IsUnknown :
        (bytes body rest kept : List ℕ) (tag : ℕ) (known : Bool)
        → i.read_tag bytes ≡ (tag, known, body)
        → ((m : Meta) (left : List ℕ)
            → (if known then switch_field i m tag left else handle_unusual i m tag left)
              ≡ handle_unusual i m tag left)
        → tag ≢ 0
        → i.wire_type tag ≢ 4
        → i.skip_field tag body ≡ some (kept, rest)
        → IsUnknown i (kept ++ [])
    unfolding parse_round handle_unusual
    unusual-IsUnknown bytes body rest kept tag known at goes some_tag no_end skipped =
        kept_field kept
          (λ m after.
            let (again, tag_again, skipped_again) =
              law.field_back bytes body kept rest tag known at some_tag skipped after in
            ground (arith, tag_again, skipped_again, goes m again))
          nothing

    module _ {w : WireFormat} (back : ReadsBack w i) where
      switch_8 : (m : Meta) (body : List ℕ) → parse_seq i m body ≡ switch_field i m 8 body
      unfolding switch_field
      switch_8 m body = ground (arith, back.number_of 8)

      switch_16 : (m : Meta) (body : List ℕ) → parse_service_id i m body ≡ switch_field i m 16 body
      unfolding switch_field
      switch_16 m body = ground (arith, back.number_of 16)

      switch_24 : (m : Meta) (body : List ℕ) → parse_method_id i m body ≡ switch_field i m 24 body
      unfolding switch_field
      switch_24 m body = ground (arith, back.number_of 24)

      switch_32 :
          (m : Meta) (body : List ℕ) → parse_message_length i m body ≡ switch_field i m 32 body
      unfolding switch_field
      switch_32 m body = ground (arith, back.number_of 32)

      round_at-Keeps :
          (m : Meta) (bytes body : List ℕ) (tag : ℕ) (known : Bool)
          → i.read_tag bytes ≡ (tag, known, body)
          → IsTyped i m
          → Keeps i (if known then switch_field i m tag body else handle_unusual i m tag body)
      round_at-Keeps m bytes body tag false at t =
          handle_unusual-Keeps m tag body t
            (λ kept rest. unusual-IsUnknown bytes body rest kept tag false at (λ n left. refl))
      round_at-Keeps m bytes body tag true at t = elim (switched i tag) [
        | inl (inl e) ↦
            subst (λ a. Keeps i a) (switch_8 m body ∙ ap (λ n. switch_field i m n body) (sym e))
              (parse_seq-Keeps law m body t)
        | inl (inr (inl e)) ↦
            subst (λ a. Keeps i a) (switch_16 m body ∙ ap (λ n. switch_field i m n body) (sym e))
              (parse_service_id-Keeps law m body t)
        | inl (inr (inr (inl e))) ↦
            subst (λ a. Keeps i a) (switch_24 m body ∙ ap (λ n. switch_field i m n body) (sym e))
              (parse_method_id-Keeps law m body t)
        | inl (inr (inr (inr e))) ↦
            subst (λ a. Keeps i a) (switch_32 m body ∙ ap (λ n. switch_field i m n body) (sym e))
              (parse_message_length-Keeps law m body t)
        | inr unusual ↦
            subst (λ a. Keeps i a) (sym (unusual m body))
              (handle_unusual-Keeps m tag body t
                (λ kept rest. unusual-IsUnknown bytes body rest kept tag true at unusual))
      ]

      parse_round-Keeps :
          (m : Meta) (bytes : List ℕ) → IsTyped i m → Keeps i (parse_round i m bytes)
      unfolding parse_round
      parse_round-Keeps m bytes t =
          round_at-Keeps m bytes (i.read_tag bytes).2 (i.read_tag bytes).0 (i.read_tag bytes).1 refl
            t

      parse_loop-IsTyped :
          (fuel : ℕ) (m m' : Meta) (bytes : List ℕ)
          → IsTyped i m
          → parse_loop i fuel m bytes ≡ ok (some m')
          → IsTyped i m'
      unfolding parse_loop
      parse_loop-IsTyped zero m m' bytes t e = absurd cc
      parse_loop-IsTyped (suc fuel) m m' bytes t e =
          let kept = parse_round-Keeps m bytes t in
          elim (arm_cases (parse_round i m bytes)) [
            | inl (n, rest, arm) ↦
                parse_loop-IsTyped fuel n m' rest (subst (λ a. Keeps i a) arm kept)
                  (ground (arith, arm, e))
            | inr (inl (n, arm)) ↦
                let same : n ≡ m' = ground (arith, arm, e) in
                subst (λ x. IsTyped i x) same (subst (λ a. Keeps i a) arm kept)
            | inr (inr arm) ↦ absurd (ground (arith, arm, e))
          ]

-- What `MergePartialFromCodedStream` makes of metadata whose fields have values of their types, and whose
-- unknown fields are read as they were written, from any bytes, are such metadata again: seq below
-- 2 ^ 64, the other fields below 2 ^ 32, and unknown fields that the loop keeps when it reads them again.
pub merge_partial-IsTyped :
    {i : CodedInput} {w : WireFormat}
    → ReadsTypes i
    → ReadsBack w i
    → (m m' : Meta) (bytes : List ℕ) → IsTyped i m
    → merge_partial i m bytes ≡ ok (some m')
    → IsTyped i m'
unfolding merge_partial
merge_partial-IsTyped law back m m' bytes t e =
    parse_loop-IsTyped law back (suc (length bytes)) m m' bytes t e
