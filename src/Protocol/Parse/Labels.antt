-- ===== src/Protocol/Parse/Labels.antt =====
-- The labels of MergePartialFromCodedStream (rpc/detail/protocol/rpc.pb.cc), to which one field goes on
-- from the field before it.
use gboost_rpc.Base.{
  ℕ, ◌≤◌, ◌≡◌, subst, Bool-cases, Option-cases, inl, inr, true, Option, none, some, List, [], arith,
}
use gboost_rpc.Protocol.{Meta}
use gboost_rpc.Protocol.Wire.{
  WireFormat, set_seq, set_service_id, set_method_id, set_message_length,
}
use gboost_rpc.Protocol.Parse.{
  CodedInput, ReadsBack, Arm, breaks, success, parse_message_length, parse_method_id,
  parse_service_id, parse_seq, handle_unusual, switch_field, parse_round,
}
use gboost_rpc.Protocol.Parse.Results.{Parses, Settles, Parses-round}

module _ (i : CodedInput) {w : WireFormat} (law : ReadsBack w i) where
  pub round_8 :
      (m : Meta) (bytes body : List ℕ)
      → i.read_tag bytes ≡ (8, true, body)
      → parse_round i m bytes ≡ parse_seq i m body
  unfolding parse_round switch_field
  round_8 m bytes body e = ground (arith, e, law.number_of 8)

  pub round_16 :
      (m : Meta) (bytes body : List ℕ)
      → i.read_tag bytes ≡ (16, true, body)
      → parse_round i m bytes ≡ parse_service_id i m body
  unfolding parse_round switch_field
  round_16 m bytes body e = ground (arith, e, law.number_of 16)

  pub round_24 :
      (m : Meta) (bytes body : List ℕ)
      → i.read_tag bytes ≡ (24, true, body)
      → parse_round i m bytes ≡ parse_method_id i m body
  unfolding parse_round switch_field
  round_24 m bytes body e = ground (arith, e, law.number_of 24)

  pub round_32 :
      (m : Meta) (bytes body : List ℕ)
      → i.read_tag bytes ≡ (32, true, body)
      → parse_round i m bytes ≡ parse_message_length i m body
  unfolding parse_round switch_field
  round_32 m bytes body e = ground (arith, e, law.number_of 32)

  pub round_end : (m : Meta) → parse_round i m [] ≡ success m
  unfolding parse_round handle_unusual
  round_end m = ground (arith, law.end_tag)

  pub parse_message_length-Settles :
      (m : Meta) (bytes rest : List ℕ) (v : ℕ) (r : Option Meta)
      → i.read_uint32 bytes ≡ some (v, rest)
      → Parses i (set_message_length m v) rest r
      → Settles i (parse_message_length i m bytes) r
  unfolding parse_message_length
  parse_message_length-Settles m bytes rest v r e p =
      rw (parse_message_length, e)
        (elim (Bool-cases (i.expect_at_end rest)) [
          | inl over ↦
              let nothing = law.at_end rest over in
              let settled : Settles i (parse_round i (set_message_length m v) []) r =
                Parses-round i (set_message_length m v) [] r
                  (subst (λ t. Parses i (set_message_length m v) t r) nothing p) in
              rw over (rw (round_end (set_message_length m v)) at settled)
          | inr more ↦ rw more p
        ])

  -- A label reads a value and may go on to the next label: where it does, the loop would as well.
  labelled-Settles :
      (tag : ℕ) (label : Meta → List ℕ → Arm) (m : Meta) (rest : List ℕ) (r : Option Meta)
      → tag ≤ 127
      → ((after : List ℕ)
          → i.read_tag rest ≡ (tag, true, after)
          → parse_round i m rest ≡ label m after)
      → Parses i m rest r
      → Settles i
          (elim (i.expect_tag tag rest) [ none ↦ breaks m rest | some after ↦ label m after ])
          r
  labelled-Settles tag label m rest r small same p = elim (Option-cases (i.expect_tag tag rest)) [
    | inl no_tag ↦ rw no_tag p
    | inr (after, found) ↦ rw found (
        subst (λ a. Settles i a r) (same after (law.expected tag rest after small found))
          (Parses-round i m rest r p))
  ]

  pub parse_method_id-Settles :
      (m : Meta) (bytes rest : List ℕ) (v : ℕ) (r : Option Meta)
      → i.read_int32 bytes ≡ some (v, rest)
      → Parses i (set_method_id m v) rest r
      → Settles i (parse_method_id i m bytes) r
  unfolding parse_method_id
  parse_method_id-Settles m bytes rest v r e p =
      rw (parse_method_id, e)
        (labelled-Settles 32 (parse_message_length i) (set_method_id m v) rest r (omega arith)
          (λ after. round_32 (set_method_id m v) rest after) p)

  pub parse_service_id-Settles :
      (m : Meta) (bytes rest : List ℕ) (v : ℕ) (r : Option Meta)
      → i.read_int32 bytes ≡ some (v, rest)
      → Parses i (set_service_id m v) rest r
      → Settles i (parse_service_id i m bytes) r
  unfolding parse_service_id
  parse_service_id-Settles m bytes rest v r e p =
      rw (parse_service_id, e)
        (labelled-Settles 24 (parse_method_id i) (set_service_id m v) rest r (omega arith)
          (λ after. round_24 (set_service_id m v) rest after) p)

  pub parse_seq-Settles :
      (m : Meta) (bytes rest : List ℕ) (v : ℕ) (r : Option Meta)
      → i.read_uint64 bytes ≡ some (v, rest)
      → Parses i (set_seq m v) rest r
      → Settles i (parse_seq i m bytes) r
  unfolding parse_seq
  parse_seq-Settles m bytes rest v r e p =
      rw (parse_seq, e)
        (labelled-Settles 16 (parse_service_id i) (set_seq m v) rest r (omega arith)
          (λ after. round_16 (set_seq m v) rest after) p)
