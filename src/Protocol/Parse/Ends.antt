-- ===== src/Protocol/Parse/Ends.antt =====
-- The loop of MergePartialFromCodedStream (rpc/detail/protocol/rpc.pb.cc) and its fuel.
use gboost_rpc.Base.{
  ℕ, zero, suc, ◌≤◌, ◌<◌, ◌≡◌, ◌==◌, refl, ap, leb, Bool, Bool-cases, Option-cases, inl, inr, ◌⊎◌,
  true, Option, none, some, List, length, ok, arith,
}
use gboost_rpc.Protocol.{Meta}
use gboost_rpc.Protocol.Wire.{set_seq, set_service_id, set_method_id}
use gboost_rpc.Protocol.Parse.{
  CodedInput, IsCodedInput, Arm, breaks, success, failure, parse_message_length, parse_method_id,
  parse_service_id, parse_seq, handle_unusual, switch_field, parse_round, parse_loop, merge_partial,
}

-- What an arm leaves of the stream is no longer than this.
abbrev pub leaves : ℕ → Arm → Bool
leaves n (breaks m rest) = leb (length rest) n
leaves n (success m) = true
leaves n failure = true

pub arm_cases :
    (arm : Arm)
    → ((m : Meta) × (rest : List ℕ) × (arm ≡ breaks m rest))
      ⊎ (((m : Meta) × (arm ≡ success m)) ⊎ (arm ≡ failure))
arm_cases (breaks m rest) = inl (m, rest, refl)
arm_cases (success m) = inr (inl (m, refl))
arm_cases failure = inr (inr refl)

leaves_le : (n k : ℕ) (arm : Arm) → n ≤ k → leaves n arm ≡ true → leaves k arm ≡ true
leaves_le n k (breaks m rest) h l = ground (arith, h, l)
leaves_le n k (success m) h l = refl
leaves_le n k failure h l = refl

-- A label reads a value, and goes on to the next label or breaks.
abbrev pub labelled :
    Option (ℕ × List ℕ) → (List ℕ → Option (List ℕ)) → (ℕ → Meta) → (Meta → List ℕ → Arm) → Arm
labelled read expect set label = elim read [
  | none ↦ failure
  | some (v, rest) ↦ elim (expect rest) [
    | none ↦ breaks (set v) rest
    | some after ↦ label (set v) after
  ]
]

labelled-leaves :
    (n : ℕ) (read : Option (ℕ × List ℕ)) (expect : List ℕ → Option (List ℕ)) (set : ℕ → Meta)
    (label : Meta → List ℕ → Arm)
    → ((v : ℕ) (rest : List ℕ) → read ≡ some (v, rest) → length rest ≤ n)
    → ((rest after : List ℕ) → expect rest ≡ some after → length after ≤ length rest)
    → ((m : Meta) (bytes : List ℕ) → leaves (length bytes) (label m bytes) ≡ true)
    → leaves n (labelled read expect set label) ≡ true
labelled-leaves n none expect set label taken shorter next = refl
labelled-leaves n (some (v, rest)) expect set label taken shorter next =
    elim (Option-cases (expect rest)) [
      | inl no_tag ↦ ground (arith, no_tag, taken v rest refl)
      | inr (after, tag) ↦
          let goes =
            leaves_le (length after) n (label (set v) after)
              (omega (arith, taken v rest refl, shorter rest after tag)) (next (set v) after) in
          ground (arith, tag, goes)
    ]

module _ {i : CodedInput} (law : IsCodedInput i) where
  parse_message_length-leaves :
      (m : Meta) (bytes : List ℕ) → leaves (length bytes) (parse_message_length i m bytes) ≡ true
  unfolding parse_message_length
  parse_message_length-leaves m bytes = elim (Option-cases (i.read_uint32 bytes)) [
    | inl bad ↦ ground (arith, bad)
    | inr ((v, rest), good) ↦ ground (arith, good, law.uint32_taken bytes rest v good)
  ]

  parse_method_id-leaves :
      (m : Meta) (bytes : List ℕ) → leaves (length bytes) (parse_method_id i m bytes) ≡ true
  unfolding parse_method_id
  parse_method_id-leaves m bytes =
      labelled-leaves (length bytes) (i.read_int32 bytes) (i.expect_tag 32) (set_method_id m)
        (parse_message_length i) (λ v rest. law.int32_taken bytes rest v) (law.expected_taken 32)
        parse_message_length-leaves

  parse_service_id-leaves :
      (m : Meta) (bytes : List ℕ) → leaves (length bytes) (parse_service_id i m bytes) ≡ true
  unfolding parse_service_id
  parse_service_id-leaves m bytes =
      labelled-leaves (length bytes) (i.read_int32 bytes) (i.expect_tag 24) (set_service_id m)
        (parse_method_id i) (λ v rest. law.int32_taken bytes rest v) (law.expected_taken 24)
        parse_method_id-leaves

  parse_seq-leaves :
      (m : Meta) (bytes : List ℕ) → leaves (length bytes) (parse_seq i m bytes) ≡ true
  unfolding parse_seq
  parse_seq-leaves m bytes =
      labelled-leaves (length bytes) (i.read_uint64 bytes) (i.expect_tag 16) (set_seq m)
        (parse_service_id i) (λ v rest. law.uint64_taken bytes rest v) (law.expected_taken 16)
        parse_service_id-leaves

  handle_unusual-leaves :
      (m : Meta) (tag : ℕ) (bytes : List ℕ)
      → leaves (length bytes) (handle_unusual i m tag bytes) ≡ true
  unfolding handle_unusual
  handle_unusual-leaves m tag bytes = elim (Option-cases (i.skip_field tag bytes)) [
    | inl bad ↦ ground (arith, bad)
    | inr ((field, rest), good) ↦ ground (arith, good, law.field_taken tag bytes rest field good)
  ]

  switch_field-leaves :
      (m : Meta) (tag : ℕ) (bytes : List ℕ)
      → leaves (length bytes) (switch_field i m tag bytes) ≡ true
  unfolding switch_field
  switch_field-leaves m tag bytes = ground (
    arith,
    parse_seq-leaves m bytes,
    parse_service_id-leaves m bytes,
    parse_method_id-leaves m bytes,
    parse_message_length-leaves m bytes,
    handle_unusual-leaves m tag bytes,
  )

  switch_field_zero : (m : Meta) (bytes : List ℕ) → switch_field i m 0 bytes ≡ success m
  unfolding switch_field handle_unusual
  switch_field_zero m bytes = ground arith

  handle_unusual_zero : (m : Meta) (bytes : List ℕ) → handle_unusual i m 0 bytes ≡ success m
  unfolding handle_unusual
  handle_unusual_zero m bytes = ground arith

  -- A round that does not end the loop takes a byte.
  parse_round-leaves :
      (m m' : Meta) (bytes rest : List ℕ)
      → parse_round i m bytes ≡ breaks m' rest
      → length rest < length bytes
  unfolding parse_round
  parse_round-leaves m m' bytes rest e =
      let tag = (i.read_tag bytes).0 in
      let left = (i.read_tag bytes).2 in
      elim (Bool-cases (tag == 0)) [
        | inl no_tag ↦
            let at : tag ≡ 0 = ground arith in
            absurd (
              ground (
                arith,
                at,
                ap (λ t. switch_field i m t left) at,
                ap (λ t. handle_unusual i m t left) at,
                switch_field_zero m left,
                handle_unusual_zero m left,
                e,
              ))
        | inr some_tag ↦ ground (
          arith,
          e,
          law.tag_taken bytes (ground arith),
          switch_field-leaves m tag left,
          handle_unusual-leaves m tag left,
        )
      ]

  parse_loop_ends :
      (fuel : ℕ) (m : Meta) (bytes : List ℕ)
      → length bytes < fuel
      → (r : Option Meta) × (parse_loop i fuel m bytes ≡ ok r)
  unfolding parse_loop
  parse_loop_ends zero m bytes enough = absurd (omega (arith, enough))
  parse_loop_ends (suc fuel) m bytes enough = elim (arm_cases (parse_round i m bytes)) [
    | inl (m', rest, e) ↦
        let shorter = parse_round-leaves m m' bytes rest e in
        rw (parse_loop, e) (parse_loop_ends fuel m' rest (omega (arith, enough, shorter)))
    | inr (inl (m', e)) ↦ rw (parse_loop, e) (some m', refl)
    | inr (inr e) ↦ rw (parse_loop, e) (none, refl)
  ]

-- `MergePartialFromCodedStream` ends on every stream, with metadata or with false.
pub merge_partial_total :
    {i : CodedInput}
    → IsCodedInput i
    → (m : Meta) (bytes : List ℕ) → (r : Option Meta) × (merge_partial i m bytes ≡ ok r)
unfolding merge_partial
merge_partial_total law m bytes = parse_loop_ends law (suc (length bytes)) m bytes (omega arith)
