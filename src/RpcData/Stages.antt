-- ===== src/RpcData/Stages.antt =====
-- AppendBinaries (rpc/detail/rpc_data.cc) on a stream of frames: its parts for the payload and for
-- whole metadata.
use gboost_rpc.Base.{
  ℕ, ◌+◌, ◌-◌, ◌≤◌, ◌≡◌, ◌≢◌, refl, sym, ap, inl, inr, some, List, [], ◌++◌, length, take, drop,
  length-append, length-pos, take-length, take-append_self, drop-append_self, append_cases,
  list_cases, append_assoc, ok, arith, ◌==◌, if◌then◌else◌, ◌||◌, true, false, drop-drop,
}
use gboost_rpc.Protocol.{get_message_length, Protobuf}
use gboost_rpc.RpcData.{RpcData, with_binaries, append_payload, parse_meta, Appended}
use gboost_rpc.RpcData.Append.{append_payload_short, append_payload_full}
use gboost_rpc.RpcData.Phases.{
  Frame, IsFrame, InPayload, in_payload, Advanced, paused, finished, Advanced-behind,
}

-- What the bytes behind `offset` are.
pub record Window (binaries : List ℕ) (offset : ℕ) (taken : List ℕ) : Type 0 where
  pub seen : drop offset binaries ≡ taken
  pub room : offset + length taken ≤ length binaries

pub Window-take_all :
    {binaries : List ℕ} {offset : ℕ} {taken : List ℕ}
    → Window binaries offset taken
    → take (length taken) (drop offset binaries) ≡ taken
Window-take_all {taken} w = rw w.seen (take-length (length taken) taken (omega arith))

pub Window-take_front :
    {binaries : List ℕ} {offset : ℕ} {taken : List ℕ} (front extra : List ℕ)
    → Window binaries offset taken
    → taken ≡ front ++ extra
    → take (length front) (drop offset binaries) ≡ front
Window-take_front front extra w e =
    rw (w.seen, e) (take-append_self (length front) front extra refl)

pub Window-behind :
    {binaries : List ℕ} {offset : ℕ} {taken : List ℕ} (front extra : List ℕ)
    → Window binaries offset taken
    → taken ≡ front ++ extra
    → Window binaries (offset + length front) extra
Window-behind {binaries} {offset} front extra w e = record {
  seen =
      rw (drop-drop offset (length front) binaries, w.seen, e)
        (drop-append_self (length front) front extra refl);
  room = omega (arith, w.room, ap length e, length-append front extra);
}

pub whole-Window : (taken : List ℕ) → Window taken 0 taken
whole-Window taken = record { seen = refl; room = omega arith }

module _ {M : Type 0} (f : Frame) where
  pub payload_stage :
      (d : RpcData M) (binaries : List ℕ) (offset : ℕ) (taken later rest beyond : List ℕ)
      → InPayload f d rest
      → get_message_length f.meta ≡ length f.payload
      → Window binaries offset taken
      → taken ≢ []
      → rest ++ beyond ≡ taken ++ later
      → Advanced f offset taken later rest beyond (append_payload d binaries offset (length taken))
  payload_stage d binaries offset taken later rest beyond p measured w some_taken split =
      elim (append_cases rest taken split) [
        | inl (t, ne, front, back) ↦
            paused (with_binaries d (d.payload_binaries ++ taken)) t front back
              (rw (Window-take_all w) at (
                append_payload_short d binaries offset (length taken) w.room
                  (length-pos taken some_taken)
                  (omega (arith, wanted, ap length front, length-append taken t, length-pos t ne))))
              (in_payload t refl (record {
                sized = p.sized;
                parsed = p.parsed;
                payload = rw (append_assoc, ← front) p.payload;
                more = ne;
              }))
        | inr (e, front, back) ↦
            finished (with_binaries d (d.payload_binaries ++ rest)) e front back
              (rw (Window-take_front rest e w front) at (
                append_payload_full d binaries offset (length taken) w.room (length rest)
                  (length-pos rest p.more) wanted
                  (omega (arith, ap length front, length-append rest e))))
              (record { parsed = p.parsed; whole = sym p.payload })
      ]
    where
      wanted : length d.payload_binaries + length rest ≡ get_message_length d.meta
      wanted = omega (
        arith,
        ap length p.payload,
        length-append d.payload_binaries rest,
        measured,
        ap get_message_length p.parsed,
      )

  module _ (pb : Protobuf M) (is : IsFrame pb f) where
    abbrev with_meta : RpcData M → RpcData M
    with_meta d = record d { meta = f.meta; payload_binaries = [] }

    parse_whole :
        (d : RpcData M) (binaries : List ℕ) (offset : ℕ) (taken extra : List ℕ)
        → d.payload_binaries ≡ []
        → d.meta_size ≡ length f.descriptor
        → Window binaries offset taken
        → taken ≡ f.descriptor ++ extra
        → parse_meta pb d binaries offset d.meta_size (length taken) ≡ (
            if length extra == 0 || length f.payload == 0
            then ok (with_meta d, some (offset + length f.descriptor))
            else append_payload
                (with_meta d)
                binaries
                (offset + length f.descriptor)
                (length extra))
    unfolding parse_meta
    parse_whole d binaries offset taken extra nothing sized w front =
        let found : pb.meta_from_array (take d.meta_size (drop offset binaries)) ≡ some f.meta =
          rw (sized, Window-take_front f.descriptor extra w front) is.parses in
        let left : length taken - d.meta_size ≡ length extra =
          omega (arith, ap length front, length-append f.descriptor extra) in
        let m : get_message_length f.meta ≡ length f.payload = is.measured in ground (arith)

    -- With the metadata parsed, the call returns if it has no more bytes or none are wanted.
    settled :
        (d : RpcData M) (offset : ℕ) (extra later beyond : List ℕ) (rest : Appended M)
        → d.meta_size ≡ length f.descriptor
        → f.payload ++ beyond ≡ extra ++ later
        → (extra ≢ [] → f.payload ≢ [] → Advanced f offset extra later f.payload beyond rest)
        → Advanced f offset extra later f.payload beyond (
            if length extra == 0 || length f.payload == 0
            then ok (with_meta d, some offset)
            else rest)
    settled d offset extra later beyond rest sized split go = elim (list_cases f.payload) [
      | inl bare ↦
          let test : (length extra == 0 || length f.payload == 0) ≡ true =
            ground (arith, ap length bare) in
          let n : offset ≡ offset + length f.payload = omega (arith, ap length bare) in
          rw test (
            finished (with_meta d) extra (rw bare) (rw bare at split)
              (ap (λ (k : ℕ). ok (with_meta d, some k)) n)
              (record { parsed = refl; whole = sym bare }))
      | inr loaded ↦ elim (list_cases extra) [
        | inl none_left ↦
            let test : (length extra == 0 || length f.payload == 0) ≡ true =
              ground (arith, ap length none_left) in
            let n : offset ≡ offset + length extra = omega (arith, ap length none_left) in
            rw test (
              paused (with_meta d) f.payload (rw none_left) (rw none_left at (sym split))
                (ap (λ (k : ℕ). ok (with_meta d, some k)) n)
                (in_payload f.payload refl
                  (record { sized = sized; parsed = refl; payload = refl; more = loaded })))
        | inr some_left ↦
            let test : (length extra == 0 || length f.payload == 0) ≡ false =
              ground (arith, length-pos extra some_left, length-pos f.payload loaded) in
            rw test (go some_left loaded)
      ]
    ]

    -- The metadata lies whole behind `offset`.
    pub parse_stage :
        (d : RpcData M) (binaries : List ℕ) (offset : ℕ) (taken later beyond extra : List ℕ)
        → d.payload_binaries ≡ []
        → d.meta_size ≡ length f.descriptor
        → Window binaries offset taken
        → taken ≡ f.descriptor ++ extra
        → f.payload ++ beyond ≡ extra ++ later
        → Advanced f offset taken later
            (f.descriptor ++ f.payload)
            beyond
            (parse_meta pb d binaries offset d.meta_size (length taken))
    parse_stage d binaries offset taken later beyond extra nothing sized w front split =
        rw (parse_whole d binaries offset taken extra nothing sized w front) (
          Advanced-behind f offset (offset + length f.descriptor) f.descriptor refl front (
            settled d (offset + length f.descriptor) extra later beyond _ sized split
              λ some_left loaded.
                payload_stage (with_meta d) binaries (offset + length f.descriptor) extra later
                  f.payload beyond
                  (record { sized = sized; parsed = refl; payload = refl; more = loaded })
                  is.measured (Window-behind f.descriptor extra w front) some_left split))
