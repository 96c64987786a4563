-- ===== src/RpcData/Cases.antt =====
-- AppendBinaries (rpc/detail/rpc_data.cc) on a stream of frames: each part of the function on the
-- phase that it serves.
use gboost_rpc.Base.{
  ℕ, ◌+◌, ◌-◌, ◌<◌, ◌≡◌, ◌≢◌, refl, sym, ap, inl, inr, some, List, [], ◌++◌, length, take,
  length-append, length-pos, ne_nil_of_length, take-length, take-append_self, drop-append_self,
  append_cases, list_cases, append-nil, append_assoc, ok, arith, ◌==◌, if◌then◌else◌, ◌⊎◌, true,
  false, ◌∙◌,
}
use gboost_rpc.Protocol.{Protobuf, IsProtobuf, empty_meta}
use gboost_rpc.RpcData.{RpcData, with_binaries, append_meta, append_binaries}
use gboost_rpc.RpcData.Append.{
  append_meta_short, append_meta_whole, append_meta_past, append_binaries_past,
  append_binaries_short, append_binaries_sized,
}
use gboost_rpc.RpcData.Phases.{
  Frame, IsFrame, InSize, Holds, in_size, in_meta, in_payload, IsReady, Advanced, paused,
  Advanced-behind,
}
use gboost_rpc.RpcData.Bytes.{
  to_big_endian, from_big_endian, from_big_endian-to_big_endian, length-to_big_endian,
}
use gboost_rpc.RpcData.Stages.{Window, Window-take_all, whole-Window, payload_stage, parse_stage}

module _ {M : Type 0} (f : Frame) where
  module _ (pb : Protobuf M) (is : IsFrame pb f) where
    module _ (law : IsProtobuf pb) where
      meta_stage :
          (d : RpcData M) (binaries : List ℕ) (offset : ℕ) (taken later beyond : List ℕ)
          → d.payload_binaries ≡ []
          → d.meta ≡ empty_meta
          → d.meta_size ≡ length f.descriptor
          → Window binaries offset taken
          → taken ≢ []
          → (f.descriptor ++ f.payload) ++ beyond ≡ taken ++ later
          → Advanced f offset taken later
              (f.descriptor ++ f.payload)
              beyond
              (append_meta pb d binaries offset (length taken))
      meta_stage d binaries offset taken later beyond nothing unparsed sized w some_taken split =
          let unread : pb.meta_byte_size d.meta ≡ 0 = rw unparsed law.empty_size in
          elim (append_cases f.descriptor taken
            (sym (append_assoc f.descriptor f.payload beyond) ∙ split)) [
              | inl (t, ne, front, back) ↦
                  paused (with_binaries d (d.payload_binaries ++ taken)) (t ++ f.payload)
                    (rw (front, append_assoc)) (rw append_assoc back)
                    (rw (Window-take_all w) at (
                      append_meta_short d binaries offset (length taken) w.room pb unread
                        (length-pos taken some_taken)
                        (omega (
                          arith,
                          ap length nothing,
                          ap length front,
                          length-append taken t,
                          length-pos t ne,
                        ))))
                    (in_meta t refl (record {
                      sized = sized;
                      unparsed = unparsed;
                      descriptor = rw nothing front;
                      more = ne;
                    }))
              | inr (e, front, back) ↦
                  rw
                    (append_meta_whole d binaries offset (length taken) w.room pb unread nothing
                      (omega (arith, is.described))
                      (omega (arith, ap length front, length-append f.descriptor e)))
                    (parse_stage f pb is d binaries offset taken later beyond e nothing sized w
                      front back)
            ]

      -- The size is complete: the call goes on with the metadata, if it has more bytes.
      sized_stage :
          (d : RpcData M) (binaries : List ℕ) (offset : ℕ) (extra later beyond : List ℕ)
          → d.payload_binaries ≡ []
          → d.meta ≡ empty_meta
          → d.meta_size ≡ length f.descriptor
          → Window binaries offset extra
          → (f.descriptor ++ f.payload) ++ beyond ≡ extra ++ later
          → Advanced f offset extra later (f.descriptor ++ f.payload) beyond (
              if length extra == 0
              then ok (d, some offset)
              else append_meta pb d binaries offset (length extra))
      sized_stage d binaries offset extra later beyond nothing unparsed sized w split =
          elim (list_cases extra) [
            | inl none_left ↦
                let n : offset ≡ offset + length extra = omega (arith, ap length none_left) in
                let test : (length extra == 0) ≡ true = ground (arith, ap length none_left) in
                rw test (
                  paused d (f.descriptor ++ f.payload) (rw none_left) (rw none_left at (sym split))
                    (ap (λ (k : ℕ). ok (d, some k)) n)
                    (in_meta f.descriptor refl (record {
                      sized = sized;
                      unparsed = unparsed;
                      descriptor = rw nothing;
                      more = ne_nil_of_length f.descriptor is.described;
                    })))
            | inr some_left ↦
                let test : (length extra == 0) ≡ false =
                  ground (arith, length-pos extra some_left) in
                rw test (
                  meta_stage d binaries offset extra later beyond nothing unparsed sized w some_left
                    split)
          ]

      -- What the four bytes stand for, once they are there.
      size_read :
          (got rest extra : List ℕ)
          → to_big_endian (length f.descriptor) ≡ got ++ rest
          → (from_big_endian (got ++ rest) ≡ length f.descriptor)
            × ((from_big_endian (rest ++ extra) ≡ length f.descriptor) ⊎ (0 < length got))
      size_read got rest extra e = (
        (rw (← e, ← append-nil (to_big_endian (length f.descriptor)))
            (from_big_endian-to_big_endian (length f.descriptor) [] is.small)),
        elim (list_cases got) [
          | inl nothing ↦ inl (
              rw (e, nothing) at
                (from_big_endian-to_big_endian (length f.descriptor) extra is.small))
          | inr kept ↦ inr (length-pos got kept)
        ],
      )

      size_stage :
          (d : RpcData M) (taken later rest beyond : List ℕ)
          → InSize f d rest
          → taken ≢ []
          → (rest ++ (f.descriptor ++ f.payload)) ++ beyond ≡ taken ++ later
          → Advanced f 0 taken later
              (rest ++ (f.descriptor ++ f.payload))
              beyond
              (append_binaries pb d taken (length taken))
      size_stage d taken later rest beyond p some_taken split =
          elim (append_cases rest taken
            (sym (append_assoc rest (f.descriptor ++ f.payload) beyond) ∙ split)) [
              | inl (t, ne, front, back) ↦
                  let z : 0 + length taken ≡ length taken = omega arith in
                  paused (with_binaries d (d.payload_binaries ++ taken))
                    (t ++ (f.descriptor ++ f.payload)) (rw (front, append_assoc))
                    (rw append_assoc back)
                    (rw z (
                      rw (take-length (length taken) taken (omega arith)) at (
                        append_binaries_short pb d taken (length taken) (omega arith) p.unsized
                          (length-pos taken some_taken)
                          (omega (
                            arith,
                            four,
                            ap length front,
                            length-append taken t,
                            length-pos t ne,
                          )))))
                    (in_size t refl (record {
                      unsized = p.unsized;
                      unparsed = p.unparsed;
                      size = rw (append_assoc, ← front) p.size;
                      more = ne;
                    }))
              | inr (e, front, back) ↦
                  let read = size_read d.payload_binaries rest e p.size in
                  let left : length taken - length rest ≡ length e =
                    omega (arith, ap length front, length-append rest e) in
                  let cut : take (length rest) taken ≡ rest =
                    rw front (take-append_self (length rest) rest e refl) in
                  let sized_d = record d {
                    meta_size = length f.descriptor;
                    payload_binaries = [];
                  } in
                  rw
                    (
                      append_binaries_sized pb d taken (length taken) (omega arith) (length rest)
                          (length f.descriptor) p.unsized (length-pos rest p.more) four
                          (omega (arith, ap length front, length-append rest e)) is.described
                          (rw front read.1) (rw cut read.0),
                      left,
                    )
                    (Advanced-behind f 0 (length rest) rest (omega arith) front (
                      sized_stage sized_d taken (length rest) e later beyond refl p.unparsed refl
                        (record {
                          seen = rw front (drop-append_self (length rest) rest e refl);
                          room = omega (arith, ap length front, length-append rest e);
                        })
                        back))
            ]
        where
          four : length d.payload_binaries + length rest ≡ 4
          four = omega (
            arith,
            ap length p.size,
            length-append d.payload_binaries rest,
            length-to_big_endian (length f.descriptor),
          )

      -- `AppendBinaries` on the next bytes of a stream, one at least, given to an object that holds
      -- what came of a frame before, with no part of the metadata put aside: it takes all of them
      -- and holds more of the frame, or takes what was missing and no byte of what follows, and then
      -- has the metadata and the payload of the frame.
      pub append_binaries-Advanced :
          (d : RpcData M) {remaining : List ℕ} (taken later beyond : List ℕ)
          → Holds f d remaining
          → IsReady f d
          → taken ≢ []
          → remaining ++ beyond ≡ taken ++ later
          → Advanced f 0 taken later remaining beyond (append_binaries pb d taken (length taken))
      append_binaries-Advanced d taken later beyond (in_size rest e p) ready some_taken split =
          rw e (size_stage d taken later rest beyond p some_taken (rw e at split))
      append_binaries-Advanced d taken later beyond (in_meta rest e p) ready some_taken split =
          let nothing : d.payload_binaries ≡ [] =
            ready (omega (arith, p.sized, is.described)) p.unparsed in
          let whole : rest ≡ f.descriptor = sym (rw nothing at p.descriptor) in
          rw
            (
              e,
              whole,
              append_binaries_past pb d taken (length taken) (omega arith)
                  (omega (arith, p.sized, is.described)),
            )
            (meta_stage d taken 0 taken later beyond nothing p.unparsed p.sized (whole-Window taken)
              some_taken (rw (e, whole) at split))
      append_binaries-Advanced d taken later beyond (in_payload rest e p) ready some_taken split =
          let read : pb.meta_byte_size d.meta ≢ 0 =
            rw p.parsed (law.parsed_size f.descriptor f.meta is.parses) in
          rw
            (
              e,
              append_binaries_past pb d taken (length taken) (omega arith)
                  (omega (arith, p.sized, is.described)),
              append_meta_past pb d taken (length taken) (omega arith) 0 read,
            )
            (payload_stage f d taken 0 taken later rest beyond p is.measured (whole-Window taken)
              some_taken (rw e at split))
