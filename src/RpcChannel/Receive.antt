-- ===== src/RpcChannel/Receive.antt =====
-- The reads of one connection by ReadInLoop (rpc/detail/rpc_channel.cc), one after the other.
use mathlib.Core.List.{flatten, map-append}
use gboost_rpc.Base.{
  ℕ, ◌+◌, ◌≡◌, refl, ap, ◌∙◌, ltb, false, Option, none, List, [], ◌∷◌, ◌++◌, map, length, All,
  length-append, arith, ok, length-pos, ◌⊎◌, inl, inr, list_cases,
}
use gboost_rpc.Protocol.{Meta, Protobuf, IsProtobuf}
use gboost_rpc.RpcData.{RpcData}
use gboost_rpc.RpcData.Phases.{Frame, encode, IsFrame, Holds, in_size, in_meta, in_payload, IsReady}
use gboost_rpc.RpcChannel.{
  RpcChannel, Action, received, cancelled, read_started, write_started, shut_down, read_loop,
  read_in_loop, receive,
}
use gboost_rpc.RpcChannel.Stream.{
  stream, splits_meta, IsAligned, carried, content, Waiting, between, inside,
}
use gboost_rpc.RpcChannel.Deliver.{ReadyAt, read_loop-Progress, new_data-Holds, Holds-pos}

-- What `receiver_` was given, in order.
abbrev pub deliveries : {M : Type 0} → List (Action M) → List (Meta × List ℕ)
deliveries [] = []
deliveries (received d ∷ actions) = carried d ∷ deliveries actions
deliveries (cancelled ∷ actions) = deliveries actions
deliveries (read_started ∷ actions) = deliveries actions
deliveries (write_started b ∷ actions) = deliveries actions
deliveries (shut_down ∷ actions) = deliveries actions

deliveries-received :
    {M : Type 0} (messages : List (RpcData M)) (others : List (Action M))
    → deliveries ((map received messages ++ read_started ∷ []) ++ others)
      ≡ map carried messages ++ deliveries others
deliveries-received [] others = refl
deliveries-received (d ∷ messages) others =
    ap (λ t. carried d ∷ t) (deliveries-received messages others)

splits_meta_append :
    (done fs : List Frame) (left : ℕ)
    → splits_meta (done ++ fs) left ≡ false
    → splits_meta fs left ≡ false
splits_meta_append [] fs left h = h
splits_meta_append (f ∷ done) fs left h = splits_meta_append done fs left (ground arith)

All-append_right : (P : Frame → Type 0) (xs ys : List Frame) → All P (xs ++ ys) → All P ys
All-append_right P [] ys h = h
All-append_right P (x ∷ xs) ys h = All-append_right P xs ys h.1

IsAligned-append_right :
    (done fs : List Frame) (reads : List (List ℕ))
    → IsAligned (done ++ fs) reads
    → IsAligned fs reads
IsAligned-append_right done fs [] h = tt
IsAligned-append_right done fs (r ∷ rs) (pos, whole, more) = (
  pos,
  splits_meta_append done fs (length (flatten rs)) whole,
  IsAligned-append_right done fs rs more,
)

module _ {M : Type 0} {pb : Protobuf M} (law : IsProtobuf pb) where
  ready_inside :
      (f : Frame) (d : RpcData M) (tail : List ℕ) (behind : ℕ)
      → IsFrame pb f
      → Holds f d tail
      → (ltb (behind + length f.payload) (length tail + behind) ≡ false)
        ⊎ (ltb (length tail + behind) (behind + length f.payload + length f.descriptor) ≡ false)
      → IsReady f d
  ready_inside f d tail behind is (in_size rest e p) whole sized unparsed = absurd (sized p.unsized)
  ready_inside f d tail behind is (in_meta rest e p) whole sized unparsed =
      elim (list_cases d.payload_binaries) [
        | inl nothing ↦ nothing
        | inr kept ↦ absurd (
            ground (
              arith,
              ap length e,
              length-append rest f.payload,
              ap length p.descriptor,
              length-append d.payload_binaries rest,
              length-pos rest p.more,
              length-pos d.payload_binaries kept,
            ))
      ]
  ready_inside f d tail behind is (in_payload rest e p) whole sized unparsed =
      absurd
        (law.parsed_size f.descriptor f.meta is.parses (rw (← p.parsed, unparsed) law.empty_size))

  -- At the end of an aligned read no part of a metadata is put aside.
  ready_at :
      {last : Option (RpcData M)} (left : List ℕ) {fs : List Frame}
      → All (IsFrame pb) fs
      → Waiting pb left last fs
      → splits_meta fs (length left) ≡ false
      → ReadyAt last fs
  ready_at left are (between e) whole = tt
  ready_at left are (inside {f} {fs} {d} tail e p) whole =
      let n : length left ≡ length tail + length (stream fs) =
        omega (arith, ap length e, length-append tail (stream fs)) in
      ready_inside f d tail (length (stream fs)) are.0 p (ground (arith))

  abbrev pub Delivers : RpcChannel M → List (List ℕ) → List (Meta × List ℕ) → Type 0
  Delivers c reads contents =
      (actions : List (Action M)) × (receive pb c reads
        ≡ ok (record c { partial_message = none }, actions))
      × (deliveries actions ≡ contents)

  ended :
      {message : Option (RpcData M)} {fs : List Frame}
      → All (IsFrame pb) fs
      → Waiting pb [] message fs
      → (message ≡ none) × (fs ≡ [])
  ended {fs = []} are (between e) = (refl, refl)
  ended {fs = f ∷ fs} are (between e) = absurd (
      ground (
        arith,
        new_data-Holds law f are.0,
        Holds-pos law f are.0 (new_data-Holds law f are.0),
        ap length e,
        length-append (encode f) (stream fs),
      ))
  ended are (inside {f} {fs} tail e p) =
      absurd (omega (arith, Holds-pos law f are.0 p, ap length e, length-append tail (stream fs)))

  read_in_loop_runs :
      (c : RpcChannel M) (r : List ℕ) {last : Option (RpcData M)} {messages : List (RpcData M)}
      → c.terminated ≡ false
      → read_loop pb (length r) c.partial_message r ≡ ok (last, messages)
      → read_in_loop pb c false r
        ≡ ok (record c { partial_message = last }, map received messages ++ read_started ∷ [])
  unfolding read_in_loop
  read_in_loop_runs c r running looped = ground arith

  receive_read :
      (c : RpcChannel M) (r : List ℕ) (rs : List (List ℕ)) {last : Option (RpcData M)}
      {messages : List (RpcData M)} {contents : List (Meta × List ℕ)}
      → c.terminated ≡ false
      → read_loop pb (length r) c.partial_message r ≡ ok (last, messages)
      → Delivers (record c { partial_message = last }) rs contents
      → Delivers c (r ∷ rs) (map carried messages ++ contents)
  unfolding receive
  receive_read c r rs {last} {messages} running looped (actions, got, given) = (
    (map received messages ++ read_started ∷ []) ++ actions,
    rw (read_in_loop_runs c r running looped, got),
    rw (deliveries-received messages actions, given),
  )

  pub receive-Delivers :
      (c : RpcChannel M) (reads : List (List ℕ)) (fs : List Frame) (message : Option (RpcData M))
      → c.partial_message ≡ message
      → All (IsFrame pb) fs
      → c.terminated ≡ false
      → Waiting pb (flatten reads) message fs
      → ReadyAt message fs
      → IsAligned fs reads
      → Delivers c reads (map content fs)
  unfolding receive flatten
  receive-Delivers c [] fs message here are running place ready aligned =
      let (a, b) = ended are place in
      ([], ap (λ m. ok (record c { partial_message = m }, [])) (here ∙ a), rw b)
  receive-Delivers c (r ∷ rs) fs message here are running place ready (pos, whole, aligned) =
      let p = read_loop-Progress law (length r) r (flatten rs) are place ready (omega arith) in
      let are' = All-append_right (IsFrame pb) p.done p.open_frames (rw p.frames at are) in
      let whole' =
        splits_meta_append p.done p.open_frames (length (flatten rs)) (rw p.frames at whole) in
      let aligned' = IsAligned-append_right p.done p.open_frames rs (rw p.frames at aligned) in
      let rest =
        receive-Delivers (record c { partial_message = p.last }) rs p.open_frames p.last refl are'
          running p.place (ready_at (flatten rs) are' p.place whole') aligned' in
      rw (p.frames, map-append, ← p.delivered)
        (receive_read c r rs running (rw here p.returns) rest)
