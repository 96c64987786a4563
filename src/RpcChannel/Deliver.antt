-- ===== src/RpcChannel/Deliver.antt =====
-- The loop of ReadInLoop (rpc/detail/rpc_channel.cc) on a stream of frames.
use gboost_rpc.Base.{
  ℕ, zero, suc, ◌+◌, ◌-◌, ◌≤◌, ◌<◌, ◌≡◌, ◌≢◌, refl, sym, ap, leb, true, false, Option, none, some,
  List, [], ◌∷◌, ◌++◌, map, length, All, drop, length-append, drop-length, drop-append_self, arith,
  ok, Outcome, length-pos, ne_nil_of_length,
}
use gboost_rpc.Protocol.{Protobuf, IsProtobuf, get_message_length}
use gboost_rpc.RpcData.{RpcData, new_data, append_binaries, partial}
use gboost_rpc.RpcData.Bytes.{to_big_endian, length-to_big_endian}
use gboost_rpc.RpcData.Phases.{
  Frame, encode, IsFrame, Holds, in_size, in_meta, in_payload, IsComplete, IsReady, Advanced,
  paused, finished,
}
use gboost_rpc.RpcData.Cases.{append_binaries-Advanced}
use gboost_rpc.RpcChannel.{read_loop, or_new}
use gboost_rpc.RpcChannel.Stream.{stream, carried, content, Waiting, between, inside}

module _ {M : Type 0} {pb : Protobuf M} (law : IsProtobuf pb) (f : Frame) (is : IsFrame pb f) where
  partial-Holds : {d : RpcData M} {tail : List ℕ} → Holds f d tail → partial pb d ≡ ok true
  unfolding partial
  partial-Holds {d} (in_size rest e p) =
      let n : pb.meta_byte_size d.meta ≡ 0 = rw p.unparsed law.empty_size in rw n
  partial-Holds {d} (in_meta rest e p) =
      let n : pb.meta_byte_size d.meta ≡ 0 = rw p.unparsed law.empty_size in rw n
  partial-Holds {d} (in_payload rest e p) =
      let n : pb.meta_byte_size d.meta ≢ 0 =
        rw p.parsed (law.parsed_size f.descriptor f.meta is.parses) in
      let lt : length d.payload_binaries < get_message_length d.meta = omega (
        arith,
        ap length p.payload,
        length-append d.payload_binaries rest,
        is.measured,
        ap get_message_length p.parsed,
        length-pos rest p.more,
      ) in
      ground arith

  partial-IsComplete : {d : RpcData M} → IsComplete f d → partial pb d ≡ ok false
  unfolding partial
  partial-IsComplete {d} p =
      let n : pb.meta_byte_size d.meta ≢ 0 =
        rw p.parsed (law.parsed_size f.descriptor f.meta is.parses) in
      let eq : length d.payload_binaries ≡ get_message_length d.meta =
        omega (arith, ap length p.whole, is.measured, ap get_message_length p.parsed) in
      ground arith

  -- A new message holds a frame of which everything is still to come.
  pub new_data-Holds : Holds f (new_data {M = M}) (encode f)
  new_data-Holds = in_size (to_big_endian (length f.descriptor)) refl (record {
    unsized = refl;
    unparsed = refl;
    size = refl;
    more = ne_nil_of_length _ (omega (arith, length-to_big_endian (length f.descriptor)));
  })

  pub Holds-pos : {d : RpcData M} {tail : List ℕ} → Holds f d tail → 0 < length tail
  Holds-pos (in_size rest e p) =
      omega
        (arith, ap length e, length-append rest (f.descriptor ++ f.payload), length-pos rest p.more)
  Holds-pos (in_meta rest e p) =
      omega (arith, ap length e, length-append rest f.payload, length-pos rest p.more)
  Holds-pos (in_payload rest e p) = omega (arith, ap length e, length-pos rest p.more)

-- What a read makes of the stream: it hands on the messages of the first frames.
pub record Progress {M : Type 0} (pb : Protobuf M) (fs : List Frame) (later : List ℕ)
    (result : Outcome (Option (RpcData M) × List (RpcData M))) : Type 0 where
  pub last : Option (RpcData M)
  pub messages : List (RpcData M)
  pub done : List Frame
  pub open_frames : List Frame
  pub frames : fs ≡ done ++ open_frames
  pub returns : result ≡ ok (last, messages)
  pub delivered : map carried messages ≡ map content done
  pub place : Waiting pb later last open_frames

module _ {M : Type 0} (pb : Protobuf M) (fuel : ℕ) (message : Option (RpcData M)) (b : ℕ)
    (bs : List ℕ) (d : RpcData M) (n : ℕ)
    (took : append_binaries pb (or_new message) (b ∷ bs) (length (b ∷ bs)) ≡ ok (d, some n)) where
  read_loop_more :
      n ≡ length (b ∷ bs)
      → partial pb d ≡ ok true
      → read_loop pb (suc fuel) message (b ∷ bs) ≡ ok (some d, [])
  unfolding read_loop
  read_loop_more all more =
      let a : leb n (length (b ∷ bs)) ≡ true = ground arith in
      let e : length (b ∷ bs) - n ≡ 0 = omega arith in
      rw (took, a, more, e, drop-length n (b ∷ bs) (omega arith))

  read_loop_done :
      (extra : List ℕ) {last : Option (RpcData M)} {messages : List (RpcData M)}
      → n ≤ length (b ∷ bs)
      → partial pb d ≡ ok false
      → drop n (b ∷ bs) ≡ extra
      → read_loop pb fuel none extra ≡ ok (last, messages)
      → read_loop pb (suc fuel) message (b ∷ bs) ≡ ok (last, d ∷ messages)
  unfolding read_loop
  read_loop_done extra some_bytes done left next =
      let a : leb n (length (b ∷ bs)) ≡ true = ground arith in rw (took, a, done, left, next)

-- The partial message of a read that starts holds no part of a metadata.
abbrev pub ReadyAt : {M : Type 0} → Option (RpcData M) → List Frame → Type 0
ReadyAt none fs = Unit
ReadyAt (some d) [] = Unit
ReadyAt (some d) (f ∷ fs) = IsReady f d

module _ {M : Type 0} {pb : Protobuf M} (law : IsProtobuf pb) where
  frame_step :
      (f : Frame) (fs : List Frame) (fuel : ℕ) (message : Option (RpcData M)) (b : ℕ)
      (bs later remaining : List ℕ)
      → IsFrame pb f
      → Holds f (or_new message) remaining
      → length (b ∷ bs) ≤ suc fuel
      → ((extra : List ℕ)
          → stream fs ≡ extra ++ later
          → length extra ≤ fuel
          → Progress pb fs later (read_loop pb fuel none extra))
      → Advanced f 0
          (b ∷ bs)
          later
          remaining
          (stream fs)
          (append_binaries pb (or_new message) (b ∷ bs) (length (b ∷ bs)))
      → Progress pb (f ∷ fs) later (read_loop pb (suc fuel) message (b ∷ bs))
  frame_step f fs fuel message b bs later remaining is h room next (paused d tail cut back r p) =
      record {
        last = some d;
        messages = [];
        done = [];
        open_frames = f ∷ fs;
        frames = refl;
        returns =
            read_loop_more pb fuel message b bs d _ r (omega arith) (partial-Holds law f is p);
        delivered = refl;
        place = inside tail back p;
      }
  frame_step f fs fuel message b bs later remaining is h room next (finished d extra cut back r p) =
      let n : length (b ∷ bs) ≡ length remaining + length extra =
        omega (arith, ap length cut, length-append remaining extra) in
      let rest = next extra back (omega (arith, Holds-pos law f is h)) in
      let left : drop (0 + length remaining) (b ∷ bs) ≡ extra =
        rw cut (drop-append_self (0 + length remaining) remaining extra (omega arith)) in
      record {
        last = rest.last;
        messages = d ∷ rest.messages;
        done = f ∷ rest.done;
        open_frames = rest.open_frames;
        frames = ap (λ t. f ∷ t) rest.frames;
        returns =
            read_loop_done pb fuel message b bs d _ r extra (omega arith)
              (partial-IsComplete law f is p) left rest.returns;
        delivered = rw (rest.delivered, p.parsed, p.whole);
        place = rest.place;
      }

  pub read_loop-Progress :
      (fuel : ℕ) {message : Option (RpcData M)} (bytes later : List ℕ) {fs : List Frame}
      → All (IsFrame pb) fs
      → Waiting pb (bytes ++ later) message fs
      → ReadyAt message fs
      → length bytes ≤ fuel
      → Progress pb fs later (read_loop pb fuel message bytes)
  unfolding read_loop
  read_loop-Progress fuel {message} [] later {fs} are place ready room = record {
    last = message;
    messages = [];
    done = [];
    open_frames = fs;
    frames = refl;
    returns = refl;
    delivered = refl;
    place = place;
  }
  read_loop-Progress zero (b ∷ bs) later are place ready room = absurd (omega arith)
  read_loop-Progress (suc fuel) (b ∷ bs) later {fs = []} are (between e) ready room = cc
  read_loop-Progress (suc fuel) (b ∷ bs) later {fs = f ∷ fs} are (between e) ready room =
      frame_step f fs fuel none b bs later (encode f) are.0 (new_data-Holds law f are.0) room
        (λ extra back fits. read_loop-Progress fuel extra later are.1 (between (sym back)) tt fits)
        (append_binaries-Advanced f pb are.0 law new_data (b ∷ bs) later (stream fs)
          (new_data-Holds law f are.0) (λ sized. absurd (sized refl)) (λ q. cc) (sym e))
  read_loop-Progress (suc fuel) (b ∷ bs) later are (inside {f} {fs} {d} tail e p) ready room =
      frame_step f fs fuel (some d) b bs later tail are.0 p room
        (λ extra back fits. read_loop-Progress fuel extra later are.1 (between (sym back)) tt fits)
        (append_binaries-Advanced f pb are.0 law d (b ∷ bs) later (stream fs) p ready (λ q. cc)
          (sym e))
