-- ===== src/RpcData/Outgoing.antt =====
-- ToBuffer of rpc/detail/rpc_data.cc, as a frame.
use gboost_rpc.Base.{
  ℕ, ◌+◌, ◌%◌, ◌^◌, ◌<◌, ◌≡◌, refl, sym, ap, ◌∙◌, true, false, some, List, ◌++◌, length, take,
  length-append, take-length, ok, arith,
}
use gboost_rpc.Protocol.{Meta, is_initialized, get_message_length, Protobuf, IsProtobuf, IsWritable}
use gboost_rpc.RpcData.{RpcData, new_data, held, new_outgoing}
use gboost_rpc.RpcData.Bytes.{to_big_endian, length-to_big_endian}
use gboost_rpc.RpcData.Phases.{Frame, encode, IsFrame}

-- The metadata has its fields, in range, it names the length of the message, and all fits in 32 bits.
pub record IsSendable {M : Type 0} (pb : Protobuf M) (m : Meta) (x : M) : Type 0 where
  pub initialized : is_initialized m ≡ true
  pub writable : IsWritable pb m
  pub measured : get_message_length m ≡ pb.byte_size x
  pub small : 4 + pb.meta_byte_size m + pb.byte_size x < 2 ^ 32

-- The frame of a message, and the object that holds it.
pub record Serialized {M : Type 0} (pb : Protobuf M) (m : Meta) (x : M) (d : RpcData M)
    : Type 0 where
  pub frame : Frame
  pub tagged : frame.meta ≡ m
  pub framed : IsFrame pb frame
  pub loaded : pb.from_array frame.payload ≡ some x
  pub written : d.buffer ≡ held (encode frame)
  pub idle : d.is_pending ≡ false

module _ {M : Type 0} {pb : Protobuf M} (law : IsProtobuf pb) (m : Meta) (x : M)
    (fits : IsSendable pb m x) where
  frame_of : Frame
  frame_of = record {
    meta = m;
    descriptor = (law.meta_round_trip m fits.initialized fits.writable).0;
    payload = (law.round_trip x).0;
  }

  abbrev outgoing : RpcData M
  outgoing = record new_data { meta = m; payload = some x; buffer = held (encode frame_of) }

  length-encode : length (encode frame_of) ≡ 4 + pb.meta_byte_size m + pb.byte_size x
  unfolding frame_of
  length-encode =
      let (descriptor, a, b, c) = law.meta_round_trip m fits.initialized fits.writable in
      let (payload, p, q, r) = law.round_trip x in
      omega (
        arith,
        length-append (to_big_endian (length descriptor)) (descriptor ++ payload),
        length-append descriptor payload,
        length-to_big_endian (length descriptor),
      )

  -- A serialisation that succeeds fills the buffer.
  to_buffer_fills :
      (descriptor payload : List ℕ)
      → pb.meta_to_array m (pb.meta_byte_size m) ≡ some descriptor
      → pb.to_array x (pb.byte_size x) ≡ some payload
      → new_outgoing pb m x
        ≡ ok (record new_data {
          meta = m;
          payload = some x;
          buffer = held (
              take
                ((4 + pb.meta_byte_size m + pb.byte_size x) % 2 ^ 32)
                (to_big_endian (pb.meta_byte_size m) ++ (descriptor ++ payload)));
        })
  unfolding new_outgoing
  to_buffer_fills descriptor payload a p = ground arith

  new_outgoing-outgoing : new_outgoing pb m x ≡ ok outgoing
  unfolding frame_of
  new_outgoing-outgoing =
      let (descriptor, a, b, c) = law.meta_round_trip m fits.initialized fits.writable in
      let (payload, p, q, r) = law.round_trip x in
      let size = (4 + pb.meta_byte_size m + pb.byte_size x) % 2 ^ 32 in
      let whole : take size (encode frame_of) ≡ encode frame_of =
        take-length size (encode frame_of) (omega (arith, fits.small, length-encode)) in
      to_buffer_fills descriptor payload a p
      ∙ ap (λ (bytes : List ℕ). ok (record outgoing { buffer = held bytes }))
          (ap (λ (n : ℕ). take size (to_big_endian n ++ (descriptor ++ payload))) (sym b) ∙ whole)

  -- `RPCData(meta, payload)` of initialised metadata in range, without unknown fields or with those of
  -- a parse, that name the length of the payload, both in
  -- less than 2 ^ 32 bytes with the size: its buffer is a frame with these metadata, of which the
  -- payload parses to the message, and it is not pending.
  pub new_outgoing-Serialized : (d : RpcData M) × (new_outgoing pb m x ≡ ok d) × Serialized pb m x d
  unfolding frame_of
  new_outgoing-Serialized =
      let (descriptor, a, b, c) = law.meta_round_trip m fits.initialized fits.writable in
      let (payload, p, q, r) = law.round_trip x in
      (
        outgoing,
        new_outgoing-outgoing,
        record {
          frame = frame_of;
          tagged = refl;
          framed = record {
            parses = c;
            described = ground (arith, law.parsed_size descriptor m c);
            small = omega (arith, fits.small);
            measured = fits.measured ∙ sym q;
          };
          loaded = r;
          written = refl;
          idle = refl;
        },
      )
