-- ===== src/RpcData.antt =====
-- rpc/detail/rpc_data.h and rpc_data.cc: one message on the wire. A message goes as four bytes
-- with the size of its metadata in network order, the metadata, and the payload.
-- Bytes are numbers below 256. `int32` and `uint32` lengths are plain numbers: a read is bounded by
-- the channel's buffer, and every difference below stands behind the check that it is positive.
pub mod Bytes
pub mod Phases
pub mod Append
pub mod Stages
pub mod Cases
pub mod Outgoing
pub mod Limits
use gboost_rpc.Base.{
  ℕ, ◌+◌, ◌-◌, ◌%◌, ◌^◌, ◌==◌, ltb, leb, if◌then◌else◌, Bool, true, false, not, ◌&&◌, ◌||◌, Option,
  none, some, List, [], ◌∷◌, ◌++◌, length, take, drop, Outcome, ok, fatal, ◌>>=◌, ◌>>◌, check,
}
use gboost_rpc.Protocol.{Meta, empty_meta, get_message_length, Protobuf}
use Bytes.{to_big_endian, from_big_endian}

-- `buffer_`: no array, an array with its contents, or one that was deleted.
pub data Buffer : Type 0 where
  null : Buffer
  held : List ℕ → Buffer
  deleted : Buffer

-- `meta_` is never NULL: both constructors fill it. `owned` is a `resource_holder_` that is set.
pub record RpcData (M : Type 0) : Type 0 where
  pub owned : Bool
  pub meta : Meta
  pub payload_binaries : List ℕ
  pub meta_size : ℕ
  pub payload : Option M
  pub buffer : Buffer
  pub is_pending : Bool

abbrev pub num_meta_size_bytes : ℕ
num_meta_size_bytes = 4

abbrev pub is_empty : List ℕ → Bool
is_empty [] = true
is_empty (x ∷ xs) = false

-- `at(offset)` throws when nothing was appended.
abbrev pub fast_append : List ℕ → List ℕ → ℕ → Outcome (List ℕ)
fast_append buffer content size = if size == 0 then fatal else ok (buffer ++ take size content)

-- The result of `AppendBinaries`: the number of bytes that it took, `none` for -1.
abbrev pub Appended : Type 0 → Type 0
Appended M = Outcome (RpcData M × Option ℕ)

module _ {M : Type 0} where
  -- `RPCData()`
  abbrev pub new_data : RpcData M
  new_data = record {
    owned = false;
    meta = empty_meta;
    payload_binaries = [];
    meta_size = 0;
    payload = none;
    buffer = null;
    is_pending = false;
  }

  abbrev pub with_binaries : RpcData M → List ℕ → RpcData M
  with_binaries d bytes = record d { payload_binaries = bytes }

  -- `OwnMetaAndPayload`
  unfoldable pub own_meta_and_payload : RpcData M → Outcome (RpcData M)
  own_meta_and_payload d = check (not d.owned) >> ok (record d { owned = true })

  unfoldable pub clear_pending_state : RpcData M → RpcData M
  clear_pending_state d = record d { is_pending = false }

  -- `Clear`. The payload that the holder deletes is not looked at again.
  unfoldable pub clear : RpcData M → RpcData M
  clear d = record d {
    owned = false;
    meta = empty_meta;
    payload_binaries = [];
    meta_size = 0;
    is_pending = false;
  }

  -- The last part of `AppendBinaries`: bytes of the payload.
  unfoldable pub append_payload : RpcData M → List ℕ → ℕ → ℕ → Appended M
  append_payload d binaries offset len =
      let size = length d.payload_binaries in
      let wanted = get_message_length d.meta in
      let lacked = wanted - size in
      check (ltb size wanted)
      >> (if ltb len lacked
          then (do
            grown ← fast_append d.payload_binaries (drop offset binaries) len
            check (ltb (length grown) wanted)
            ok (with_binaries d grown, some (offset + len)))
          else (do
            grown ← fast_append d.payload_binaries (drop offset binaries) lacked
            check (length grown == wanted)
            ok (with_binaries d grown, some (offset + lacked))))

  module _ (pb : Protobuf M) where
    -- The metadata is complete: from the array itself, or from what was put aside.
    unfoldable pub parse_meta : RpcData M → List ℕ → ℕ → ℕ → ℕ → Appended M
    unfolding append_payload
    parse_meta d binaries offset lacked len =
        let bytes =
          if is_empty d.payload_binaries then drop offset binaries else d.payload_binaries in
        elim (pb.meta_from_array (take d.meta_size bytes)) [
          | none ↦ ok (d, none)
          | some m ↦
              let parsed = record d {
                meta = m;
                payload_binaries = if get_message_length m == 0 then d.payload_binaries else [];
              } in
              if len - lacked == 0 || get_message_length m == 0
              then ok (parsed, some (offset + lacked))
              else append_payload parsed binaries (offset + lacked) (len - lacked)
        ]

    -- The second part of `AppendBinaries`: bytes of the metadata.
    unfoldable pub append_meta : RpcData M → List ℕ → ℕ → ℕ → Appended M
    unfolding parse_meta append_payload
    append_meta d binaries offset len =
        let size = length d.payload_binaries in
        let lacked = d.meta_size - size in
        if pb.meta_byte_size d.meta == 0
        then (do
          check (ltb 0 d.meta_size)
          check (ltb size d.meta_size)
          if ltb len lacked
              then (do
                grown ← fast_append d.payload_binaries (drop offset binaries) len
                check (ltb (length grown) d.meta_size)
                ok (with_binaries d grown, some (offset + len)))
              else if is_empty d.payload_binaries
              then parse_meta d binaries offset lacked len
              else (do
                grown ← fast_append d.payload_binaries (drop offset binaries) lacked
                check (ltb (length grown) d.meta_size)
                parse_meta (with_binaries d grown) binaries (offset + len) lacked len))
        else append_payload d binaries offset len

    -- `AppendBinaries`, of the first `len` bytes of `binaries`.
    unfoldable pub append_binaries : RpcData M → List ℕ → ℕ → Appended M
    unfolding append_meta
    append_binaries d binaries len =
        let size = length d.payload_binaries in
        let lacked = num_meta_size_bytes - size in
        if d.meta_size == 0
        then (do
          check (ltb size num_meta_size_bytes)
          if ltb len lacked
              then (do
                grown ← fast_append d.payload_binaries binaries len
                ok (with_binaries d grown, some len))
              else (do
                grown ←
                    if is_empty d.payload_binaries
                    then ok []
                    else fast_append d.payload_binaries binaries lacked
                let meta_size = from_big_endian (if is_empty grown then binaries else grown)
                check (ltb 0 meta_size)
                let sized = record d { meta_size = meta_size; payload_binaries = [] }
                if len - lacked == 0
                    then ok (sized, some lacked)
                    else append_meta sized binaries lacked (len - lacked)))
        else append_meta d binaries 0 len

    -- `Partial`
    unfoldable pub partial : RpcData M → Outcome Bool
    partial d = if pb.meta_byte_size d.meta == 0 then ok true else (do
      check (leb (length d.payload_binaries) (get_message_length d.meta))
      ok (ltb (length d.payload_binaries) (get_message_length d.meta)))

    abbrev reserves : Buffer → ℕ → Bool
    reserves null size = false
    reserves (held bytes) size = leb size (length bytes)
    reserves deleted size = false

    -- A failed serialisation deletes the array that it wrote to, also one that `buffer_` holds.
    abbrev give_up : RpcData M → ℕ → RpcData M
    give_up d size = if reserves d.buffer size then record d { buffer = deleted } else d

    -- `ToBuffer`. `size` is a uint32.
    unfoldable pub to_buffer : RpcData M → Outcome (RpcData M)
    to_buffer d = elim d.payload [
      | none ↦ fatal
      | some x ↦
          let descriptor_size = pb.meta_byte_size d.meta in
          let message_size = pb.byte_size x in
          let size = (num_meta_size_bytes + descriptor_size + message_size) % 2 ^ 32 in
          elim (pb.meta_to_array d.meta descriptor_size) [
            | none ↦ ok (give_up d size)
            | some descriptor ↦ elim (pb.to_array x message_size) [
              | none ↦ ok (give_up d size)
              | some message ↦
                  let bytes = to_big_endian descriptor_size ++ (descriptor ++ message) in
                  ok (record d { buffer = held (take size bytes) })
            ]
          ]
    ]

    -- `RPCData(meta, payload)`
    unfoldable pub new_outgoing : Meta → M → Outcome (RpcData M)
    unfolding to_buffer
    new_outgoing m x = to_buffer (record new_data { meta = m; payload = some x })

    -- `GetBuffer`
    unfoldable pub get_buffer : RpcData M → Outcome (RpcData M × Buffer)
    unfolding to_buffer
    get_buffer d = do
      filled ← elim d.buffer [ null ↦ to_buffer d | held bytes ↦ ok d | deleted ↦ ok d ]
      ok (record filled { is_pending = true }, filled.buffer)
