-- ===== src/Server/Services.antt =====
-- The services of rpc/detail/rpc_server_impl.cc: AddService, GetService, CallMethod, SendResponse.
use gboost_rpc.Base.{
  ℕ, ◌+◌, ◌^◌, ◌<◌, ◌≡◌, refl, ap, ◌==◌, if◌then◌else◌, true, none, some, List, length, take,
  take-length, Option-cases, ◌⊎◌, inl, inr, ok, fatal, arith,
}
use gboost_rpc.Base.Assoc.{insert, IsAbove, lookup-insert, insert-new, insert_done, insert-IsAbove}
use gboost_rpc.Protocol.{
  Meta, Protobuf, IsProtobuf, get_seq, get_service_id, get_method_id, get_message_length,
}
use gboost_rpc.RpcData.{RpcData, own_meta_and_payload}
use gboost_rpc.RpcData.Outgoing.{IsSendable, Serialized, new_outgoing-Serialized}
use gboost_rpc.RpcChannel.{RpcChannel}
use gboost_rpc.RpcChannel.Write.{send_in_loop}
use gboost_rpc.Heap.{Heap, store}
use gboost_rpc.Session.{get_service_id_of}
use gboost_rpc.Server.{
  Server, add_service, get_service, dropped, called, call_method, send_response,
}

module _ (city_hash : List ℕ → ℕ) (full_name : ℕ → List ℕ) (s : Server) (service : ℕ)
    (sorted : IsAbove 0 s.service_pool) where
  abbrev id_of : ℕ
  id_of = get_service_id_of city_hash (full_name service)

  -- What `AddService` does: the id of the service is new, and then finds it, while every other id
  -- finds what it found before; or another service has the id, and the process stops.
  abbrev pub Added : Type 0
  Added =
      ((get_service s id_of ≡ none)
        × (s' : Server) × (add_service city_hash full_name s service ≡ ok s')
        × IsAbove 0 s'.service_pool
        × ((i : ℕ) → get_service s' i ≡ (if id_of == i then some service else get_service s i)))
      ⊎ ((other : ℕ) × (get_service s id_of ≡ some other)
          × (add_service city_hash full_name s service ≡ fatal))

  -- `AddService` of any service, on a pool in order: if no service has its id, the id finds it
  -- afterwards, every other id finds what it found before, and the pool is in order; if one has, also
  -- if it is the same one, the process stops.
  pub add_service_lem : Added
  unfolding add_service
  add_service_lem = elim (Option-cases (get_service s id_of)) [
    | inl new ↦ inl (
      new,
      record s { service_pool = (insert id_of service s.service_pool).0 },
      ground (arith, insert_done id_of service s.service_pool new),
      insert-IsAbove id_of 0 service s.service_pool (omega arith) sorted,
      λ i. lookup-insert id_of i 0 service s.service_pool sorted new,
    )
    | inr (other, found) ↦
        inr (other, found, ground (arith, insert-new id_of 0 service s.service_pool sorted))
  ]

module _ {M : Type 0} (pb : Protobuf M) (num_methods : ℕ → ℕ) (s : Server) where
  -- `CallMethod` of a message for a service and a method of the server, with a payload of the length
  -- that the metadata name: the method is called with the
  -- request that the payload parses to, and a payload that does not parse is dropped without a
  -- response.
  pub call_method_lem :
      (d : RpcData M) (service : ℕ)
      → get_service s (get_service_id d.meta) ≡ some service
      → get_method_id d.meta < num_methods service
      → get_message_length d.meta ≡ length d.payload_binaries
      → call_method pb num_methods s d
        ≡ ok (elim (pb.from_array d.payload_binaries) [
          | none ↦ dropped
          | some request ↦ called service (get_method_id d.meta) request d.meta
        ])
  unfolding call_method
  call_method_lem d service registered known whole =
      let t : take (get_message_length d.meta) d.payload_binaries ≡ d.payload_binaries =
        take-length (get_message_length d.meta) d.payload_binaries (omega (arith, whole)) in
      elim (Option-cases (pb.from_array d.payload_binaries)) [
        | inl bad ↦ ground (arith, bad, t)
        | inr (request, good) ↦ ground (arith, good, t)
      ]

  -- A message for a service that the server does not have.
  pub call_method_unregistered :
      (d : RpcData M)
      → get_service s (get_service_id d.meta) ≡ none
      → call_method pb num_methods s d ≡ fatal
  unfolding call_method
  call_method_unregistered d missing = ground arith

-- The metadata of the response to a request.
abbrev pub response_meta : {M : Type 0} → Protobuf M → Meta → M → Meta
response_meta pb m response = record m { message_length = some (pb.byte_size response) }

module _ {M : Type 0} {pb : Protobuf M} (law : IsProtobuf pb) where
  response_meta-IsSendable :
      (bytes : List ℕ) (m : Meta) (response : M)
      → pb.meta_from_array bytes ≡ some m
      → 4 + pb.meta_byte_size (response_meta pb m response) + pb.byte_size response < 2 ^ 32
      → IsSendable pb (response_meta pb m response) response
  response_meta-IsSendable bytes m response parses small =
      let (initialized, range) = law.parsed_fields bytes m parses in
      record {
        initialized = ground arith;
        writable = record {
          in_range = record {
            seq_fits = range.seq_fits;
            service_id_fits = range.service_id_fits;
            method_id_fits = range.method_id_fits;
            message_length_fits = λ v e. ground (arith, small, e);
          };
          unknown = inr (bytes, m, parses, refl);
        };
        measured = refl;
        small = small;
      }

  -- `SendResponse` to a request, of which the metadata were parsed, where the response fits in a frame:
  -- what it gives to `SendInLoop` is an object with a frame of which the payload parses to the
  -- response, and the metadata are those of the request with the length of the response, the
  -- sequence number among them.
  pub send_response-Serialized :
      (c : RpcChannel M) (h : Heap M) (fresh : ℕ) (bytes : List ℕ) (m : Meta) (response : M)
      → pb.meta_from_array bytes ≡ some m
      → 4 + pb.meta_byte_size (response_meta pb m response) + pb.byte_size response < 2 ^ 32
      → (d : RpcData M) × (z : Serialized pb (response_meta pb m response) response d)
        × (send_response pb c h fresh m response ≡ send_in_loop pb c (store h fresh (some d)) fresh)
        × (get_seq z.frame.meta ≡ get_seq m)
  unfolding send_response own_meta_and_payload
  send_response-Serialized c h fresh bytes m response parses small =
      let (d, made, z) =
        new_outgoing-Serialized law (response_meta pb m response) response
          (response_meta-IsSendable bytes m response parses small) in
      (
        record d { owned = true },
        record {
          frame = z.frame;
          tagged = z.tagged;
          framed = z.framed;
          loaded = z.loaded;
          written = z.written;
          idle = z.idle;
        },
        ground arith,
        ap get_seq z.tagged,
      )
