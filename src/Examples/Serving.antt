-- ===== src/Examples/Serving.antt =====
-- A server with one service, and a dispatcher with room for one channel.
use gboost_rpc.Base.{
  ℕ, ◌≡◌, refl, false, true, none, some, List, [], ◌∷◌, map, length, arith, ok, if◌then◌else◌, ◌==◌,
}
use gboost_rpc.Protocol.{get_seq}
use gboost_rpc.RpcData.{RpcData, new_data}
use gboost_rpc.RpcData.Outgoing.{Serialized}
use gboost_rpc.Heap.{Heap, store}
use gboost_rpc.RpcChannel.{new_channel}
use gboost_rpc.RpcChannel.Write.{send_in_loop}
use gboost_rpc.Server.{Server, send_response, Accepting}
use gboost_rpc.Server.Services.{Added, add_service_lem, send_response-Serialized, response_meta}
use gboost_rpc.Server.RoundRobin.{Listening, started, turn}
use gboost_rpc.Server.{accept_started}
use gboost_rpc.Server.Running.{new_server, init, new_server-turn}
use gboost_rpc.Dispatcher.{Counts, Dispatcher, new_dispatcher}
use gboost_rpc.Dispatcher.{start_channel_in_loop}
use gboost_rpc.Base.Assoc.{insert}
use gboost_rpc.Dispatcher.{set_count}
use gboost_rpc.Dispatcher.Lifetime.{
  Channels, with_held, held_started, no_channels, ChannelStep, make, start, here, next, Usable,
  no_channels-Usable,
}
use gboost_rpc.Base.{◌+◌, ◌*◌, Option, Bool, true, false}
use gboost_rpc.Dispatcher.Pool.{Kept}
use gboost_rpc.Examples.Codec.{codec, codec-IsProtobuf, meta_of}

abbrev pub no_service : Server
no_service = record { service_pool = []; networkers = 100 ∷ 200 ∷ []; i_selected = 1 }

abbrev name_hash : List ℕ → ℕ
name_hash name = length name

abbrev full_name : ℕ → List ℕ
full_name service = 69 ∷ 99 ∷ 104 ∷ 111 ∷ []

add_service_lem_example : Added name_hash full_name no_service 70 tt
add_service_lem_example = add_service_lem name_hash full_name no_service 70 tt

abbrev pub one_service : Server
one_service = record no_service { service_pool = (4, 70) ∷ [] }

abbrev pub num_methods : ℕ → ℕ
num_methods service = 2

abbrev pub request_1 : RpcData (List ℕ)
request_1 = record new_data {
  meta = meta_of 3 4 1 2 [];
  payload_binaries = 9 ∷ 8 ∷ [];
  meta_size = 4;
}

abbrev no_objects : Heap (List ℕ)
no_objects = λ b. none

send_response-Serialized_example :
    (d : RpcData (List ℕ)) × (z : Serialized codec
      (response_meta codec (meta_of 3 4 1 2 []) (6 ∷ []))
      (6 ∷ [])
      d)
    × (send_response codec new_channel no_objects 8 (meta_of 3 4 1 2 []) (6 ∷ [])
        ≡ send_in_loop codec new_channel (store no_objects 8 (some d)) 8)
    × (get_seq z.frame.meta ≡ 3)
send_response-Serialized_example =
    send_response-Serialized codec-IsProtobuf new_channel no_objects 8 (3 ∷ 4 ∷ 1 ∷ 2 ∷ [])
      (meta_of 3 4 1 2 []) (6 ∷ []) refl (omega arith)

abbrev two_dispatchers : ℕ → ℕ
two_dispatchers i = 100 + 100 * i

abbrev address_size : List ℕ → Option ℕ
address_size ip = some (length ip)

abbrev any_listens : ℕ → ℕ → Bool
any_listens address port = true

new_server-turn_example :
    (s s' : Server) × (dispatcher : ℕ) × (actions : List Accepting) × (new_server two_dispatchers 2
      ≡ ok s)
    × (init address_size any_listens s [] 8080 ≡ ok (s', accept_started dispatcher ∷ [], true))
    × Listening s' dispatcher (false ∷ true ∷ false ∷ []) actions
    × (map some (started actions) ≡ map (turn s.networkers) (0 ∷ 2 ∷ []))
new_server-turn_example =
    new_server-turn two_dispatchers 2 address_size any_listens [] 8080 0 (false ∷ true ∷ false ∷ [])
      (omega arith) refl refl

-- The channel 40 is held by its caller.
abbrev holds_40 : ℕ → ℕ
holds_40 b = if b == 40 then 1 else 0

abbrev counts_40 : Counts
counts_40 = λ b. if b == 40 then some 1 else none

empty-Kept : Kept holds_40 (new_dispatcher 1) counts_40
empty-Kept = record {
  pool = record { sorted = tt; bounded = omega arith };
  counted = λ b. ground arith;
}

-- And by the pool.
abbrev pool_40 : Dispatcher
pool_40 = record (new_dispatcher 1) { channel_pool = (40, 40) ∷ [] }

abbrev twice_40 : Counts
twice_40 = λ b. if b == 40 then some 2 else none

full-Kept : Kept holds_40 pool_40 twice_40
full-Kept = record {
  pool = record { sorted = (omega arith, tt); bounded = omega arith };
  counted = λ b. ground arith;
}

abbrev made_40 : Channels
made_40 = record (no_channels 1) {
  counts = set_count (λ b. none) 40 (some 1);
  held = with_held (λ b. 0) 40 1;
}

abbrev started_40 : Channels
started_40 = record {
  dispatcher = pool_40;
  counts = set_count (set_count made_40.counts 40 (some 2)) 40 (some 3);
  held = held_started made_40 40;
}

starts_40 : ChannelStep made_40 started_40
unfolding start_channel_in_loop insert
starts_40 = start 40 refl (omega arith) refl

no_channels-Usable_example : Usable started_40
no_channels-Usable_example = no_channels-Usable 1 (next (next here (make 40 refl)) starts_40)
