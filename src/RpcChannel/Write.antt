-- ===== src/RpcChannel/Write.antt =====
-- The sending half of rpc/detail/rpc_channel.h and rpc_channel.cc. ServerRPCChannel
-- (rpc/detail/server_rpc_channel.cc) deletes a message once it is sent; a ClientRPCChannel leaves it to
-- its session.
use gboost_rpc.Base.{
  ℕ, ◌==◌, ltb, if◌then◌else◌, Bool, false, some, List, [], ◌∷◌, ◌++◌, length, Outcome, ok, ◌>>=◌,
  ◌>>◌, check,
}
use gboost_rpc.Protocol.{Protobuf}
use gboost_rpc.RpcData.{Buffer, null, held, deleted, get_buffer}
use gboost_rpc.Heap.{Heap, load, store, delete}
use gboost_rpc.RpcChannel.{RpcChannel, Action, write_started}

pub data Side : Type 0 where
  client server : Side

-- `boost::asio::buffer_size`
abbrev pub buffer_size : Buffer → ℕ
buffer_size null = 0
buffer_size (held bytes) = length bytes
buffer_size deleted = 0

-- A handler's result: the channel, the objects, and what it sets off.
abbrev pub Sending : Type 0 → Type 0
Sending M = Outcome (RpcChannel M × Heap M × List (Action M))

module _ {M : Type 0} where
  -- `RecycleRPCData`
  unfoldable pub recycle_rpc_data : Side → Heap M → ℕ → Outcome (Heap M)
  recycle_rpc_data client h a = ok h
  recycle_rpc_data server h a = delete h a

  -- `ClearPendingPackages`
  unfoldable pub clear_pending_packages : Side → List ℕ → Heap M → Outcome (Heap M)
  unfolding recycle_rpc_data
  clear_pending_packages side [] h = ok h
  clear_pending_packages side (a ∷ pending) h = do
    h' ← recycle_rpc_data side h a
    clear_pending_packages side pending h'

  -- `RebuildSocket`. The partial message stays.
  unfoldable pub rebuild_socket : Side → RpcChannel M → Heap M → Outcome (RpcChannel M × Heap M)
  unfolding clear_pending_packages
  rebuild_socket side c h = do
    h' ← clear_pending_packages side c.pending h
    ok (record c { pending = []; closed_by_peer = false }, h')

  module _ (pb : Protobuf M) where
    -- `WriteInLoop`
    unfoldable pub write_in_loop : RpcChannel M → Heap M → Sending M
    unfolding get_buffer
    write_in_loop c h = elim c.pending [
      | [] ↦ ok (c, h, [])
      | a ∷ rest ↦ do
        d ← load h a
        if d.is_pending then ok (c, h, []) else (do
          (d', buffer) ← get_buffer pb d
          check (ltb 0 (buffer_size buffer))
          ok (c, store h a (some d'), write_started buffer ∷ []))
    ]

    -- `SendInLoop`
    unfoldable pub send_in_loop : RpcChannel M → Heap M → ℕ → Sending M
    unfolding write_in_loop
    send_in_loop c h a = write_in_loop (record c { pending = c.pending ++ (a ∷ []) }) h

    -- `Written`
    unfoldable pub written : Side → RpcChannel M → Heap M → Bool → ℕ → Sending M
    unfolding write_in_loop recycle_rpc_data
    written side c h error bytes_transferred =
        if error
        then ok (c, h, [])
        else (check (ltb 0 bytes_transferred) >> elim c.pending [
          | [] ↦ ok (c, h, [])
          | a ∷ rest ↦ do
            d ← load h a
            check d.is_pending
            (d', buffer) ← get_buffer pb d
            check (bytes_transferred == buffer_size buffer)
            h' ← recycle_rpc_data side (store h a (some d')) a
            write_in_loop (record c { pending = rest }) h'
        ])
