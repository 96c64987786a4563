-- ===== src/RpcChannel.antt =====
-- rpc/detail/rpc_channel.h and rpc_channel.cc: a channel over one socket. The handlers run one at a
-- time in the loop of a dispatcher. A handler returns the new state and what it sets off, in order.
pub mod Stream
pub mod Deliver
pub mod Receive
pub mod Write
pub mod Queue
pub mod InOrder
pub mod History
pub mod Order
pub mod Total
pub mod Limits
pub mod Transfer
pub mod Split
use gboost_rpc.Base.{
  ℕ, zero, suc, ◌-◌, ◌==◌, leb, if◌then◌else◌, Bool, true, false, not, ◌||◌, Option, none, some,
  List, [], ◌∷◌, ◌++◌, map, length, drop, Outcome, ok, stuck, ◌>>=◌, ◌>>◌, check,
}
use gboost_rpc.Protocol.{Protobuf}
use gboost_rpc.RpcData.{RpcData, Buffer, new_data, append_binaries, partial}

-- `pending` holds pointers: an address names an RPCData of the heap.
pub record RpcChannel (M : Type 0) : Type 0 where
  pub partial_message : Option (RpcData M)
  pub pending : List ℕ
  pub closed_by_peer : Bool
  pub terminated : Bool

-- What a handler sets off: a call of `receiver_` or of `cancellation_`, `async_read_some`,
-- `async_write` of a buffer, `shutdown` of the socket.
pub data Action (M : Type 0) : Type 0 where
  received : RpcData M → Action M
  cancelled : Action M
  read_started : Action M
  write_started : Buffer → Action M
  shut_down : Action M

module _ {M : Type 0} where
  -- The constructors.
  abbrev pub new_channel : RpcChannel M
  new_channel = record {
    partial_message = none;
    pending = [];
    closed_by_peer = false;
    terminated = false;
  }

  abbrev pub or_new : Option (RpcData M) → RpcData M
  or_new none = new_data
  or_new (some d) = d

  -- `TerminateInLoop`
  unfoldable pub terminate_in_loop : RpcChannel M → RpcChannel M × List (Action M)
  terminate_in_loop c = (record c { terminated = true }, shut_down ∷ [])

  module _ (pb : Protobuf M) where
    -- The loop of `ReadInLoop` over the bytes that are left: the partial message behind it, and the
    -- messages that it handed to `receiver_`.
    unfoldable pub read_loop :
        ℕ → Option (RpcData M) → List ℕ → Outcome (Option (RpcData M) × List (RpcData M))
    read_loop fuel message [] = ok (message, [])
    read_loop zero message (b ∷ bs) = stuck
    read_loop (suc fuel) message (b ∷ bs) = do
      (d, handled) ← append_binaries pb (or_new message) (b ∷ bs) (length (b ∷ bs))
      elim handled [
        | none ↦ ok (none, [])
        | some n ↦ do
          check (leb n (length (b ∷ bs)))
          more ← partial pb d
          check (not more || length (b ∷ bs) - n == 0)
          (last, messages) ← read_loop fuel (if more then some d else none) (drop n (b ∷ bs))
          ok (last, if more then messages else d ∷ messages)
      ]

    -- `ReadInLoop`, with the bytes that were transferred. Each round takes a byte at least.
    unfoldable pub read_in_loop :
        RpcChannel M → Bool → List ℕ → Outcome (RpcChannel M × List (Action M))
    unfolding read_loop
    read_in_loop c error bytes =
        if c.terminated
        then ok (c, [])
        else if error
        then (if c.closed_by_peer
            then ok (c, [])
            else ok (record c { closed_by_peer = true }, cancelled ∷ []))
        else (do
          (last, messages) ← read_loop (length bytes) c.partial_message bytes
          ok (record c { partial_message = last }, map received messages ++ read_started ∷ []))

    -- The reads of a connection, one after the other.
    unfoldable pub receive : RpcChannel M → List (List ℕ) → Outcome (RpcChannel M × List (Action M))
    receive c [] = ok (c, [])
    receive c (bytes ∷ more) = do
      (c', actions) ← read_in_loop c false bytes
      (last, others) ← receive c' more
      ok (last, actions ++ others)
