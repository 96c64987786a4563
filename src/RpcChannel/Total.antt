-- ===== src/RpcChannel/Total.antt =====
-- The loop of ReadInLoop (rpc/detail/rpc_channel.cc), its fuel, and its branch for errors.
use gboost_rpc.Base.{
  ℕ, zero, suc, ◌+◌, ◌-◌, ◌≤◌, ◌<◌, ◌≡◌, ◌≢◌, refl, leb, ltb, lt→ltb, ◌==◌, if◌then◌else◌, Bool,
  true, false, not, ◌||◌, Option, none, some, List, [], ◌∷◌, length, ◌++◌, take, drop, length-drop,
  Option-cases, inl, inr, arith, Outcome, ok, fatal, stuck, ◌>>=◌, ◌>>◌, check,
}
use gboost_rpc.Protocol.{Protobuf}
use gboost_rpc.RpcData.{
  RpcData, Appended, is_empty, append_binaries, append_meta, append_payload, parse_meta, partial,
}
use gboost_rpc.RpcData.Bytes.{from_big_endian}
use gboost_rpc.RpcChannel.{RpcChannel, read_loop, read_in_loop, or_new}

-- A call of `AppendBinaries` that takes bytes takes one at least.
abbrev pub moves : {M : Type 0} → Appended M → Bool
moves (ok (d, none)) = true
moves (ok (d, some n)) = ltb 0 n
moves fatal = true
moves stuck = false

moves_taken :
    {M : Type 0} {m : Appended M} (r : RpcData M × Option ℕ)
    → m ≡ ok r
    → (n : ℕ) → r.1 ≡ some n
    → moves m ≡ true
    → 0 < n
moves_taken (d, none) e n f h = absurd cc
moves_taken (d, some k) e n f h = ground (arith, e, f, h)

abbrev stops : {A : Type 0} → Outcome A → Bool
stops (ok a) = true
stops fatal = true
stops stuck = false

stops-bind :
    {A B : Type 0} (m : Outcome A) (k : A → Outcome B)
    → stops m ≡ true
    → ((a : A) → m ≡ ok a → stops (k a) ≡ true)
    → stops (m >>= k) ≡ true
stops-bind (ok a) k h next = next a refl
stops-bind fatal k h next = refl
stops-bind stuck k h next = h

stops-check : {B : Type 0} (b : Bool) (m : Outcome B) → stops m ≡ true → stops (check b >> m) ≡ true
stops-check true m h = h
stops-check false m h = refl

module _ {M : Type 0} (pb : Protobuf M) where
  append_payload-moves :
      (d : RpcData M) (bytes : List ℕ) (offset len : ℕ)
      → 0 < len
      → moves (append_payload d bytes offset len) ≡ true
  unfolding append_payload
  append_payload-moves d bytes offset len pos = ground arith

  parse_meta-moves :
      (d : RpcData M) (bytes : List ℕ) (offset lacked len : ℕ)
      → 0 < lacked
      → lacked ≤ len
      → moves (parse_meta pb d bytes offset lacked len) ≡ true
  unfolding parse_meta
  parse_meta-moves d bytes offset lacked len pos fits =
      grind (arith, append_payload-moves, lt→ltb 0 (offset + lacked))

  append_meta-moves :
      (d : RpcData M) (bytes : List ℕ) (offset len : ℕ)
      → 0 < len
      → moves (append_meta pb d bytes offset len) ≡ true
  unfolding append_meta
  append_meta-moves d bytes offset len pos =
      grind (arith, append_payload-moves, parse_meta-moves, lt→ltb 0 (offset + len))

  moves-sized :
      (d : RpcData M) (bytes grown : List ℕ) (lacked len : ℕ)
      → 0 < lacked
      → moves (
          check (ltb 0 (from_big_endian (if is_empty grown then bytes else grown)))
          >> (if len - lacked == 0
              then ok (
                record d {
                  meta_size = from_big_endian (if is_empty grown then bytes else grown);
                  payload_binaries = [];
                },
                some lacked,
              )
              else append_meta pb
                  (record d {
                    meta_size = from_big_endian (if is_empty grown then bytes else grown);
                    payload_binaries = [];
                  })
                  bytes
                  lacked
                  (len - lacked)))
        ≡ true
  moves-sized d bytes grown lacked len pos =
      let sized = record d {
        meta_size = from_big_endian (if is_empty grown then bytes else grown);
        payload_binaries = [];
      } in
      ground (arith, append_meta-moves sized bytes lacked (len - lacked))

  pub append_binaries-moves :
      (d : RpcData M) (bytes : List ℕ) (len : ℕ)
      → 0 < len
      → moves (append_binaries pb d bytes len) ≡ true
  unfolding append_binaries
  append_binaries-moves d bytes len pos =
      let lacked = 4 - length d.payload_binaries in
      ground (
        arith,
        append_meta-moves d bytes 0 len,
        moves-sized d bytes [] lacked len,
        moves-sized d bytes (d.payload_binaries ++ take lacked bytes) lacked len,
      )

  partial-stops : (d : RpcData M) → stops (partial pb d) ≡ true
  unfolding partial
  partial-stops d = ground arith

  read_loop-stops :
      (fuel : ℕ) (message : Option (RpcData M)) (bytes : List ℕ)
      → length bytes ≤ fuel
      → stops (read_loop pb fuel message bytes) ≡ true
  unfolding read_loop
  read_loop-stops fuel message [] enough = refl
  read_loop-stops zero message (b ∷ bs) enough = absurd (omega (arith, enough))
  read_loop-stops (suc fuel) message (b ∷ bs) enough =
      let moved = append_binaries-moves (or_new message) (b ∷ bs) (length (b ∷ bs)) (omega arith) in
      stops-bind (append_binaries pb (or_new message) (b ∷ bs) (length (b ∷ bs))) _ (ground arith)
        λ r e. elim (Option-cases r.1) [
          | inl bad ↦ rw bad refl
          | inr (n, good) ↦ rw good (
              stops-check (leb n (length (b ∷ bs))) _ (
                stops-bind (partial pb r.0) _ (partial-stops r.0) λ more p.
                  stops-check (not more || length (b ∷ bs) - n == 0) _ (
                    stops-bind
                      (read_loop pb fuel (if more then some r.0 else none) (drop n (b ∷ bs))) _
                      (read_loop-stops fuel (if more then some r.0 else none) (drop n (b ∷ bs)) (
                        omega
                          (arith, enough, moves_taken r e n good moved, length-drop n (b ∷ bs))))
                      λ l q. refl)))
        ]

-- `ReadInLoop` ends for every state of the channel and every read: the loop over the bytes never
-- runs out of its fuel, the number of the bytes.
pub read_in_loop_total :
    {M : Type 0} (pb : Protobuf M) (c : RpcChannel M) (error : Bool) (bytes : List ℕ)
    → read_in_loop pb c error bytes ≢ stuck
unfolding read_in_loop
read_in_loop_total pb c error bytes e =
    absurd (ground (arith, e, read_loop-stops pb (length bytes) c.partial_message bytes))
