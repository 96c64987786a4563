-- ===== src/RpcChannel/Queue.antt =====
-- pending_ of rpc/detail/rpc_channel.h: the queue of messages to send, of which the first is written.
use gboost_rpc.Base.{
  ℕ, ◌<◌, ◌≡◌, refl, ap, ◌==◌, Bool, true, false, ◌||◌, Option, some, List, [], ◌∷◌, ◌++◌, length,
  ok, arith, ◌∙◌,
}
use gboost_rpc.Protocol.{Protobuf}
use gboost_rpc.RpcData.{RpcData, Buffer, held, get_buffer}
use gboost_rpc.Heap.{Heap, store, contains, AllDistinct}
use gboost_rpc.RpcChannel.{
  RpcChannel, Action, received, cancelled, read_started, write_started, shut_down,
}
use gboost_rpc.RpcChannel.Write.{write_in_loop}

-- A live object with a filled buffer; `flag` says whether it is being written.
pub record Queued {M : Type 0} (h : Heap M) (flag : Bool) (a : ℕ) (bytes : List ℕ) : Type 0 where
  pub object : RpcData M
  pub live : h a ≡ some object
  pub state : object.is_pending ≡ flag
  pub buffer : object.buffer ≡ held bytes
  pub filled : 0 < length bytes

-- The queue as addresses with the bytes to send.
abbrev pub Items : Type 0
Items = List (ℕ × List ℕ)

abbrev pub addresses : Items → List ℕ
addresses [] = []
addresses ((a, bytes) ∷ items) = a ∷ addresses items

abbrev pub AllWait : {M : Type 0} → Heap M → Items → Type 0
AllWait h [] = Unit
AllWait h ((a, bytes) ∷ items) = Queued h false a bytes × AllWait h items

abbrev pub FirstFlies : {M : Type 0} → Heap M → Items → Type 0
FirstFlies h [] = Unit
FirstFlies h ((a, bytes) ∷ items) = Queued h true a bytes × AllWait h items

pub record IsSending {M : Type 0} (c : RpcChannel M) (h : Heap M) (items : Items) : Type 0 where
  pub queue : c.pending ≡ addresses items
  pub distinct : AllDistinct (addresses items)
  pub states : FirstFlies h items

-- The buffers that were given to `async_write`.
abbrev pub writes : {M : Type 0} → List (Action M) → List Buffer
writes [] = []
writes (write_started b ∷ actions) = b ∷ writes actions
writes (received d ∷ actions) = writes actions
writes (cancelled ∷ actions) = writes actions
writes (read_started ∷ actions) = writes actions
writes (shut_down ∷ actions) = writes actions

pub addresses-append :
    (items others : Items) → addresses (items ++ others) ≡ addresses items ++ addresses others
addresses-append [] others = refl
addresses-append ((b, bytes) ∷ items) others = ap (λ t. b ∷ t) (addresses-append items others)

module _ {M : Type 0} where
  pub Queued-same :
      {h h' : Heap M} {flag : Bool} {a : ℕ} {bytes : List ℕ}
      → h' a ≡ h a
      → Queued h flag a bytes
      → Queued h' flag a bytes
  Queued-same e q = record {
    object = q.object;
    live = e ∙ q.live;
    state = q.state;
    buffer = q.buffer;
    filled = q.filled;
  }

  pub AllWait-same :
      {h h' : Heap M} (items : Items)
      → ((b : ℕ) → contains b (addresses items) ≡ true → h' b ≡ h b)
      → AllWait h items
      → AllWait h' items
  AllWait-same [] same w = tt
  AllWait-same ((a, bytes) ∷ items) same w = (
    Queued-same (same a (ground arith)) w.0,
    AllWait-same items (λ b i. same b (ground arith)) w.1,
  )

  pub AllWait-store :
      (h : Heap M) (items : Items) (a : ℕ) (o : Option (RpcData M))
      → contains a (addresses items) ≡ false
      → AllWait h items
      → AllWait (store h a o) items
  AllWait-store h items a o out w = AllWait-same items (λ b i. ground arith) w

  pub AllWait-append :
      {h : Heap M} (items : Items) {a : ℕ} {bytes : List ℕ}
      → AllWait h items
      → Queued h false a bytes
      → AllWait h (items ++ (a, bytes) ∷ [])
  AllWait-append [] w q = (q, tt)
  AllWait-append ((b, other) ∷ items) w q = (w.0, AllWait-append items w.1 q)

pub contains-append :
    (b : ℕ) (xs ys : List ℕ) → contains b (xs ++ ys) ≡ (contains b xs || contains b ys)
contains-append b [] ys = refl
contains-append b (x ∷ xs) ys = ground (arith, contains-append b xs ys)

-- Where a list has no address twice, its two parts share none.
pub AllDistinct-apart :
    (b : ℕ) (xs ys : List ℕ) → AllDistinct (xs ++ ys) → contains b ys ≡ true → contains b xs ≡ false
AllDistinct-apart b [] ys d i = refl
AllDistinct-apart b (x ∷ xs) ys d i =
    ground (arith, AllDistinct-apart b xs ys d.1, contains-append x xs ys)

==_comm : (a b : ℕ) → (a == b) ≡ (b == a)
==_comm a b = ground arith

pub AllDistinct-append :
    (xs : List ℕ) (a : ℕ) → AllDistinct xs → contains a xs ≡ false → AllDistinct (xs ++ a ∷ [])
AllDistinct-append [] a d out = (refl, tt)
AllDistinct-append (x ∷ xs) a d out = (
  ground (arith, contains-append x xs (a ∷ []), ==_comm x a),
  AllDistinct-append xs a d.1 (ground arith),
)

module _ {M : Type 0} (pb : Protobuf M) where
  -- An object that starts to be written.
  abbrev pub flying : RpcData M → RpcData M
  flying d = record d { is_pending = true }

  pub get_buffer-held :
      (d : RpcData M) {bytes : List ℕ}
      → d.buffer ≡ held bytes
      → get_buffer pb d ≡ ok (flying d, held bytes)
  unfolding get_buffer
  get_buffer-held d e = ground arith

  -- `WriteInLoop` with a first message that waits starts to write it.
  pub write_first :
      (c : RpcChannel M) (h : Heap M) (a : ℕ) (rest : List ℕ) {bytes : List ℕ}
      → c.pending ≡ a ∷ rest
      → (q : Queued h false a bytes)
      → write_in_loop pb c h
        ≡ ok (c, store h a (some (flying q.object)), write_started (held bytes) ∷ [])
  unfolding write_in_loop
  write_first c h a rest {bytes} e q = ground (arith, get_buffer-held q.object q.buffer)

  pub write_again :
      (c : RpcChannel M) (h : Heap M) (a : ℕ) (rest : List ℕ) {bytes : List ℕ}
      → c.pending ≡ a ∷ rest
      → Queued h true a bytes
      → write_in_loop pb c h ≡ ok (c, h, [])
  unfolding write_in_loop
  write_again c h a rest e q = ground arith

pub FirstFlies-same :
    {M : Type 0} {h h' : Heap M} (items : Items)
    → ((b : ℕ) → contains b (addresses items) ≡ true → h' b ≡ h b)
    → FirstFlies h items
    → FirstFlies h' items
FirstFlies-same [] same f = tt
FirstFlies-same ((a, bytes) ∷ items) same f =
    (Queued-same (same a (ground arith)) f.0, AllWait-same items (λ b i. same b (ground arith)) f.1)

-- Changes to other objects do not matter to a queue.
pub IsSending-same :
    {M : Type 0} {c : RpcChannel M} {h h' : Heap M} {items : Items}
    → ((b : ℕ) → contains b (addresses items) ≡ true → h' b ≡ h b)
    → IsSending c h items
    → IsSending c h' items
IsSending-same {items} same s = record {
  queue = s.queue;
  distinct = s.distinct;
  states = FirstFlies-same items same s.states;
}

pub IsSending-store :
    {M : Type 0} {c : RpcChannel M} {h : Heap M} {items : Items} (a : ℕ) (o : Option (RpcData M))
    → contains a (addresses items) ≡ false
    → IsSending c h items
    → IsSending c (store h a o) items
IsSending-store a o out s = IsSending-same (λ b i. ground arith) s

pub writes-append :
    {M : Type 0} (xs ys : List (Action M)) → writes (xs ++ ys) ≡ writes xs ++ writes ys
writes-append [] ys = refl
writes-append (write_started b ∷ xs) ys = ap (λ t. b ∷ t) (writes-append xs ys)
writes-append (received d ∷ xs) ys = writes-append xs ys
writes-append (cancelled ∷ xs) ys = writes-append xs ys
writes-append (read_started ∷ xs) ys = writes-append xs ys
writes-append (shut_down ∷ xs) ys = writes-append xs ys
