-- ===== src/Protocol/Message/Refine.antt =====
-- Any number of RPCMetaData objects (rpc/detail/protocol/rpc.pb.h, rpc.pb.cc), and calls of their
-- methods in any order: the objects are the metadata of `Meta`.
use gboost_rpc.Base.{
  ℕ, ◌≡◌, refl, sym, ap, subst, ◌==◌, if◌then◌else◌, Bool-cases, inl, inr, false, none, List, [],
  ◌∷◌, Outcome, ok, fatal, ◌>>=◌, arith, ==_refl,
}
use gboost_rpc.Protocol.{Meta, empty_meta}
use gboost_rpc.Protocol.Wire.{
  WireFormat, set_seq, set_service_id, set_method_id, set_message_length, merge_from, copy_from,
  copy_from_lem,
}
use gboost_rpc.Protocol.Message.{
  Message, Messages, new_message, put_seq, put_service_id, put_method_id, put_message_length,
  clear_seq, clear_service_id, clear_method_id, clear_message_length, clear_message, byte_size,
  assign, merge, merge_at, copy_at, swap_at,
}
use gboost_rpc.Protocol.Message.Represents.{
  Represents, new_message-Represents, clear_message-Represents, put_seq-Represents,
  clear_seq-Represents, put_service_id-Represents, clear_service_id-Represents,
  put_method_id-Represents, clear_method_id-Represents, put_message_length-Represents,
  clear_message_length-Represents,
}
use gboost_rpc.Protocol.Message.Merge.{merge-Represents, Observed, Represents-Observed}

-- A call of a method of the object at an address: what is set or cleared of one field, `Clear`,
-- `ByteSize`, and `MergeFrom`, `CopyFrom` and `Swap` with the object at another.
pub data MethodCall : Type 0 where
  sets_seq : (this value : ℕ) → MethodCall
  sets_service_id : (this value : ℕ) → MethodCall
  sets_method_id : (this value : ℕ) → MethodCall
  sets_message_length : (this value : ℕ) → MethodCall
  clears_seq : (this : ℕ) → MethodCall
  clears_service_id : (this : ℕ) → MethodCall
  clears_method_id : (this : ℕ) → MethodCall
  clears_message_length : (this : ℕ) → MethodCall
  clears sizes : (this : ℕ) → MethodCall
  merges copies swaps : (this other : ℕ) → MethodCall

-- The calls on the objects.
abbrev pub call_method_of : WireFormat → MethodCall → Messages → Outcome Messages
call_method_of w (sets_seq a v) s = ok (assign a (put_seq v (s a)) s)
call_method_of w (sets_service_id a v) s = ok (assign a (put_service_id v (s a)) s)
call_method_of w (sets_method_id a v) s = ok (assign a (put_method_id v (s a)) s)
call_method_of w (sets_message_length a v) s = ok (assign a (put_message_length v (s a)) s)
call_method_of w (clears_seq a) s = ok (assign a (clear_seq (s a)) s)
call_method_of w (clears_service_id a) s = ok (assign a (clear_service_id (s a)) s)
call_method_of w (clears_method_id a) s = ok (assign a (clear_method_id (s a)) s)
call_method_of w (clears_message_length a) s = ok (assign a (clear_message_length (s a)) s)
call_method_of w (clears a) s = ok (assign a (clear_message (s a)) s)
call_method_of w (sizes a) s = ok (assign a (byte_size w (s a)) s)
call_method_of w (merges a b) s = merge_at a b s
call_method_of w (copies a b) s = copy_at a b s
call_method_of w (swaps a b) s = ok (swap_at a b s)

-- The calls on the values that the objects stand for. A copy is the value of the other object, a
-- swap exchanges two values, and an object cannot be merged into itself.
abbrev pub call_of_value : MethodCall → (ℕ → Meta) → Outcome (ℕ → Meta)
call_of_value (sets_seq a v) t = ok (assign a (set_seq (t a) v) t)
call_of_value (sets_service_id a v) t = ok (assign a (set_service_id (t a) v) t)
call_of_value (sets_method_id a v) t = ok (assign a (set_method_id (t a) v) t)
call_of_value (sets_message_length a v) t = ok (assign a (set_message_length (t a) v) t)
call_of_value (clears_seq a) t = ok (assign a (record (t a) { seq = none }) t)
call_of_value (clears_service_id a) t = ok (assign a (record (t a) { service_id = none }) t)
call_of_value (clears_method_id a) t = ok (assign a (record (t a) { method_id = none }) t)
call_of_value (clears_message_length a) t = ok (assign a (record (t a) { message_length = none }) t)
call_of_value (clears a) t = ok (assign a empty_meta t)
call_of_value (sizes a) t = ok t
call_of_value (merges a b) t = if b == a then fatal else ok (assign a (merge_from (t a) (t b)) t)
call_of_value (copies a b) t = ok (assign a (t b) t)
call_of_value (swaps a b) t = ok (λ c. if c == a then t b else if c == b then t a else t c)

abbrev pub all_calls : {S : Type 0} → (MethodCall → S → Outcome S) → List MethodCall → S → Outcome S
all_calls run [] s = ok s
all_calls run (c ∷ cs) s = run c s >>= all_calls run cs

-- Both stop the process, or both return, and every object is read as its value.
pub data Agrees (w : WireFormat) : Outcome Messages → Outcome (ℕ → Meta) → Type 0 where
  both_stop : Agrees w fatal fatal
  both_return :
      {s : Messages} {t : ℕ → Meta} → ((a : ℕ) → Observed w (s a) (t a)) → Agrees w (ok s) (ok t)

abbrev AllRepresent : Messages → (ℕ → Meta) → Type 0
AllRepresent s t = (a : ℕ) → Represents (s a) (t a)

-- A call that both stop at, or that keeps what the objects stand for.
data CallAgrees : Outcome Messages → Outcome (ℕ → Meta) → Type 0 where
  stop : CallAgrees fatal fatal
  return : {s : Messages} {t : ℕ → Meta} → AllRepresent s t → CallAgrees (ok s) (ok t)

module _ (s : Messages) (t : ℕ → Meta) (r : AllRepresent s t) where
  assign-AllRepresent :
      (a : ℕ) (x : Message) (m : Meta) → Represents x m → AllRepresent (assign a x s) (assign a m t)
  assign-AllRepresent a x m q b = elim (Bool-cases (b == a)) [
    | inl same ↦ rw same q
    | inr other ↦ rw other (r b)
  ]

  byte_size-Represents : (w : WireFormat) (a : ℕ) → Represents (byte_size w (s a)) (t a)
  byte_size-Represents w a = record {
    small = (r a).small;
    seq_held = (r a).seq_held;
    service_id_held = (r a).service_id_held;
    method_id_held = (r a).method_id_held;
    message_length_held = (r a).message_length_held;
    unknown_held = (r a).unknown_held;
  }

  sized-AllRepresent : (w : WireFormat) (a : ℕ) → AllRepresent (assign a (byte_size w (s a)) s) t
  sized-AllRepresent w a b = elim (Bool-cases (b == a)) [
    | inl same ↦
        let e : b ≡ a = ground arith in
        rw same
          (subst (λ c. Represents (byte_size w (s a)) (t c)) (sym e) (byte_size-Represents w a))
    | inr other ↦ rw other (r b)
  ]

  swapped_same : (a b c : ℕ) → b ≡ a → t c ≡ (if c == a then t b else if c == b then t a else t c)
  swapped_same a b c e = elim (Bool-cases (c == a)) [
    | inl at_a ↦ let e' : c ≡ b = ground (arith, e, at_a) in rw at_a (ap t e')
    | inr not_a ↦ let not_b : (c == b) ≡ false = ground (arith, e, not_a) in rw (not_a, not_b) refl
  ]

  swap_at-AllRepresent :
      (a b : ℕ)
      → AllRepresent (swap_at a b s) (λ c. if c == a then t b else if c == b then t a else t c)
  unfolding swap_at
  swap_at-AllRepresent a b c = elim (Bool-cases (b == a)) [
    | inl same ↦
        let e : b ≡ a = ground arith in
        rw same (subst (λ m. Represents (s c) m) (swapped_same a b c e) (r c))
    | inr other ↦ elim (Bool-cases (c == b)) [
      | inl at_b ↦
          let not_a : (c == a) ≡ false = ground (arith, other, at_b) in
          rw (other, not_a, at_b) (r a)
      | inr not_b ↦ elim (Bool-cases (c == a)) [
        | inl at_a ↦ rw (other, at_a, not_b) (r b)
        | inr not_a ↦ rw (other, not_a, not_b) (r c)
      ]
    ]
  ]

  merge_at-CallAgrees :
      (a b : ℕ)
      → CallAgrees
          (merge_at a b s)
          (if b == a then fatal else ok (assign a (merge_from (t a) (t b)) t))
  unfolding merge_at
  merge_at-CallAgrees a b = elim (Bool-cases (b == a)) [
    | inl same ↦ rw same stop
    | inr other ↦
        rw other (
          return (assign-AllRepresent a _ _ (merge-Represents (s b) (t b) (r b) (s a) (t a) (r a))))
  ]

  copied-AllRepresent : (a b : ℕ) → b ≡ a → AllRepresent s (assign a (t b) t)
  copied-AllRepresent a b e c = elim (Bool-cases (c == a)) [
    | inl at_a ↦
        let e' : c ≡ b = ground (arith, e, at_a) in
        rw at_a (subst (λ d. Represents (s c) (t d)) e' (r c))
    | inr not_a ↦ rw not_a (r c)
  ]

  assigned_twice :
      (a : ℕ) (x y : Message) (m : Meta)
      → Represents x m
      → AllRepresent (assign a x (assign a y s)) (assign a m t)
  assigned_twice a x y m q c = elim (Bool-cases (c == a)) [
    | inl at_a ↦ rw at_a q
    | inr not_a ↦ rw not_a (r c)
  ]

  copy_at-CallAgrees : (a b : ℕ) → CallAgrees (copy_at a b s) (ok (assign a (t b) t))
  unfolding copy_at merge_at copy_from
  copy_at-CallAgrees a b = elim (Bool-cases (b == a)) [
    | inl same ↦ let e : b ≡ a = ground arith in rw same (return (copied-AllRepresent a b e))
    | inr other ↦
        let q : Represents (merge (s b) (clear_message (s a))) (t b) =
          subst (λ m. Represents (merge (s b) (clear_message (s a))) m) (copy_from_lem (t a) (t b))
            (merge-Represents (s b) (t b) (r b) (clear_message (s a)) empty_meta
              (clear_message-Represents (s a))) in
        rw (other, ==_refl a) (return (assigned_twice a _ _ _ q))
  ]

call-CallAgrees :
    (w : WireFormat) (c : MethodCall) (s : Messages) (t : ℕ → Meta)
    → AllRepresent s t
    → CallAgrees (call_method_of w c s) (call_of_value c t)
call-CallAgrees w (sets_seq a v) s t r =
    return (assign-AllRepresent s t r a _ _ (put_seq-Represents (s a) (t a) (r a) v))
call-CallAgrees w (sets_service_id a v) s t r =
    return (assign-AllRepresent s t r a _ _ (put_service_id-Represents (s a) (t a) (r a) v))
call-CallAgrees w (sets_method_id a v) s t r =
    return (assign-AllRepresent s t r a _ _ (put_method_id-Represents (s a) (t a) (r a) v))
call-CallAgrees w (sets_message_length a v) s t r =
    return (assign-AllRepresent s t r a _ _ (put_message_length-Represents (s a) (t a) (r a) v))
call-CallAgrees w (clears_seq a) s t r =
    return (assign-AllRepresent s t r a _ _ (clear_seq-Represents (s a) (t a) (r a)))
call-CallAgrees w (clears_service_id a) s t r =
    return (assign-AllRepresent s t r a _ _ (clear_service_id-Represents (s a) (t a) (r a)))
call-CallAgrees w (clears_method_id a) s t r =
    return (assign-AllRepresent s t r a _ _ (clear_method_id-Represents (s a) (t a) (r a)))
call-CallAgrees w (clears_message_length a) s t r =
    return (assign-AllRepresent s t r a _ _ (clear_message_length-Represents (s a) (t a) (r a)))
call-CallAgrees w (clears a) s t r =
    return (assign-AllRepresent s t r a _ _ (clear_message-Represents (s a)))
call-CallAgrees w (sizes a) s t r = return (sized-AllRepresent s t r w a)
call-CallAgrees w (merges a b) s t r = merge_at-CallAgrees s t r a b
call-CallAgrees w (copies a b) s t r = copy_at-CallAgrees s t r a b
call-CallAgrees w (swaps a b) s t r = return (swap_at-AllRepresent s t r a b)

then-Agrees :
    (w : WireFormat) (cs : List MethodCall) (o : Outcome Messages) (p : Outcome (ℕ → Meta))
    → ((s : Messages) (t : ℕ → Meta)
        → AllRepresent s t
        → Agrees w (all_calls (call_method_of w) cs s) (all_calls call_of_value cs t))
    → CallAgrees o p
    → Agrees w (o >>= all_calls (call_method_of w) cs) (p >>= all_calls call_of_value cs)
then-Agrees w cs _ _ next stop = both_stop
then-Agrees w cs _ _ next (return {s} {t} r) = next s t r

all_calls-Agrees :
    (w : WireFormat) (cs : List MethodCall) (s : Messages) (t : ℕ → Meta)
    → AllRepresent s t
    → Agrees w (all_calls (call_method_of w) cs s) (all_calls call_of_value cs t)
all_calls-Agrees w [] s t r = both_return (λ a. Represents-Observed w (s a) (t a) (r a))
all_calls-Agrees w (c ∷ cs) s t r =
    then-Agrees w cs _ _ (all_calls-Agrees w cs) (call-CallAgrees w c s t r)

-- After any calls of the methods of new objects, of which none merges an object into itself: every
-- member of every object reads as the field of the value that the calls make, 0 where it is unset,
-- and so do the unknown fields; `IsInitialized`, `ByteSize` and the serialisation of the object are
-- those of the value. A call that merges an object into itself stops the process.
pub new_messages-Agrees :
    (w : WireFormat) (cs : List MethodCall)
    → Agrees w
        (all_calls (call_method_of w) cs (λ a. new_message))
        (all_calls call_of_value cs (λ a. empty_meta))
new_messages-Agrees w cs = all_calls-Agrees w cs _ _ (λ a. new_message-Represents)
