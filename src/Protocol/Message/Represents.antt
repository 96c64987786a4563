-- ===== src/Protocol/Message/Represents.antt =====
-- The members of an RPCMetaData (rpc/detail/protocol/rpc.pb.h, rpc.pb.cc) and the fields that they
-- stand for.
use gboost_rpc.Base.{
  ℕ, ◌<◌, ◌≡◌, refl, sym, subst, if◌then◌else◌, Bool, true, false, Option, none, some, arith,
}
use gboost_rpc.Protocol.{Meta, empty_meta}
use gboost_rpc.Protocol.Wire.{set_seq, set_service_id, set_method_id, set_message_length}
use gboost_rpc.Protocol.Message.{
  Message, new_message, has_seq, has_service_id, has_method_id, has_message_length, put_seq,
  put_service_id, put_method_id, put_message_length, clear_seq, clear_service_id, clear_method_id,
  clear_message_length, clear_message,
}
use gboost_rpc.Protocol.Message.Bits.{has_bit-set_bit, has_bit-clear_bit, bits_small}

-- A member holds the value of its field if the bit is set; else the member is 0.
pub record IsField (bit : Bool) (value : ℕ) (field : Option ℕ) : Type 0 where
  pub shown : field ≡ (if bit then some value else none)
  pub else_zero : bit ≡ false → value ≡ 0

pub record Represents (x : Message) (m : Meta) : Type 0 where
  pub small : x.has_bits < 16
  pub seq_held : IsField (has_seq x) x.seq_ m.seq
  pub service_id_held : IsField (has_service_id x) x.service_id_ m.service_id
  pub method_id_held : IsField (has_method_id x) x.method_id_ m.method_id
  pub message_length_held : IsField (has_message_length x) x.message_length_ m.message_length
  pub unknown_held : m.unknown_fields ≡ x.unknown

pub new_message-Represents : Represents new_message empty_meta
new_message-Represents = record {
  small = omega arith;
  seq_held = record { shown = refl; else_zero = λ e. refl };
  service_id_held = record { shown = refl; else_zero = λ e. refl };
  method_id_held = record { shown = refl; else_zero = λ e. refl };
  message_length_held = record { shown = refl; else_zero = λ e. refl };
  unknown_held = refl;
}

IsField-as :
    (bit bit' : Bool) (value : ℕ) (field : Option ℕ)
    → bit' ≡ bit
    → IsField bit value field
    → IsField bit' value field
IsField-as bit bit' value field e f = subst (λ b. IsField b value field) (sym e) f

IsField-set : (bit : Bool) (value : ℕ) → bit ≡ true → IsField bit value (some value)
IsField-set bit value e = record { shown = ground (arith, e); else_zero = λ no_bit. absurd cc }

IsField-unset : (bit : Bool) → bit ≡ false → IsField bit 0 none
IsField-unset bit e = record { shown = ground (arith, e); else_zero = λ no_bit. refl }

module _ (x : Message) (m : Meta) (r : Represents x m) where
  pub put_seq-Represents : (v : ℕ) → Represents (put_seq v x) (set_seq m v)
  put_seq-Represents v = record {
    small = (bits_small x.has_bits r.small 1 refl).0;
    seq_held = IsField-set _ v (has_bit-set_bit x.has_bits r.small 1 1 refl refl);
    service_id_held =
        IsField-as _ _ _ _ (has_bit-set_bit x.has_bits r.small 1 2 refl refl) r.service_id_held;
    method_id_held =
        IsField-as _ _ _ _ (has_bit-set_bit x.has_bits r.small 1 4 refl refl) r.method_id_held;
    message_length_held =
        IsField-as _ _ _ _ (has_bit-set_bit x.has_bits r.small 1 8 refl refl) r.message_length_held;
    unknown_held = r.unknown_held;
  }

  pub clear_seq-Represents : Represents (clear_seq x) (record m { seq = none })
  clear_seq-Represents = record {
    small = (bits_small x.has_bits r.small 1 refl).1;
    seq_held = IsField-unset _ (has_bit-clear_bit x.has_bits r.small 1 1 refl refl);
    service_id_held =
        IsField-as _ _ _ _ (has_bit-clear_bit x.has_bits r.small 1 2 refl refl) r.service_id_held;
    method_id_held =
        IsField-as _ _ _ _ (has_bit-clear_bit x.has_bits r.small 1 4 refl refl) r.method_id_held;
    message_length_held =
        IsField-as _ _ _ _ (has_bit-clear_bit x.has_bits r.small 1 8 refl refl)
          r.message_length_held;
    unknown_held = r.unknown_held;
  }

  pub put_service_id-Represents : (v : ℕ) → Represents (put_service_id v x) (set_service_id m v)
  put_service_id-Represents v = record {
    small = (bits_small x.has_bits r.small 2 refl).0;
    seq_held = IsField-as _ _ _ _ (has_bit-set_bit x.has_bits r.small 2 1 refl refl) r.seq_held;
    service_id_held = IsField-set _ v (has_bit-set_bit x.has_bits r.small 2 2 refl refl);
    method_id_held =
        IsField-as _ _ _ _ (has_bit-set_bit x.has_bits r.small 2 4 refl refl) r.method_id_held;
    message_length_held =
        IsField-as _ _ _ _ (has_bit-set_bit x.has_bits r.small 2 8 refl refl) r.message_length_held;
    unknown_held = r.unknown_held;
  }

  pub clear_service_id-Represents : Represents (clear_service_id x) (record m { service_id = none })
  clear_service_id-Represents = record {
    small = (bits_small x.has_bits r.small 2 refl).1;
    seq_held = IsField-as _ _ _ _ (has_bit-clear_bit x.has_bits r.small 2 1 refl refl) r.seq_held;
    service_id_held = IsField-unset _ (has_bit-clear_bit x.has_bits r.small 2 2 refl refl);
    method_id_held =
        IsField-as _ _ _ _ (has_bit-clear_bit x.has_bits r.small 2 4 refl refl) r.method_id_held;
    message_length_held =
        IsField-as _ _ _ _ (has_bit-clear_bit x.has_bits r.small 2 8 refl refl)
          r.message_length_held;
    unknown_held = r.unknown_held;
  }

  pub put_method_id-Represents : (v : ℕ) → Represents (put_method_id v x) (set_method_id m v)
  put_method_id-Represents v = record {
    small = (bits_small x.has_bits r.small 4 refl).0;
    seq_held = IsField-as _ _ _ _ (has_bit-set_bit x.has_bits r.small 4 1 refl refl) r.seq_held;
    service_id_held =
        IsField-as _ _ _ _ (has_bit-set_bit x.has_bits r.small 4 2 refl refl) r.service_id_held;
    method_id_held = IsField-set _ v (has_bit-set_bit x.has_bits r.small 4 4 refl refl);
    message_length_held =
        IsField-as _ _ _ _ (has_bit-set_bit x.has_bits r.small 4 8 refl refl) r.message_length_held;
    unknown_held = r.unknown_held;
  }

  pub clear_method_id-Represents : Represents (clear_method_id x) (record m { method_id = none })
  clear_method_id-Represents = record {
    small = (bits_small x.has_bits r.small 4 refl).1;
    seq_held = IsField-as _ _ _ _ (has_bit-clear_bit x.has_bits r.small 4 1 refl refl) r.seq_held;
    service_id_held =
        IsField-as _ _ _ _ (has_bit-clear_bit x.has_bits r.small 4 2 refl refl) r.service_id_held;
    method_id_held = IsField-unset _ (has_bit-clear_bit x.has_bits r.small 4 4 refl refl);
    message_length_held =
        IsField-as _ _ _ _ (has_bit-clear_bit x.has_bits r.small 4 8 refl refl)
          r.message_length_held;
    unknown_held = r.unknown_held;
  }

  pub put_message_length-Represents :
      (v : ℕ) → Represents (put_message_length v x) (set_message_length m v)
  put_message_length-Represents v = record {
    small = (bits_small x.has_bits r.small 8 refl).0;
    seq_held = IsField-as _ _ _ _ (has_bit-set_bit x.has_bits r.small 8 1 refl refl) r.seq_held;
    service_id_held =
        IsField-as _ _ _ _ (has_bit-set_bit x.has_bits r.small 8 2 refl refl) r.service_id_held;
    method_id_held =
        IsField-as _ _ _ _ (has_bit-set_bit x.has_bits r.small 8 4 refl refl) r.method_id_held;
    message_length_held = IsField-set _ v (has_bit-set_bit x.has_bits r.small 8 8 refl refl);
    unknown_held = r.unknown_held;
  }

  pub clear_message_length-Represents :
      Represents (clear_message_length x) (record m { message_length = none })
  clear_message_length-Represents = record {
    small = (bits_small x.has_bits r.small 8 refl).1;
    seq_held = IsField-as _ _ _ _ (has_bit-clear_bit x.has_bits r.small 8 1 refl refl) r.seq_held;
    service_id_held =
        IsField-as _ _ _ _ (has_bit-clear_bit x.has_bits r.small 8 2 refl refl) r.service_id_held;
    method_id_held =
        IsField-as _ _ _ _ (has_bit-clear_bit x.has_bits r.small 8 4 refl refl) r.method_id_held;
    message_length_held = IsField-unset _ (has_bit-clear_bit x.has_bits r.small 8 8 refl refl);
    unknown_held = r.unknown_held;
  }

pub clear_message-Represents : (x : Message) → Represents (clear_message x) empty_meta
clear_message-Represents x = record {
  small = omega arith;
  seq_held = record { shown = refl; else_zero = λ e. refl };
  service_id_held = record { shown = refl; else_zero = λ e. refl };
  method_id_held = record { shown = refl; else_zero = λ e. refl };
  message_length_held = record { shown = refl; else_zero = λ e. refl };
  unknown_held = refl;
}
