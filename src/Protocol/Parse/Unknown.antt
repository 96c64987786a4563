-- ===== src/Protocol/Parse/Unknown.antt =====
-- The unknown fields that MergePartialFromCodedStream (rpc/detail/protocol/rpc.pb.cc) keeps.
use gboost_rpc.Base.{ℕ, ◌≡◌, sym, subst, ◌++◌, List, [], Option, append-nil, append_assoc}
use gboost_rpc.Protocol.{Meta}
use gboost_rpc.Protocol.Parse.{CodedInput, breaks, parse_round}
use gboost_rpc.Protocol.Parse.Results.{Parses, round-Parses, Settles}

-- Bytes of fields, each of which a round of the loop appends to the unknown fields, whatever comes
-- before and after.
pub data IsUnknown (i : CodedInput) : List ℕ → Type 0 where
  nothing : IsUnknown i []
  kept_field :
      (bytes : List ℕ) {others : List ℕ}
      → ((m : Meta) (after : List ℕ)
          → parse_round i m (bytes ++ after)
            ≡ breaks (record m { unknown_fields = m.unknown_fields ++ bytes }) after)
      → IsUnknown i others
      → IsUnknown i (bytes ++ others)

module _ {i : CodedInput} where
  pub append-IsUnknown :
      (bytes more : List ℕ) → IsUnknown i bytes → IsUnknown i more → IsUnknown i (bytes ++ more)
  append-IsUnknown _ more nothing v = v
  append-IsUnknown _ more (kept_field bytes {others} kept u) v =
      subst (λ l. IsUnknown i l) (sym (append_assoc bytes others more))
        (kept_field bytes kept (append-IsUnknown others more u v))

  pub IsUnknown-Parses :
      (m : Meta) (bytes : List ℕ) (r : Option Meta)
      → IsUnknown i bytes
      → Parses i (record m { unknown_fields = m.unknown_fields ++ bytes }) [] r
      → Parses i m bytes r
  IsUnknown-Parses m _ r nothing p =
      subst (λ u. Parses i (record m { unknown_fields = u }) [] r) (append-nil m.unknown_fields) p
  IsUnknown-Parses m _ r (kept_field bytes {others} kept u) p =
      round-Parses i m (bytes ++ others) r (
        subst (λ a. Settles i a r) (sym (kept m others))
          (IsUnknown-Parses (record m { unknown_fields = m.unknown_fields ++ bytes }) others r u
            (subst (λ f. Parses i (record m { unknown_fields = f }) [] r)
              (sym (append_assoc m.unknown_fields bytes others)) p)))
