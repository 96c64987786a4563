-- ===== src/Protocol/Parse/Results.antt =====
-- The loop of MergePartialFromCodedStream (rpc/detail/protocol/rpc.pb.cc): which result it ends with.
use gboost_rpc.Base.{
  ℕ, zero, suc, ◌≤◌, ◌≡◌, sym, subst, ◌∙◌, inl, inr, Option, none, some, List, ok, ok-injective,
  arith,
}
use gboost_rpc.Protocol.{Meta}
use gboost_rpc.Protocol.Parse.{CodedInput, Arm, breaks, success, failure, parse_round, parse_loop}
use gboost_rpc.Protocol.Parse.Ends.{arm_cases}

module _ (i : CodedInput) where
  -- The loop ends with this result.
  abbrev pub Parses : Meta → List ℕ → Option Meta → Type 0
  Parses m bytes r = (fuel : ℕ) × (parse_loop i fuel m bytes ≡ ok r)

  -- An arm that leads to this result.
  abbrev pub Settles : Arm → Option Meta → Type 0
  Settles (breaks m rest) r = Parses m rest r
  Settles (success m) r = r ≡ some m
  Settles failure r = r ≡ none

  more_fuel :
      (fuel more : ℕ) (m : Meta) (bytes : List ℕ) (r : Option Meta)
      → fuel ≤ more
      → parse_loop i fuel m bytes ≡ ok r
      → parse_loop i more m bytes ≡ ok r
  unfolding parse_loop
  more_fuel zero more m bytes r h e = absurd cc
  more_fuel (suc fuel) zero m bytes r h e = absurd (omega (arith, h))
  more_fuel (suc fuel) (suc more) m bytes r h e = elim (arm_cases (parse_round i m bytes)) [
    | inl (m', rest, arm) ↦
        let tail : parse_loop i fuel m' rest ≡ ok r = ground (arith, arm, e) in
        ground (arith, arm, more_fuel fuel more m' rest r (omega (arith, h)) tail)
    | inr (inl (m', arm)) ↦ ground (arith, arm, e)
    | inr (inr arm) ↦ ground (arith, arm, e)
  ]

  pub one_result :
      (m : Meta) (bytes : List ℕ) (fuel : ℕ) (r s : Option Meta)
      → Parses m bytes r
      → parse_loop i fuel m bytes ≡ ok s
      → s ≡ r
  one_result m bytes fuel r s (f, e) g = elim (native.Mathlib.Decide.dec_lt f fuel) [
    | yes less ↦ ok-injective (sym g ∙ more_fuel f fuel m bytes r (omega (arith, less)) e)
    | no others ↦ ok-injective (sym (more_fuel fuel f m bytes s (omega (arith, others)) g) ∙ e)
  ]

  breaks-Parses :
      (m m' : Meta) (bytes rest : List ℕ) (r : Option Meta)
      → parse_round i m bytes ≡ breaks m' rest
      → Parses m' rest r
      → Parses m bytes r
  unfolding parse_loop
  breaks-Parses m m' bytes rest r arm (fuel, e) = (suc fuel, ground (arith, arm, e))

  pub round-Parses :
      (m : Meta) (bytes : List ℕ) (r : Option Meta)
      → Settles (parse_round i m bytes) r
      → Parses m bytes r
  unfolding parse_loop
  round-Parses m bytes r s = elim (arm_cases (parse_round i m bytes)) [
    | inl (m', rest, arm) ↦ breaks-Parses m m' bytes rest r arm (subst (λ a. Settles a r) arm s)
    | inr (inl (m', arm)) ↦
        let e : r ≡ some m' = subst (λ a. Settles a r) arm s in (1, ground (arith, arm, e))
    | inr (inr arm) ↦
        let e : r ≡ none = subst (λ a. Settles a r) arm s in (1, ground (arith, arm, e))
  ]

  pub Parses-round :
      (m : Meta) (bytes : List ℕ) (r : Option Meta)
      → Parses m bytes r
      → Settles (parse_round i m bytes) r
  unfolding parse_loop
  Parses-round m bytes r (zero, e) = absurd cc
  Parses-round m bytes r (suc fuel, e) = elim (arm_cases (parse_round i m bytes)) [
    | inl (m', rest, arm) ↦ subst (λ a. Settles a r) (sym arm) (fuel, ground (arith, arm, e))
    | inr (inl (m', arm)) ↦
        let e' : r ≡ some m' = ground (arith, arm, e) in subst (λ a. Settles a r) (sym arm) e'
    | inr (inr arm) ↦
        let e' : r ≡ none = ground (arith, arm, e) in subst (λ a. Settles a r) (sym arm) e'
  ]
