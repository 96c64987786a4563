-- ===== src/Util/Text.antt =====
-- What a text of ConvertToStringFrom (rpc/detail/util.h) stands for.
use mathlib.Core.List.{reverse}
use gboost_rpc.Base.{
  ℕ, ◌+◌, ◌-◌, ◌*◌, ◌≡◌, ◌≢◌, ◌⊎◌, ltb, leb, ◌&&◌, Option, none, some, if◌then◌else◌, Bool, List,
  [], ◌∷◌, ◌++◌,
}

-- The digit that a character stands for: `0` to `9` and `A` to `F`, and no other character.
abbrev pub digit_of : ℕ → Option ℕ
digit_of c =
    if leb 48 c && leb c 57
    then some (c - 48)
    else if leb 65 c && leb c 70
    then some (c - 55)
    else none

-- What digits of a base stand for, the lowest first; `none` if a character is not a digit of the
-- base.
abbrev pub value_of : ℕ → List ℕ → Option ℕ
value_of base [] = some 0
value_of base (c ∷ cs) = elim (digit_of c) [
  | none ↦ none
  | some d ↦ elim (value_of base cs) [
    | none ↦ none
    | some v ↦ if ltb d base then some (d + base * v) else none
  ]
]

-- The highest digit of those that follow `c`, the lowest first.
abbrev pub highest : ℕ → List ℕ → ℕ
highest c [] = c
highest c (d ∷ ds) = highest d ds

-- A text is the sign of a number and, in some base, its digits, of which the highest is not `0`,
-- unless the number is.
pub record Reads (base : ℕ) (is_negative : Bool) (n : ℕ) (text : List ℕ) : Type 0 where
  pub lowest_first : List ℕ
  pub worth : value_of base lowest_first ≡ some n
  pub shortest : (n ≡ 0) ⊎ (highest 0 lowest_first ≢ 48)
  pub spelled : text ≡ (if is_negative then 45 ∷ [] else []) ++ reverse lowest_first

abbrev sign_of : Bool → List ℕ
sign_of is_negative = if is_negative then 45 ∷ [] else []
