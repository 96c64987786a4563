-- ===== src/Util.antt =====
-- rpc/detail/util.h; here `ConvertToStringFrom`, of an integer type of `width` bits. An integer is its bit
-- pattern, below 2 ^ width. A string is a list of characters.
pub mod Text
pub mod Sleeping
use mathlib.Core.List.{reverse}
use gboost_rpc.Base.{
  ℕ, zero, suc, ◌+◌, ◌-◌, ◌*◌, ◌/◌, ◌%◌, ◌^◌, ◌==◌, ltb, leb, if◌then◌else◌, Bool, true, false,
  ◌&&◌, ◌||◌, List, [], ◌∷◌, ◌++◌, Outcome, ok, ◌>>◌, check,
}

-- `integer < Integer()`
abbrev pub is_minus : ℕ → Bool → ℕ → Bool
is_minus width is_signed n = is_signed && leb (2 ^ width) (2 * n)

abbrev pub char_of : ℕ → ℕ
char_of d = if ltb d 10 then 48 + d else 65 + d - 10

-- The loop, with the lowest digit first. A number is enough fuel for itself.
unfoldable pub digits : ℕ → ℕ → ℕ → List ℕ
digits zero base n = []
digits (suc fuel) base n =
    let rest = digits fuel base (n / base) in if ltb 0 n then char_of (n % base) ∷ rest else []

abbrev pub is_number_system : ℕ → Bool
is_number_system base = base == 2 || (base == 8 || (base == 10 || base == 16))

-- The absolute value, `~(integer - 1)` of a negative number.
abbrev pub magnitude : ℕ → Bool → ℕ → ℕ
magnitude width is_signed n = if is_minus width is_signed n then 2 ^ width - n else n

-- `ConvertToStringFrom`. The loop does not run where the absolute value is negative again.
unfoldable pub convert_to_string : ℕ → Bool → ℕ → ℕ → Outcome (List ℕ)
unfolding digits
convert_to_string width is_signed n base =
    let m = magnitude width is_signed n in
    let ds = if is_minus width is_signed m then [] else digits m base m in
    let sign = if is_minus width is_signed n then 45 ∷ [] else [] in
    if n == 0 then ok (48 ∷ []) else (check (is_number_system base) >> ok (reverse (ds ++ sign)))
