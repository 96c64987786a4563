-- ===== src/Protocol/Message/Bits.antt =====
-- The bits of `_has_bits_[0]` in rpc/detail/protocol/rpc.pb.h: four of them are ever set.
use Prim.Native.Nat.{bit_and}
use gboost_rpc.Base.{
  Bool-cases, inl, inr, subst, sym, ℕ, zero, suc, ◌<◌, ◌≡◌, refl, ◌==◌, ltb, Bool, true, false, not,
  ◌&&◌, ◌||◌, arith, ltb→lt,
}
use gboost_rpc.Protocol.Message.{has_bit, set_bit, clear_bit}

abbrev all_below : ℕ → (ℕ → Bool) → Bool
all_below zero f = true
all_below (suc n) f = f n && all_below n f

all_below-at : (n : ℕ) (f : ℕ → Bool) (k : ℕ) → all_below n f ≡ true → k < n → f k ≡ true
all_below-at zero f k h less = absurd (omega (arith, less))
all_below-at (suc n) f k h less = elim (Bool-cases (k == n)) [
  | inl last ↦ let e : k ≡ n = ground arith in subst (λ j. f j ≡ true) (sym e) (ground (arith, h))
  | inr before ↦ all_below-at n f k (ground (arith, h)) (ground (arith, before))
]

abbrev same : Bool → Bool → Bool
same true b = b
same false b = not b

same_eq : (a b : Bool) → same a b ≡ true → a ≡ b
same_eq true true h = refl
same_eq true false h = absurd cc
same_eq false true h = absurd cc
same_eq false false h = refl

-- The masks of the four fields.
abbrev pub is_mask : ℕ → Bool
is_mask m = m == 1 || (m == 2 || (m == 4 || m == 8))

abbrev set_test : ℕ → ℕ → ℕ → Bool
set_test b m o =
    not (is_mask m && is_mask o) || same (has_bit o (set_bit m b)) (m == o || has_bit o b)

abbrev clear_test : ℕ → ℕ → ℕ → Bool
clear_test b m o =
    not (is_mask m && is_mask o) || same (has_bit o (clear_bit m b)) (not (m == o) && has_bit o b)

set_table : all_below 16 (λ b. all_below 9 (λ m. all_below 9 (set_test b m))) ≡ true
set_table = refl

clear_table : all_below 16 (λ b. all_below 9 (λ m. all_below 9 (clear_test b m))) ≡ true
clear_table = refl

abbrev small_test : ℕ → ℕ → Bool
small_test b m = not (is_mask m) || (ltb (set_bit m b) 16 && ltb (clear_bit m b) 16)

small_table : all_below 16 (λ b. all_below 9 (small_test b)) ≡ true
small_table = refl

is_mask_small : (m : ℕ) → is_mask m ≡ true → m < 9
is_mask_small m h = ground arith

module _ (b : ℕ) (four : b < 16) where
  pub has_bit-set_bit :
      (m o : ℕ)
      → is_mask m ≡ true
      → is_mask o ≡ true
      → has_bit o (set_bit m b) ≡ (m == o || has_bit o b)
  has_bit-set_bit m o p q =
      let at_b =
        all_below-at 16 (λ b. all_below 9 (λ m. all_below 9 (set_test b m))) b set_table four in
      let at_m = all_below-at 9 (λ m. all_below 9 (set_test b m)) m at_b (is_mask_small m p) in
      let t = all_below-at 9 (set_test b m) o at_m (is_mask_small o q) in
      same_eq (has_bit o (set_bit m b)) (m == o || has_bit o b) (ground (arith, t, p, q))

  pub has_bit-clear_bit :
      (m o : ℕ)
      → is_mask m ≡ true
      → is_mask o ≡ true
      → has_bit o (clear_bit m b) ≡ (not (m == o) && has_bit o b)
  has_bit-clear_bit m o p q =
      let at_b =
        all_below-at 16 (λ b. all_below 9 (λ m. all_below 9 (clear_test b m))) b clear_table four in
      let at_m = all_below-at 9 (λ m. all_below 9 (clear_test b m)) m at_b (is_mask_small m p) in
      let t = all_below-at 9 (clear_test b m) o at_m (is_mask_small o q) in
      same_eq (has_bit o (clear_bit m b)) (not (m == o) && has_bit o b) (ground (arith, t, p, q))

  pub bits_small : (m : ℕ) → is_mask m ≡ true → (set_bit m b < 16) × (clear_bit m b < 16)
  bits_small m p =
      let at_b = all_below-at 16 (λ b. all_below 9 (small_test b)) b small_table four in
      let t = all_below-at 9 (small_test b) m at_b (is_mask_small m p) in
      (
        ltb→lt (set_bit m b) 16 (ground (arith, t, p)),
        ltb→lt (clear_bit m b) 16 (ground (arith, t, p)),
      )

  -- All four bits, as `IsInitialized` tests them, and any of the first eight.
  pub four_bits :
      (bit_and b 15 == 15) ≡ (has_bit 1 b && (has_bit 2 b && (has_bit 4 b && has_bit 8 b)))
  four_bits =
      same_eq (bit_and b 15 == 15) (has_bit 1 b && (has_bit 2 b && (has_bit 4 b && has_bit 8 b))) (
        all_below-at 16
          (λ b.
            same (bit_and b 15 == 15)
              (has_bit 1 b && (has_bit 2 b && (has_bit 4 b && has_bit 8 b))))
          b refl four)

  pub eight_bits : has_bit 255 b ≡ (has_bit 1 b || (has_bit 2 b || (has_bit 4 b || has_bit 8 b)))
  eight_bits =
      same_eq (has_bit 255 b) (has_bit 1 b || (has_bit 2 b || (has_bit 4 b || has_bit 8 b))) (
        all_below-at 16
          (λ b. same (has_bit 255 b) (has_bit 1 b || (has_bit 2 b || (has_bit 4 b || has_bit 8 b))))
          b refl four)
