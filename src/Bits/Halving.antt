-- ===== src/Bits/Halving.antt =====
-- The native operations on digits, seen from the halves of their arguments: what they do to a
-- number is what they do to its half, doubled, and a last digit.
use Prim.Native.Nat.{max, digits, bitwise, bit_and-bitwise, bit_or-bitwise}
use rvcomp.Base.{
  ℕ, zero, suc, ◌+◌, ◌-◌, ◌*◌, ◌/◌, ◌%◌, ◌≤◌, min, bit_and, bit_or, ◌≡◌, refl, sym, ap, ◌∙◌, arith,
}

module _ (z : ℕ → ℕ) (f : ℕ → ℕ → ℕ) where
  at_end : (n b : ℕ) → digits z f n 0 b ≡ z b
  at_end zero b = refl
  at_end (suc n) b = refl

  -- Counting further than the digits go changes nothing.
  surplus : (n k a b : ℕ) → a ≤ n → digits z f (n + k) a b ≡ digits z f n a b
  surplus n k zero b le = at_end (n + k) b ∙ sym (at_end n b)
  surplus zero k (suc a) b le = absurd (omega arith)
  surplus (suc n) k (suc a) b le =
      let count : suc n + k ≡ suc (n + k) = omega arith in
      ap (λ (c : ℕ). digits z f c (suc a) b) count
      ∙ ap (λ (t : ℕ). t * 2 + f (suc a % 2) (b % 2))
          (surplus n k (suc a / 2) (b / 2) (omega arith))

  enough : (n a b : ℕ) → a ≤ n → digits z f n a b ≡ bitwise z f a b
  enough n a b le =
      let count : n ≡ a + (n - a) = omega arith in
      ap (λ (c : ℕ). digits z f c a b) count ∙ surplus a (n - a) a b (omega arith)

  module _ (tail : (b : ℕ) → z b ≡ z (b / 2) * 2 + f 0 (b % 2)) where
    halve : (a b : ℕ) → bitwise z f a b ≡ bitwise z f (a / 2) (b / 2) * 2 + f (a % 2) (b % 2)
    halve zero b = tail b
    halve (suc a) b =
        ap (λ (t : ℕ). t * 2 + f (suc a % 2) (b % 2)) (enough a (suc a / 2) (b / 2) (omega arith))

pub halve_and : (a b : ℕ) → bit_and a b ≡ bit_and (a / 2) (b / 2) * 2 + min (a % 2) (b % 2)
halve_and a b = simp bit_and-bitwise (halve (λ y. 0) min (λ y. omega arith) a b)

pub halve_or : (a b : ℕ) → bit_or a b ≡ bit_or (a / 2) (b / 2) * 2 + max (a % 2) (b % 2)
halve_or a b = simp bit_or-bitwise (halve (λ y. y) max (λ y. omega arith) a b)

no_digits : (n a : ℕ) → digits (λ y. 0) min n a 0 ≡ 0
no_digits zero a = refl
no_digits (suc n) zero = refl
no_digits (suc n) (suc a) = omega (arith, no_digits n (suc a / 2))

pub none_and : (a : ℕ) → bit_and a 0 ≡ 0
none_and a = simp bit_and-bitwise (no_digits a a)

pub none_or : (b : ℕ) → bit_or 0 b ≡ b
none_or b = simp bit_or-bitwise refl
