-- ===== src/Bits/Flags.antt =====
-- Single bits of a word: setting one and testing one.
use native.Mathlib.Nat.{pow-suc, div-div-eq-div-mul, mul_comm, mul_assoc}
use rvcomp.Bits.Halving.{halve_or, halve_and, none_and, none_or}
use rvcomp.Base.{
  ℕ, zero, suc, ◌+◌, ◌*◌, ◌/◌, ◌%◌, ◌^◌, ◌≤◌, bit_and, bit_or, ◌≡◌, sym, ap, ◌∙◌, inl, inr, arith,
  ◌==◌, Bool-cases,
}

or_none_below : (n a : ℕ) → a ≤ n → bit_or a 0 ≡ a
or_none_below zero a le = let e : a ≡ 0 = omega arith in rw e (none_or 0)
or_none_below (suc n) a le = elim (Bool-cases (a == 0)) [
  | inl e ↦ let e' : a ≡ 0 = ground arith in rw e' (none_or 0)
  | inr e ↦ omega (arith, halve_or a 0, or_none_below n (a / 2) (ground arith))
]

or_twice : (p c : ℕ) → bit_or p (c * 2) ≡ bit_or (p / 2) c * 2 + p % 2
or_twice p c =
    let half : c * 2 / 2 ≡ c = omega arith in
    let last : c * 2 % 2 ≡ 0 = omega arith in omega (arith, rw (half, last) at (halve_or p (c * 2)))

and_twice : (p c : ℕ) → bit_and p (c * 2) ≡ bit_and (p / 2) c * 2
and_twice p c =
    let half : c * 2 / 2 ≡ c = omega arith in
    let last : c * 2 % 2 ≡ 0 = omega arith in
    omega (arith, rw (half, last) at (halve_and p (c * 2)))

-- The `k`th digit of a number, and that of its half.
digit_half : (k p : ℕ) → p / 2 ^ suc k ≡ p / 2 / 2 ^ k
digit_half k p =
    ap (λ (q : ℕ). p / q) (pow-suc 2 k ∙ mul_comm (2 ^ k) 2) ∙ sym (div-div-eq-div-mul p 2 (2 ^ k))

or_bit : (k p : ℕ) → p / 2 ^ k % 2 ≡ 0 → bit_or p (2 ^ k) ≡ p + 2 ^ k
or_bit zero p h = omega (arith, halve_or p 1, or_none_below (p / 2) (p / 2) (omega arith))
or_bit (suc k) p h =
    let even : p / 2 / 2 ^ k % 2 ≡ 0 = rw (digit_half k p) at h in
    let rest = or_bit k (p / 2) even in rw (pow-suc 2 k) (or_twice p (2 ^ k) ∙ omega (arith, rest))

and_bit : (k p : ℕ) → bit_and p (2 ^ k) ≡ p / 2 ^ k % 2 * 2 ^ k
and_bit zero p = omega (arith, halve_and p 1, none_and (p / 2))
and_bit (suc k) p =
    let rest = and_bit k (p / 2) in
    rw (digit_half k p, pow-suc 2 k)
      (and_twice p (2 ^ k) ∙ (ap (λ (x : ℕ). x * 2) rest ∙ mul_assoc (p / 2 / 2 ^ k % 2) (2 ^ k) 2))

pub or_64 : (p : ℕ) → p / 64 % 2 ≡ 0 → bit_or p 64 ≡ p + 64
or_64 = or_bit 6

pub or_128 : (p : ℕ) → p / 128 % 2 ≡ 0 → bit_or p 128 ≡ p + 128
or_128 = or_bit 7

pub and_64 : (p : ℕ) → bit_and p 64 ≡ p / 64 % 2 * 64
and_64 = and_bit 6

pub and_128 : (p : ℕ) → bit_and p 128 ≡ p / 128 % 2 * 128
and_128 = and_bit 7
