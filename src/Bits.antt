-- ===== src/Bits.antt =====
-- The masks and field packings that the C code uses, as arithmetic.
pub mod Halving
pub mod Flags
use Halving.{halve_and, halve_or, none_and, none_or}
use native.Mathlib.Nat.{
  pow-suc, one-le-pow, mul_assoc, div-add-mod, add-mul-mod_self_left, mod-eq_of_lt, mod-lt,
}
use rvcomp.Base.{
  ℕ, zero, suc, ◌+◌, ◌-◌, ◌*◌, ◌/◌, ◌%◌, ◌^◌, ◌<◌, bit_and, bit_or, ◌≡◌, sym, ap, ap₂, ◌∙◌, arith,
  not_3,
}

-- A remainder by an even number, from that of the half.
mod-halves : (a m : ℕ) → 0 < m → a % (m * 2) ≡ a / 2 % m * 2 + a % 2
mod-halves a m pos =
    let below : a / 2 % m < m = mod-lt (a / 2) pos in
    let split : a ≡ a / 2 % m * 2 + a % 2 + m * 2 * (a / 2 / m) =
      omega (arith, div-add-mod (a / 2) m, mul_assoc m 2 (a / 2 / m), mul_assoc m (a / 2 / m) 2) in
    ap (λ (n : ℕ). n % (m * 2)) split
    ∙ add-mul-mod_self_left (a / 2 % m * 2 + a % 2) (m * 2) (a / 2 / m)
    ∙ mod-eq_of_lt {n = a / 2 % m * 2 + a % 2} {m = m * 2} (omega arith)

-- `a & (2^k - 1)` is the remainder by `2^k`.
pub bit_and_mask : (k a : ℕ) → bit_and a (2 ^ k - 1) ≡ a % 2 ^ k
bit_and_mask zero a = none_and a ∙ omega arith
bit_and_mask (suc k) a =
    let half : (2 ^ suc k - 1) / 2 ≡ 2 ^ k - 1 = omega (arith, pow-suc 2 k, one-le-pow k 2) in
    let odd : (2 ^ suc k - 1) % 2 ≡ 1 = omega (arith, pow-suc 2 k, one-le-pow k 2) in
    let rest : bit_and (a / 2) ((2 ^ suc k - 1) / 2) ≡ a / 2 % 2 ^ k =
      ap (bit_and (a / 2)) half ∙ bit_and_mask k (a / 2) in
    halve_and a (2 ^ suc k - 1)
    ∙ omega (arith, rest, odd)
    ∙ sym (mod-halves a (2 ^ k) (omega (arith, one-le-pow k 2)))
    ∙ ap (λ (m : ℕ). a % m) (sym (pow-suc 2 k))

-- `a & ~0x3` rounds a 32-bit word down to a multiple of four.
pub bit_and-not_3 : (a : ℕ) → a < 2 ^ 32 → bit_and a not_3 ≡ a / 4 * 4
bit_and-not_3 a h =
    omega (arith, halve_and a not_3, halve_and (a / 2) 0x7ffffffe, bit_and_mask 30 (a / 2 / 2))

-- `x | (b << k)` is a sum when `x` fits in `k` bits.
pub bit_or_above : (k x b : ℕ) → x < 2 ^ k → bit_or x (b * 2 ^ k) ≡ x + b * 2 ^ k
bit_or_above zero x b h =
    let empty : x ≡ 0 = omega arith in
    ap (λ (y : ℕ). bit_or y (b * 1)) empty ∙ none_or (b * 1) ∙ omega arith
bit_or_above (suc k) x b h =
    let shifted : b * 2 ^ suc k ≡ b * 2 ^ k * 2 =
      ap (λ (p : ℕ). b * p) (pow-suc 2 k) ∙ sym (mul_assoc b (2 ^ k) 2) in
    let half : b * 2 ^ suc k / 2 ≡ b * 2 ^ k = omega (arith, shifted) in
    let rest : bit_or (x / 2) (b * 2 ^ suc k / 2) ≡ x / 2 + b * 2 ^ k =
      ap (bit_or (x / 2)) half ∙ bit_or_above k (x / 2) b (omega (arith, pow-suc 2 k)) in
    halve_or x (b * 2 ^ suc k) ∙ omega (arith, rest, shifted)
