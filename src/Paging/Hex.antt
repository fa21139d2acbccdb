-- ===== src/Paging/Hex.antt =====
-- printhex writes 16 digits that spell its number.
use native.Mathlib.Nat.{pow-suc}
use rvcomp.Printf.Digits.{value, digit_val, AllHex}
use rvcomp.Bits.{bit_and_mask}
use rvcomp.Base.{
  ℕ, zero, suc, ◌+◌, ◌-◌, ◌*◌, ◌/◌, ◌%◌, ◌^◌, ◌<◌, bit_and, ◌≡◌, refl, ◌∙◌, List, [], ◌∷◌, arith,
  ltb, if◌then◌else◌, length,
}
use rvcomp.Paging.{printhex_loop, printhex}

hex_digit : (d : ℕ) → d < 16 → digit_val (d + (if ltb d 10 then b'0' else b'a' - 10)) ≡ d
hex_digit d lt = ground arith

digit-AllHex :
    (d : ℕ) (str : List ℕ)
    → d < 16
    → AllHex 16 str
    → AllHex 16 ((d + (if ltb d 10 then b'0' else b'a' - 10)) ∷ str)
digit-AllHex d str lt all = (ground arith, ground arith, all)

hex_loop_lem :
    (k x : ℕ) (str : List ℕ)
    → x < 16 ^ k
    → AllHex 16 str
    → AllHex 16 (printhex_loop k x str)
      × (length (printhex_loop k x str) ≡ k + length str)
      × (value 16 0 (printhex_loop k x str) ≡ value 16 x str)
unfolding printhex_loop
hex_loop_lem zero x str lt all =
    let none_left : x ≡ 0 = omega arith in rw none_left (all, omega arith, refl)
hex_loop_lem (suc k) x str lt all =
    let d : bit_and x 0xf ≡ x % 16 = bit_and_mask 4 x in
    let small : x / 16 < 16 ^ k = omega (arith, pow-suc 16 k) in
    rw d (
      let (digits, len, val) =
        hex_loop_lem k (x / 16) ((x % 16 + (if ltb (x % 16) 10 then b'0' else b'a' - 10)) ∷ str)
          small (digit-AllHex (x % 16) str (omega arith) all) in
      let back : x / 16 * 16 + x % 16 ≡ x = omega arith in
      (digits, omega (arith, len), val ∙ rw (hex_digit (x % 16) (omega arith), back) refl))

-- printhex puts out 16 characters, the hexadecimal digits of its 64-bit number from the highest.
pub printhex_lem :
    (x : ℕ)
    → x < 2 ^ 64
    → AllHex 16 (printhex x) × (length (printhex x) ≡ 16) × (value 16 0 (printhex x) ≡ x)
unfolding printhex
printhex_lem x lt = hex_loop_lem 16 x [] lt tt
