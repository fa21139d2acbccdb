-- ===== src/Baremetal/Numbers.antt =====
-- What the number printing of prog/rvtest spells.
use native.Mathlib.Nat.{pow-suc}
use rvcomp.Printf.Digits.{value, digit_val}
use rvcomp.Base.{
  ℕ, zero, suc, ◌+◌, ◌*◌, ◌/◌, ◌%◌, ◌^◌, ◌≤◌, ◌<◌, ◌≡◌, refl, ◌∙◌, ◌≢◌, List, [], ◌∷◌, ◌++◌, arith,
  length, get_or,
}
use rvcomp.Baremetal.{len_loop, greeting, announcement, main}

abbrev pub AllDecimal : List ℕ → Type 0
AllDecimal [] = Unit {0}
AllDecimal (c ∷ s) = (b'0' ≤ c) × (c ≤ b'9') × AllDecimal s

len_loop_lem :
    (k len : ℕ) (str : List ℕ)
    → len < 10 ^ k
    → AllDecimal str
    → (length (len_loop k len str) ≡ k + length str)
      × (value 10 0 (len_loop k len str) ≡ value 10 len str)
      × AllDecimal (len_loop k len str)
unfolding len_loop
len_loop_lem zero len str lt decimal =
    let none_left : len ≡ 0 = omega arith in rw none_left (omega arith, refl, decimal)
len_loop_lem (suc k) len str lt decimal =
    let digit : digit_val (len % 10 + b'0') ≡ len % 10 = ground arith in
    let back : len / 10 * 10 + len % 10 ≡ len = omega arith in
    let (count, val, all) =
      len_loop_lem k (len / 10) ((len % 10 + b'0') ∷ str) (omega (arith, pow-suc 10 k))
        (omega arith, omega arith, decimal) in
    (omega (arith, count), val ∙ rw (digit, back) refl, all)

-- For a 32-bit length the program prints its two messages, ten decimal digits that spell the
-- length, the leading zeros included, and a line end.
pub main_lem :
    (len : ℕ)
    → len < 2 ^ 32
    → (len_str : List ℕ) × (main len ≡ greeting ++ (announcement ++ (len_str ++ 10 ∷ [])))
      × (length len_str ≡ 10)
      × (value 10 0 len_str ≡ len)
      × AllDecimal len_str
unfolding main
main_lem len lt =
    let (count, val, all) = len_loop_lem 10 len [] (omega arith) tt in
    (len_loop 10 len [], refl, count, val, all)

-- The digits that the loop puts in front of `buf`.
abbrev Spelled : ℕ → ℕ → ℕ → List ℕ → List ℕ → Type 0
Spelled k base n buf ds =
    (value base 0 ds ≡ value base n buf)
    × (length ds ≤ k + length buf)
    × (0 < n → digit_val (get_or ds 0 0) ≢ 0)
    × (n ≡ 0 → ds ≡ buf)
