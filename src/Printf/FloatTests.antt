-- ===== src/Printf/FloatTests.antt =====
-- decimal_point on "1e+05", cropzeros on "1.50e+9".
use rvcomp.Base.{
  ℕ, zero, suc, ◌+◌, ◌-◌, ◌≤◌, ◌<◌, ◌≡◌, refl, ◌≢◌, true, false, ◌&&◌, ◌||◌, some, [], ◌∷◌, arith,
  ltb, leb, ◌==◌, if◌then◌else◌, get_or, Memory,
}
use rvcomp.Printf.Float.Crop.{cropzeros_lem}
use rvcomp.Printf.Float.Point.{IsPlain, decimal_point_lem}
use rvcomp.Printf.Float.{is_exponent, decimal_point, cropzeros}

abbrev exponent_text : Memory
exponent_text a = get_or (b'1' ∷ b'e' ∷ b'+' ∷ b'0' ∷ b'5' ∷ []) (a - 16) 0

exponent_text-IsPlain : IsPlain exponent_text 16 1
exponent_text-IsPlain zero lt = refl
exponent_text-IsPlain (suc j) lt = absurd (omega arith)

decimal_point_lem_example :
    (exponent_text 17 ≡ b'.' → decimal_point 10 16 exponent_text ≡ some exponent_text)
    × (exponent_text 17 ≡ 0
        → (m' : Memory) × (decimal_point 10 16 exponent_text ≡ some m')
          × (m' 17 ≡ b'.')
          × (m' 18 ≡ 0)
          × ((q : ℕ) → q ≢ 17 → q ≢ 18 → m' q ≡ exponent_text q))
    × ((k : ℕ)
        → is_exponent (exponent_text 17) ≡ true
        → 1 ≤ k
        → k ≤ 256
        → ((j : ℕ) → j < k → exponent_text (17 + j) ≢ 0)
        → exponent_text (17 + k) ≡ 0
        → (m' : Memory) × (decimal_point 10 16 exponent_text ≡ some m')
          × (m' 17 ≡ b'.')
          × (m' 18 ≡ exponent_text 18)
          × ((j : ℕ) → 1 ≤ j → j ≤ k → m' (18 + j) ≡ exponent_text (17 + j)))
decimal_point_lem_example =
    decimal_point_lem 10 1 16 exponent_text (omega arith) exponent_text-IsPlain

abbrev fraction_text : Memory
fraction_text a = get_or (b'1' ∷ b'.' ∷ b'5' ∷ b'0' ∷ b'e' ∷ b'+' ∷ b'9' ∷ []) (a - 16) 0

fraction_whole : (j : ℕ) → j < 1 → (fraction_text (16 + j) ≢ 0) × (fraction_text (16 + j) ≢ b'.')
fraction_whole zero lt = (λ e. absurd (omega arith), λ e. absurd (omega arith))
fraction_whole (suc j) lt = absurd (omega arith)

fraction_digits :
    (j : ℕ) → j < 2 → (fraction_text (18 + j) == 0 || is_exponent (fraction_text (18 + j))) ≡ false
fraction_digits zero lt = refl
fraction_digits (suc zero) lt = refl
fraction_digits (suc (suc j)) lt = absurd (omega arith)

fraction_zeros : (j : ℕ) → j < 1 → fraction_text (19 + j) ≡ b'0'
fraction_zeros zero lt = refl
fraction_zeros (suc j) lt = absurd (omega arith)

-- The string that is left ends behind "1.5".
cropzeros_lem_example :
    let keep : ℕ = if fraction_text 18 == b'.' then 17 else 18 in
    (m' : Memory) × (cropzeros 10 16 fraction_text ≡ some m')
    × ((q : ℕ) → m' q ≡ (if ltb keep q && leb q 20 then 0 else fraction_text q))
cropzeros_lem_example =
    cropzeros_lem 10 16 1 2 1 fraction_text (omega arith) (omega arith) (omega arith) fraction_whole
      refl fraction_digits refl fraction_zeros (λ e. absurd (omega arith))
