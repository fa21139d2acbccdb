-- ===== src/Strings/Number.antt =====
-- atol on decimal digits.
use rvcomp.Printf.Digits.{AllDigits, value, digit_val}
use rvcomp.Printf.Parse.{value-grows}
use rvcomp.Base.{
  ℕ, zero, suc, ◌+◌, ◌-◌, ◌*◌, ◌^◌, ◌<◌, ◌≡◌, refl, ap, ◌≢◌, false, List, [], ◌∷◌, ◌++◌, arith,
  ◌==◌, replicate, u32,
}
use rvcomp.Strings.{digits_loop, skip_spaces, signed_digits, atol}

digits_loop_lem :
    (ds : List ℕ) (i : ℕ) → AllDigits ds → value 10 i ds < 2 ^ 32 → digits_loop ds i ≡ value 10 i ds
unfolding digits_loop
digits_loop_lem [] i all lt = refl
digits_loop_lem (c ∷ ds) i (digit, all) lt =
    let next : u32 (u32 (i * 10) + (2 ^ 32 + c - b'0')) ≡ i * 10 + digit_val c =
      ground (arith, value-grows ds (i * 10 + digit_val c)) in
    rw next (digits_loop_lem ds (i * 10 + digit_val c) all lt)

-- A sign or a digit ends the spaces.
skip_spaces_lem :
    (k c : ℕ) (rest : List ℕ) → c ≢ b' ' → skip_spaces (replicate k b' ' ++ c ∷ rest) ≡ c ∷ rest
unfolding skip_spaces
skip_spaces_lem zero c rest h =
    let other : (c == b' ') ≡ false = ground arith in rw (other, skip_spaces) refl
skip_spaces_lem (suc k) c rest h = skip_spaces_lem k c rest h

-- atol skips spaces and reads decimal digits as their number, and behind a minus sign as its
-- negative, both as 32-bit words; a plus sign changes nothing. There is a digit at least, and the
-- number is below 2 ^ 32.
pub atol_lem :
    (k d : ℕ) (ds : List ℕ)
    → AllDigits (d ∷ ds)
    → value 10 0 (d ∷ ds) < 2 ^ 32
    → let n = value 10 0 (d ∷ ds) in
      let spaces : List ℕ = replicate k b' ' in
      (atol (spaces ++ d ∷ ds) ≡ n)
      × (atol (spaces ++ b'+' ∷ d ∷ ds) ≡ n)
      × (atol (spaces ++ b'-' ∷ d ∷ ds) ≡ u32 (2 ^ 32 - n))
unfolding atol signed_digits
atol_lem k d ds all lt =
    let read = digits_loop_lem (d ∷ ds) 0 all lt in
    let digit = all.0 in
    let minus_no : (d == b'-') ≡ false = ground arith in
    let plus_no : (d == b'+') ≡ false = ground arith in
    (
      rw (skip_spaces_lem k d ds (λ e. ground arith), minus_no, plus_no) read,
      rw (skip_spaces_lem k b'+' (d ∷ ds) (λ e. absurd (omega arith))) read,
      rw (skip_spaces_lem k b'-' (d ∷ ds) (λ e. absurd (omega arith)))
          (ap (λ (n : ℕ). u32 (2 ^ 32 - n)) read),
    )
