-- ===== src/Strings/Copying.antt =====
-- memcpy is one flat copy whichever loop it takes, and strlen and strcpy find the end of a string.
use native.Mathlib.Nat.{mul-suc, zero-add, add-zero}
use rvcomp.Bits.Halving.{halve_or}
use rvcomp.Base.{
  ℕ, zero, suc, ◌+◌, ◌*◌, ◌/◌, ◌%◌, ◌^◌, ◌≤◌, ◌<◌, bit_and, bit_or, ◌≡◌, refl, sym, ap, ◌∙◌,
  fun_ext, ◌≢◌, ◌⊎◌, inl, inr, true, false, some, arith, ◌==◌, ltb-true, ltb-false, Bool-cases,
  Memory, blit, blit-blit, blit-zero, u32, sub32,
}
use rvcomp.Strings.{copy_loop, memcpy, strlen_loop, strlen, strcpy}
use rvcomp.Bits.{bit_and_mask}

-- Copying on, out of a place that the copy so far has left alone.
blit_on :
    (m : Memory) (d s done n total : ℕ)
    → (d + total ≤ s) ⊎ (s + total ≤ d)
    → done + n ≤ total
    → let so_far = blit m d m s done in
      blit so_far (d + done) so_far (s + done) n ≡ blit m d m s (done + n)
blit_on m d s done n total apart le = fun_ext (λ q. same q apart) ∙ blit-blit m d m s done n
  where
    same :
        (q : ℕ)
        → (d + total ≤ s) ⊎ (s + total ≤ d)
        → blit (blit m d m s done) (d + done) (blit m d m s done) (s + done) n q
          ≡ blit (blit m d m s done) (d + done) m (s + done) n q
    same q (inl below) = ground arith
    same q (inr above) = ground arith

module _ (m : Memory) (size d s total : ℕ) (pos : 0 < size)
    (apart : (d + total ≤ s) ⊎ (s + total ≤ d)) (fits_d : d + total + size < 2 ^ 32)
    (fits_s : s + total + size < 2 ^ 32) where
  copy_loop_lem :
      (fuel left done : ℕ)
      → left < fuel
      → done + size * left ≡ total
      → copy_loop fuel size (d + done) (s + done) (d + total) (blit m d m s done)
        ≡ some (blit m d m s total)
  unfolding copy_loop
  copy_loop_lem zero left done lt e = absurd (omega arith)
  copy_loop_lem (suc fuel) zero done lt e =
      let all : done ≡ total = omega arith in
      rw (ltb-false (d + done) (d + total) (omega arith), copy_loop)
        (ap (λ (n : ℕ). some (blit m d m s n)) all)
  copy_loop_lem (suc fuel) (suc left) done lt e =
      let more : size * suc left ≡ size * left + size = mul-suc size left in
      let next_d : u32 (d + done + size) ≡ d + (done + size) = omega arith in
      let next_s : u32 (s + done + size) ≡ s + (done + size) = omega arith in
      rw (ltb-true (d + done) (d + total) (omega arith), copy_loop)
        (rw (next_d, next_s, blit_on m d s done size total apart (omega arith))
          (copy_loop_lem fuel left (done + size) (omega arith) (omega arith)))

  from_start :
      (fuel left : ℕ)
      → left < fuel
      → size * left ≡ total
      → copy_loop fuel size d s (d + total) m ≡ some (blit m d m s total)
  from_start fuel left lt e =
      rw (add-zero d, add-zero s, blit-zero m d m s) at
        (copy_loop_lem fuel left 0 lt (zero-add (size * left) ∙ e))

-- When the or of two numbers is a multiple of four, the second one is.
pub or_aligned : (x y : ℕ) → bit_and (bit_or x y) 3 ≡ 0 → y % 4 ≡ 0
or_aligned x y e =
    omega (arith, bit_and_mask 2 (bit_or x y), halve_or x y, halve_or (x / 2) (y / 2))

-- Between areas that do not overlap and end below the last word of the address space, memcpy is
-- one flat copy of `len` bytes, by words or by characters: it ends, the bytes arrive, and nothing
-- else changes.
pub memcpy_lem :
    (dest src len : ℕ) (m : Memory)
    → (dest + len ≤ src) ⊎ (src + len ≤ dest)
    → dest + len + 4 < 2 ^ 32
    → src + len + 4 < 2 ^ 32
    → memcpy dest src len m ≡ some (blit m dest m src len)
unfolding memcpy
memcpy_lem dest src len m apart fits_d fits_s =
    elim (Bool-cases (bit_and (bit_or (bit_or dest src) len) 3 == 0)) [
      | inl t ↦
          let al : len % 4 ≡ 0 = or_aligned (bit_or dest src) len (ground arith) in
          let whole : u32 (dest + len) ≡ dest + len = omega arith in
          rw (t, whole)
            (from_start m 4 dest src len (omega arith) apart fits_d fits_s (suc len) (len / 4)
              (omega arith) (omega arith))
      | inr f ↦
          let whole : u32 (dest + len) ≡ dest + len = omega arith in
          rw (f, whole)
            (from_start m 1 dest src len (omega arith) apart (omega arith) (omega arith) (suc len)
              len (omega arith) (omega arith))
    ]

-- The loop stops at the first zero.
strlen_loop_lem :
    (fuel n p : ℕ) (m : Memory)
    → n < fuel
    → p + n < 2 ^ 32
    → m (p + n) ≡ 0
    → ((j : ℕ) → j < n → m (p + j) ≢ 0)
    → strlen_loop fuel p m ≡ some (p + n)
unfolding strlen_loop
strlen_loop_lem zero n p m lt fits ends chars = absurd (omega arith)
strlen_loop_lem (suc fuel) zero p m lt fits ends chars =
    let here : (m p == 0) ≡ true = ground (arith, ap m (add-zero p)) in
    rw (here, strlen_loop) (ap some (sym (add-zero p)))
strlen_loop_lem (suc fuel) (suc n) p m lt fits ends chars =
    let first : (m p == 0) ≡ false = ground (arith, chars 0 (omega arith), ap m (add-zero p)) in
    let next : u32 (p + 1) ≡ p + 1 = omega arith in
    let same : (j : ℕ) → p + 1 + j ≡ p + suc j = λ j. omega arith in
    rw (first, strlen_loop)
      (rw next (
        strlen_loop_lem fuel n (p + 1) m (omega arith) (omega arith) (ap m (same n) ∙ ends)
          (λ j less z. chars (suc j) (omega arith) (sym (ap m (same j)) ∙ z))
        ∙ ap some (same n)))

-- The length of a string of `n` characters that are not zero, with a zero behind them, is `n`,
-- when it does not run past the end of the address space and the fuel covers it.
pub strlen_lem :
    (fuel n s : ℕ) (m : Memory)
    → n < fuel
    → s + n < 2 ^ 32
    → m (s + n) ≡ 0
    → ((j : ℕ) → j < n → m (s + j) ≢ 0)
    → strlen fuel s m ≡ some n
unfolding strlen
strlen_lem fuel n s m lt fits ends chars =
    let less : sub32 (s + n) s ≡ n = omega arith in
    rw (strlen_loop_lem fuel n s m lt fits ends chars) (ap some less)

-- A byte of the source is still there after a part of the copy.
source_kept :
    (m : Memory) (d s done total : ℕ)
    → (d + total ≤ s) ⊎ (s + total ≤ d)
    → done < total
    → blit m d m s done (s + done) ≡ m (s + done)
source_kept m d s done total (inl below) lt = ground arith
source_kept m d s done total (inr above) lt = ground arith

module _ (m : Memory) (n d s : ℕ) (apart : (d + (n + 1) ≤ s) ⊎ (s + (n + 1) ≤ d))
    (fits_d : d + n + 1 < 2 ^ 32) (fits_s : s + n + 1 < 2 ^ 32) (ends : m (s + n) ≡ 0)
    (chars : (j : ℕ) → j < n → m (s + j) ≢ 0) where
  strcpy_rest :
      (fuel left done : ℕ)
      → left < fuel
      → done + left ≡ n
      → strcpy fuel (d + done) (s + done) (blit m d m s done) ≡ some (blit m d m s (n + 1))
  unfolding strcpy
  strcpy_rest zero left done lt e = absurd (omega arith)
  strcpy_rest (suc fuel) zero done lt e =
      let all : done ≡ n = omega arith in
      let kept = source_kept m d s done (n + 1) apart (omega arith) in
      let zero_read : m (s + done) ≡ 0 = ap (λ (k : ℕ). m (s + k)) all ∙ ends in
      let stop : (blit m d m s done (s + done) == 0) ≡ true = rw (kept, zero_read) refl in
      rw (stop, strcpy)
        (ap some (blit_on m d s done 1 (n + 1) apart (omega arith))
          ∙ ap (λ (k : ℕ). some (blit m d m s (k + 1))) all)
  strcpy_rest (suc fuel) (suc left) done lt e =
      let kept = source_kept m d s done (n + 1) apart (omega arith) in
      let nonzero : m (s + done) ≢ 0 = chars done (omega arith) in
      let go_on : (blit m d m s done (s + done) == 0) ≡ false = rw kept (ground arith) in
      let next_d : u32 (d + done + 1) ≡ d + (done + 1) = omega arith in
      let next_s : u32 (s + done + 1) ≡ s + (done + 1) = omega arith in
      rw (go_on, strcpy)
        (rw (next_d, next_s, blit_on m d s done 1 (n + 1) apart (omega arith))
          (strcpy_rest fuel left (done + 1) (omega arith) (omega arith)))

  -- A string of `n` characters that are not zero, with a zero behind them, is copied with that
  -- zero and nothing else changes, between areas of `n + 1` bytes that do not overlap or reach the
  -- end of the address space, when the fuel covers the string.
  pub strcpy_lem : (fuel : ℕ) → n < fuel → strcpy fuel d s m ≡ some (blit m d m s (n + 1))
  strcpy_lem fuel lt =
      rw (add-zero d, add-zero s, blit-zero m d m s) at (strcpy_rest fuel n 0 lt (zero-add n))
