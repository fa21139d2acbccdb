-- ===== src/Printf/Float/Crop.antt =====
-- What cropzeros cuts off.
use native.Mathlib.Nat.{add-zero}
use rvcomp.Base.{
  ℕ, zero, suc, ◌+◌, ◌-◌, ◌≤◌, ◌<◌, ◌≡◌, refl, sym, ap, ◌∙◌, ◌≢◌, true, false, ◌&&◌, ◌||◌, Option,
  some, arith, ltb, leb, ◌==◌, if◌then◌else◌, ==_iff, ◌>>=◌, Memory, update,
}
use rvcomp.Printf.Float.{is_exponent, seek_point, seek_stop, skip_zeros, clear_loop, cropzeros}
use rvcomp.Printf.{zeros}

seek_point_lem :
    (fuel i buffer : ℕ) (m : Memory)
    → i < fuel
    → ((j : ℕ) → j < i → (m (buffer + j) ≢ 0) × (m (buffer + j) ≢ b'.'))
    → m (buffer + i) ≡ b'.'
    → seek_point fuel buffer m ≡ some (buffer + i)
unfolding seek_point
seek_point_lem zero i buffer m lt plain stop = absurd (omega arith)
seek_point_lem (suc fuel) zero buffer m lt plain stop =
    let at : buffer + 0 ≡ buffer = add-zero buffer in
    let here : m buffer ≡ b'.' = ap m (sym at) ∙ stop in
    let stops : (m buffer == 0 || m buffer == b'.') ≡ true = ground arith in
    rw (stops, seek_point, at) refl
seek_point_lem (suc fuel) (suc i) buffer m lt plain stop =
    let at : buffer + 0 ≡ buffer = add-zero buffer in
    let (n0, n1) = plain 0 (omega arith) in
    let on : (j : ℕ) → buffer + suc j ≡ buffer + 1 + j = λ j. omega arith in
    rw (passes (m buffer) (λ z. n0 (ap m at ∙ z)) (λ z. n1 (ap m at ∙ z)), seek_point, on i)
      (seek_point_lem fuel i (buffer + 1) m (omega arith)
        (λ j less. rw (on j) at (plain (suc j) (omega arith))) (sym (ap m (on i)) ∙ stop))
  where
    passes : (c : ℕ) → c ≢ 0 → c ≢ b'.' → (c == 0 || c == b'.') ≡ false
    passes c n0 n1 = ground arith

seek_stop_lem :
    (fuel i buffer : ℕ) (m : Memory)
    → i < fuel
    → ((j : ℕ) → j < i → (m (buffer + j) == 0 || is_exponent (m (buffer + j))) ≡ false)
    → (m (buffer + i) == 0 || is_exponent (m (buffer + i))) ≡ true
    → seek_stop fuel buffer m ≡ some (buffer + i)
unfolding seek_stop
seek_stop_lem zero i buffer m lt plain stop = absurd (omega arith)
seek_stop_lem (suc fuel) zero buffer m lt plain stop =
    let at : buffer + 0 ≡ buffer = add-zero buffer in
    let stops : (m buffer == 0 || is_exponent (m buffer)) ≡ true = rw at at stop in
    rw (stops, seek_stop, at) refl
seek_stop_lem (suc fuel) (suc i) buffer m lt plain stop =
    let at : buffer + 0 ≡ buffer = add-zero buffer in
    let first : (m buffer == 0 || is_exponent (m buffer)) ≡ false =
      rw at at (plain 0 (omega arith)) in
    let on : (j : ℕ) → buffer + suc j ≡ buffer + 1 + j = λ j. omega arith in
    rw (first, seek_stop, on i)
      (seek_stop_lem fuel i (buffer + 1) m (omega arith)
        (λ j less. rw (on j) at (plain (suc j) (omega arith))) (rw (on i) at stop))

-- Back over `z` zeros from the last one, at `buffer + z`, to what is in front of them.
skip_zeros_lem :
    (fuel z buffer : ℕ) (m : Memory)
    → z < fuel
    → ((j : ℕ) → j < z → m (buffer + 1 + j) ≡ b'0')
    → m buffer ≢ b'0'
    → skip_zeros fuel (buffer + z) m ≡ some buffer
unfolding skip_zeros
skip_zeros_lem zero z buffer m lt zeros front = absurd (omega arith)
skip_zeros_lem (suc fuel) zero buffer m lt zeros front =
    let at : buffer + 0 ≡ buffer = add-zero buffer in
    let same : m (buffer + 0) ≡ m buffer = ap m at in
    let no_zero : (m (buffer + 0) == b'0') ≡ false = ground arith in
    rw (no_zero, skip_zeros) (ap (λ (k : ℕ). some k) at)
skip_zeros_lem (suc fuel) (suc z) buffer m lt zeros front =
    let at : buffer + 1 + z ≡ buffer + suc z = omega arith in
    let is_zero_char : (m (buffer + suc z) == b'0') ≡ true =
      (==_iff (m (buffer + suc z)) b'0').1 (sym (ap m at) ∙ zeros z (omega arith)) in
    let down : buffer + suc z - 1 ≡ buffer + z = omega arith in
    rw (is_zero_char, skip_zeros, down)
      (skip_zeros_lem fuel z buffer m (omega arith) (λ j less. zeros j (omega arith)) front)

clear_loop_lem :
    (n buffer : ℕ) (m : Memory) (q : ℕ)
    → clear_loop n buffer m q ≡ (if ltb buffer q && leb q (buffer + n) then 0 else m q)
unfolding clear_loop
clear_loop_lem zero buffer m q =
    let out : (ltb buffer q && leb q (buffer + 0)) ≡ false = ground arith in rw out refl
clear_loop_lem (suc n) buffer m q =
    clear_loop_lem n (buffer + 1) (update m (buffer + 1) 0) q ∙ ground arith

bind-some :
    {A : Type 0} {B : Type 0} (o : Option A) (a : A) (f : A → Option B) (r : Option B)
    → o ≡ some a
    → f a ≡ r
    → (o >>= f) ≡ r
bind-some o a f r e h = rw e h

-- In a text with `i` characters before its point and `f` between the point and the exponent or the
-- end, `z` of them zeros behind the last other one, cropzeros keeps what stands in front of these
-- zeros, without the point where nothing is left behind it. It overwrites all up to and with the
-- first character of the exponent by the end of the string, so that an exponent is cut off too.
pub cropzeros_lem :
    (fuel buffer i f z : ℕ) (m : Memory)
    → i + f + 1 < fuel
    → 0 < buffer
    → z ≤ f
    → ((j : ℕ) → j < i → (m (buffer + j) ≢ 0) × (m (buffer + j) ≢ b'.'))
    → m (buffer + i) ≡ b'.'
    → ((j : ℕ)
        → j < f
        → (m (buffer + i + 1 + j) == 0 || is_exponent (m (buffer + i + 1 + j))) ≡ false)
    → (m (buffer + i + 1 + f) == 0 || is_exponent (m (buffer + i + 1 + f))) ≡ true
    → ((j : ℕ) → j < z → m (buffer + i + (f - z) + 1 + j) ≡ b'0')
    → m (buffer + i + (f - z)) ≢ b'0'
    → let last = buffer + i + (f - z) in
      let keep = if m last == b'.' then last - 1 else last in
      (m' : Memory) × (cropzeros fuel buffer m ≡ some m')
      × ((q : ℕ) → m' q ≡ (if ltb keep q && leb q (buffer + i + 1 + f) then 0 else m q))
unfolding cropzeros
cropzeros_lem fuel buffer i f z m room front le whole point fraction stop zeros other =
    let last : ℕ = buffer + i + (f - z) in
    let found = seek_point_lem fuel i buffer m (omega arith) whole point in
    let no_end : (m (buffer + i) == 0) ≡ false = ground arith in
    let ended = seek_stop_lem fuel f (buffer + i + 1) m (omega arith) fraction stop in
    let skipped = skip_zeros_lem fuel z last m (omega arith) zeros other in
    let at : buffer + i + 1 + f - 1 ≡ last + z = omega arith in
    let back : skip_zeros fuel (buffer + i + 1 + f - 1) m ≡ some last =
      ap (λ (k : ℕ). skip_zeros fuel k m) at ∙ skipped in
    (
      clear_loop (buffer + i + 1 + f - kept last) (kept last) m,
      bind-some _ _ _ _ found (rw no_end (bind-some _ _ _ _ ended (bind-some _ _ _ _ back refl))),
      λ q.
          clear_loop_lem (buffer + i + 1 + f - kept last) (kept last) m q
          ∙ let reach : kept last + (buffer + i + 1 + f - kept last) ≡ buffer + i + 1 + f =
              reached last (omega arith) in
            rw reach refl,
    )
  where
    kept : ℕ → ℕ
    kept last = if m last == b'.' then last - 1 else last

    reached :
        (last : ℕ)
        → last ≤ buffer + i + 1 + f
        → kept last + (buffer + i + 1 + f - kept last) ≡ buffer + i + 1 + f
    reached last le = ground arith
