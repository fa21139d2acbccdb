-- ===== src/Printf/Float/Point.antt =====
-- Where decimal_point puts the point.
use native.Mathlib.Nat.{add-zero}
use rvcomp.Base.{
  ℕ, zero, suc, ◌+◌, ◌-◌, ◌≤◌, ◌<◌, ◌≡◌, refl, sym, ap, ◌∙◌, ◌≢◌, inl, inr, true, false, ◌&&◌, ◌||◌,
  some, arith, leb, ◌==◌, if◌then◌else◌, ==_iff, Bool-cases, Memory, update, update_self, update_ne,
}
use rvcomp.Printf.Float.{is_exponent, point_loop, strnlen_at, shift_loop, decimal_point}

-- The first `i` characters stop nothing.
abbrev pub IsPlain : Memory → ℕ → ℕ → Type 0
IsPlain m buffer i =
    (j : ℕ)
    → j < i
    → (m (buffer + j) == 0 || m (buffer + j) == b'.' || is_exponent (m (buffer + j))) ≡ false

point_loop_lem :
    (fuel i buffer : ℕ) (m : Memory)
    → i < fuel
    → IsPlain m buffer i
    → (m (buffer + i) == 0 || m (buffer + i) == b'.' || is_exponent (m (buffer + i))) ≡ true
    → point_loop fuel buffer m ≡ some (buffer + i)
unfolding point_loop
point_loop_lem zero i buffer m lt plain stop = absurd (omega arith)
point_loop_lem (suc fuel) zero buffer m lt plain stop =
    let at : buffer + 0 ≡ buffer = add-zero buffer in
    let stop' : (m buffer == 0 || m buffer == b'.' || is_exponent (m buffer)) ≡ true =
      rw at at stop in
    rw (stop', point_loop, at) refl
point_loop_lem (suc fuel) (suc i) buffer m lt plain stop =
    let first : (m buffer == 0 || m buffer == b'.' || is_exponent (m buffer)) ≡ false =
      let at : buffer + 0 ≡ buffer = add-zero buffer in rw at at (plain 0 (omega arith)) in
    let on : (j : ℕ) → buffer + suc j ≡ buffer + 1 + j = λ j. omega arith in
    rw (first, point_loop, on i)
      (point_loop_lem fuel i (buffer + 1) m (omega arith)
        (λ j less. rw (on j) at (plain (suc j) (omega arith))) (rw (on i) at stop))

-- What the shifting leaves: the first two characters stay, the others move one on.
shift_loop_lem :
    (n buffer : ℕ) (m : Memory) (q : ℕ)
    → shift_loop n buffer m q
      ≡ (if leb (buffer + 2) q && leb q (buffer + (n + 1)) then m (q - 1) else m q)
unfolding shift_loop
shift_loop_lem zero buffer m q =
    let out : (leb (buffer + 2) q && leb q (buffer + (0 + 1))) ≡ false = ground arith in rw out refl
shift_loop_lem (suc n) buffer m q =
    let rest = shift_loop_lem n buffer (update m (buffer + (suc n + 1)) (m (buffer + suc n))) q in
    rest ∙ elim (Bool-cases (q == buffer + (suc n + 1))) [
      | inl e ↦
          let here : q ≡ buffer + (suc n + 1) = (==_iff q (buffer + (suc n + 1))).0 e in
          let low : (leb (buffer + 2) q && leb q (buffer + (n + 1))) ≡ false = ground arith in
          let high : (leb (buffer + 2) q && leb q (buffer + (suc n + 1))) ≡ true = ground arith in
          let hit : (buffer + (suc n + 1) == q) ≡ true =
            (==_iff (buffer + (suc n + 1)) q).1 (sym here) in
          let at : buffer + suc n ≡ q - 1 = omega arith in rw (low, high, hit, at) refl
      | inr e ↦ elim (Bool-cases (leb (buffer + 2) q && leb q (buffer + (n + 1)))) [
        | inl inside ↦
            let more : (leb (buffer + 2) q && leb q (buffer + (suc n + 1))) ≡ true = ground arith in
            let miss : (buffer + (suc n + 1) == q - 1) ≡ false = ground arith in
            rw (inside, more, miss) refl
        | inr outside ↦
            let still : (leb (buffer + 2) q && leb q (buffer + (suc n + 1))) ≡ false =
              ground arith in
            let miss : (buffer + (suc n + 1) == q) ≡ false = ground arith in
            rw (outside, still, miss) refl
      ]
    ]

strnlen_at_lem :
    (count k s : ℕ) (m : Memory)
    → k ≤ count
    → ((j : ℕ) → j < k → m (s + j) ≢ 0)
    → m (s + k) ≡ 0
    → strnlen_at count s m ≡ k
unfolding strnlen_at
strnlen_at_lem zero k s m le chars end = omega arith
strnlen_at_lem (suc count) zero s m le chars end =
    let last : (m s == 0) ≡ true = (==_iff (m s) 0).1 (ap m (sym (add-zero s)) ∙ end) in
    rw (last, strnlen_at) refl
strnlen_at_lem (suc count) (suc k) s m le chars end =
    let first : (m s == 0) ≡ false =
      nonzero (m s) (λ z. chars 0 (omega arith) (ap m (add-zero s) ∙ z)) in
    let on : (j : ℕ) → s + suc j ≡ s + 1 + j = λ j. omega arith in
    rw (first, strnlen_at)
      (ap suc (
        strnlen_at_lem count k (s + 1) m (omega arith)
          (λ j lt z. chars (suc j) (omega arith) (ap m (on j) ∙ z)) (sym (ap m (on k)) ∙ end)))
  where
    nonzero : (c : ℕ) → c ≢ 0 → (c == 0) ≡ false
    nonzero c ne = ground arith

exponent_char : (c : ℕ) → is_exponent c ≡ true → ((c == b'.') ≡ false) × ((c == 0) ≡ false)
exponent_char c e = (ground arith, ground arith)

-- decimal_point looks for the first character that is a point, the letter of an exponent or the
-- end. It leaves a text with a point as it is and puts one at the end of a text without either. In
-- front of an exponent it writes the point over the exponent's letter, and moves the characters
-- behind the letter on, the first of which is then there twice.
pub decimal_point_lem :
    (fuel i buffer : ℕ) (m : Memory)
    → i < fuel
    → IsPlain m buffer i
    → let at = buffer + i in
      (m at ≡ b'.' → decimal_point fuel buffer m ≡ some m)
      × (m at ≡ 0
          → (m' : Memory) × (decimal_point fuel buffer m ≡ some m')
            × (m' at ≡ b'.')
            × (m' (at + 1) ≡ 0)
            × ((q : ℕ) → q ≢ at → q ≢ at + 1 → m' q ≡ m q))
      × ((k : ℕ)
          → is_exponent (m at) ≡ true
          → 1 ≤ k
          → k ≤ 256
          → ((j : ℕ) → j < k → m (at + j) ≢ 0)
          → m (at + k) ≡ 0
          → (m' : Memory) × (decimal_point fuel buffer m ≡ some m')
            × (m' at ≡ b'.')
            × (m' (at + 1) ≡ m (at + 1))
            × ((j : ℕ) → 1 ≤ j → j ≤ k → m' (at + 1 + j) ≡ m (at + j)))
unfolding decimal_point
decimal_point_lem fuel i buffer m lt plain = (point_case, end_case, exponent_case)
  where
    point_case : m (buffer + i) ≡ b'.' → decimal_point fuel buffer m ≡ some m
    point_case e =
        let is_point : (m (buffer + i) == b'.') ≡ true = (==_iff (m (buffer + i)) b'.').1 e in
        let stop : (m (buffer + i) == 0 || m (buffer + i) == b'.' || is_exponent (m (buffer + i)))
            ≡ true =
          ground arith in
        rw (point_loop_lem fuel i buffer m lt plain stop, is_point) refl

    end_case :
        m (buffer + i) ≡ 0
        → (m' : Memory) × (decimal_point fuel buffer m ≡ some m')
          × (m' (buffer + i) ≡ b'.')
          × (m' (buffer + i + 1) ≡ 0)
          × ((q : ℕ) → q ≢ buffer + i → q ≢ buffer + i + 1 → m' q ≡ m q)
    end_case e =
        let is_end : (m (buffer + i) == 0) ≡ true = (==_iff (m (buffer + i)) 0).1 e in
        let no_point : (m (buffer + i) == b'.') ≡ false = ground arith in
        let stop : (m (buffer + i) == 0 || m (buffer + i) == b'.' || is_exponent (m (buffer + i)))
            ≡ true =
          ground arith in
        (
          update (update m (buffer + i) b'.') (buffer + i + 1) 0,
          rw (point_loop_lem fuel i buffer m lt plain stop, no_point, is_end) refl,
          update_ne (update m (buffer + i) b'.') (buffer + i + 1) 0 (buffer + i) (omega arith)
              ∙ update_self m (buffer + i) b'.',
          update_self (update m (buffer + i) b'.') (buffer + i + 1) 0,
          λ q n0 n1.
              update_ne (update m (buffer + i) b'.') (buffer + i + 1) 0 q (λ z. n1 (sym z))
              ∙ update_ne m (buffer + i) b'.' q (λ z. n0 (sym z)),
        )

    exponent_case :
        (k : ℕ)
        → is_exponent (m (buffer + i)) ≡ true
        → 1 ≤ k
        → k ≤ 256
        → ((j : ℕ) → j < k → m (buffer + i + j) ≢ 0)
        → m (buffer + i + k) ≡ 0
        → (m' : Memory) × (decimal_point fuel buffer m ≡ some m')
          × (m' (buffer + i) ≡ b'.')
          × (m' (buffer + i + 1) ≡ m (buffer + i + 1))
          × ((j : ℕ) → 1 ≤ j → j ≤ k → m' (buffer + i + 1 + j) ≡ m (buffer + i + j))
    exponent_case k e least most chars end =
        let at : ℕ = buffer + i in
        let (no_point, no_end) = exponent_char (m (buffer + i)) e in
        let stop : (m (buffer + i) == 0 || m (buffer + i) == b'.' || is_exponent (m (buffer + i)))
            ≡ true =
          rw (no_point, no_end) e in
        let len = strnlen_at_lem 256 k (buffer + i) m most chars end in
        let moved = shift_loop_lem k (buffer + i) m in
        (
          update (shift_loop k (buffer + i) m) (buffer + i) b'.',
          rw (point_loop_lem fuel i buffer m lt plain stop, no_point, no_end, len) refl,
          update_self (shift_loop k (buffer + i) m) (buffer + i) b'.',
          update_ne (shift_loop k (buffer + i) m) (buffer + i) b'.' (buffer + i + 1) (omega arith)
              ∙ (moved (buffer + i + 1)
                  ∙ let out : (leb (buffer + i + 2) (buffer + i + 1)
                          && leb (buffer + i + 1) (buffer + i + (k + 1)))
                        ≡ false =
                      ground arith in
                    rw out refl),
          λ j one last.
              update_ne (shift_loop k (buffer + i) m) (buffer + i) b'.' (buffer + i + 1 + j)
                (omega arith)
              ∙ (moved (buffer + i + 1 + j)
                  ∙ let inside : (leb (buffer + i + 2) (buffer + i + 1 + j)
                          && leb (buffer + i + 1 + j) (buffer + i + (k + 1)))
                        ≡ true =
                      ground arith in
                    let back : buffer + i + 1 + j - 1 ≡ buffer + i + j = omega arith in
                    rw (inside, back) refl),
        )
