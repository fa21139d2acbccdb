-- ===== src/Strings/Comparing.antt =====
-- memcmp and strcmp give the difference of the first bytes that differ, and atol reads a number.
use native.Mathlib.Nat.{add-zero}
use rvcomp.Base.Int.{ℤ, pos, minus}
use rvcomp.Base.{
  ℕ, zero, suc, ◌+◌, ◌-◌, ◌*◌, ◌/◌, ◌^◌, ◌≤◌, ◌<◌, bit_and, bit_or, ◌≡◌, refl, ap, ◌∙◌, ◌≢◌, ◌⊎◌,
  inl, inr, true, false, not, ◌&&◌, some, arith, ◌==◌, Bool-cases, Memory, u32,
}
use rvcomp.Strings.{word_at, same_words, compare_bytes, strcmp, memcmp}

abbrev pub IsBytes : Memory → Type 0
IsBytes m = (p : ℕ) → m p < 256

-- Equal words are equal bytes.
word_bytes :
    (m : Memory) (p q : ℕ)
    → IsBytes m
    → word_at m p ≡ word_at m q
    → (m p ≡ m q) × (m (p + 1) ≡ m (q + 1)) × (m (p + 2) ≡ m (q + 2)) × (m (p + 3) ≡ m (q + 3))
word_bytes m p q small e =
    let p0 = small p in
    let p1 = small (p + 1) in
    let p2 = small (p + 2) in
    let p3 = small (p + 3) in
    let q0 = small q in
    let q1 = small (q + 1) in
    let q2 = small (q + 2) in
    let q3 = small (q + 3) in (omega arith, omega arith, omega arith, omega arith)

step :
    (n s1 s2 : ℕ) (m : Memory)
    → m s1 ≡ m s2
    → compare_bytes (suc n) s1 s2 m ≡ compare_bytes n (s1 + 1) (s2 + 1) m
unfolding compare_bytes
step n s1 s2 m e = let same : (m s1 == m s2) ≡ true = ground arith in rw (same, compare_bytes) refl

-- Four equal bytes make no difference.
four :
    (n s1 s2 : ℕ) (m : Memory)
    → IsBytes m
    → word_at m s1 ≡ word_at m s2
    → compare_bytes (suc (suc (suc (suc n)))) s1 s2 m ≡ compare_bytes n (s1 + 4) (s2 + 4) m
four n s1 s2 m small e =
    let (e0, e1, e2, e3) = word_bytes m s1 s2 small e in
    let two : (p : ℕ) → p + 1 + 1 ≡ p + 2 = λ p. omega arith in
    let three : (p : ℕ) → p + 2 + 1 ≡ p + 3 = λ p. omega arith in
    let all : (p : ℕ) → p + 3 + 1 ≡ p + 4 = λ p. omega arith in
    step (suc (suc (suc n))) s1 s2 m e0
    ∙ (step (suc (suc n)) (s1 + 1) (s2 + 1) m e1
        ∙ rw (two s1, two s2)
            (step (suc n) (s1 + 2) (s2 + 2) m e2
              ∙ rw (three s1, three s2) (step n (s1 + 3) (s2 + 3) m e3 ∙ rw (all s1, all s2) refl)))

-- The words that are passed hold the same bytes.
same_words_lem :
    (k n s1 s2 : ℕ) (m : Memory)
    → IsBytes m
    → 4 * k ≤ n
    → let skip = 4 * same_words k s1 s2 m in
      (skip ≤ n) × (compare_bytes n s1 s2 m ≡ compare_bytes (n - skip) (s1 + skip) (s2 + skip) m)
unfolding same_words
same_words_lem zero n s1 s2 m small le =
    (omega arith, let rest : n - 0 ≡ n = omega arith in rw (rest, add-zero s1, add-zero s2) refl)
same_words_lem (suc k) n s1 s2 m small le = elim (Bool-cases (word_at m s1 == word_at m s2)) [
  | inl e ↦
      let q : ℕ = same_words k (s1 + 4) (s2 + 4) m in
      let (le', e') = same_words_lem k (n - 4) (s1 + 4) (s2 + 4) m small (omega arith) in
      let whole : n ≡ suc (suc (suc (suc (n - 4)))) = omega arith in
      let left : n - 4 * suc q ≡ n - 4 - 4 * q = omega arith in
      let at : (p : ℕ) → p + 4 * suc q ≡ p + 4 + 4 * q = λ p. omega arith in
      let equal : word_at m s1 ≡ word_at m s2 = ground arith in
      rw (e, same_words)
        (
          omega (arith, le'),
          rw (left, at s1, at s2)
              (ap (λ (x : ℕ). compare_bytes x s1 s2 m) whole
                ∙ (four (n - 4) s1 s2 m small equal ∙ e')),
        )
  | inr e ↦
      rw (e, same_words)
        (
          omega arith,
          let rest : n - 0 ≡ n = omega arith in rw (rest, add-zero s1, add-zero s2) refl,
        )
]

-- What a comparison of `n` bytes tells: no difference, or that of the first bytes that differ.
abbrev pub Compared : ℕ → ℕ → ℕ → Memory → ℤ → Type 0
Compared n s1 s2 m r =
    ((j : ℕ) → j < n → m (s1 + j) ≡ m (s2 + j)) × (r ≡ pos 0)
    ⊎ ((j : ℕ) × (j < n)
        × ((i : ℕ) → i < j → m (s1 + i) ≡ m (s2 + i))
        × (m (s1 + j) ≢ m (s2 + j))
        × (r ≡ minus (pos (m (s1 + j))) (m (s2 + j))))

-- A first byte that is equal moves the comparison one on.
Compared-suc :
    (n s1 s2 : ℕ) (m : Memory) (r : ℤ)
    → m s1 ≡ m s2
    → Compared n (s1 + 1) (s2 + 1) m r
    → Compared (suc n) s1 s2 m r
Compared-suc n s1 s2 m r e c =
    let on : (p i : ℕ) → p + 1 + i ≡ p + suc i = λ p i. omega arith in
    let first : m (s1 + 0) ≡ m (s2 + 0) = rw (add-zero s1, add-zero s2) e in go on first c
  where
    upto :
        (k : ℕ)
        → ((p i : ℕ) → p + 1 + i ≡ p + suc i)
        → m (s1 + 0) ≡ m (s2 + 0)
        → ((i : ℕ) → i < k → m (s1 + 1 + i) ≡ m (s2 + 1 + i))
        → (i : ℕ) → i < suc k
        → m (s1 + i) ≡ m (s2 + i)
    upto k on first same zero lt = first
    upto k on first same (suc i) lt = rw (on s1 i, on s2 i) at (same i (omega arith))

    go :
        ((p i : ℕ) → p + 1 + i ≡ p + suc i)
        → m (s1 + 0) ≡ m (s2 + 0)
        → Compared n (s1 + 1) (s2 + 1) m r
        → Compared (suc n) s1 s2 m r
    go on first (inl (same, z)) = inl (upto n on first same, z)
    go on first (inr (j, lt, same, ne, z)) = inr (
      suc j,
      omega arith,
      upto j on first same,
      rw (on s1 j, on s2 j) at ne,
      rw (on s1 j, on s2 j) at z,
    )

compare_bytes_lem : (n s1 s2 : ℕ) (m : Memory) → Compared n s1 s2 m (compare_bytes n s1 s2 m)
unfolding compare_bytes
compare_bytes_lem zero s1 s2 m = inl ((λ j lt. absurd (omega arith)), refl)
compare_bytes_lem (suc n) s1 s2 m = elim (Bool-cases (m s1 == m s2)) [
  | inl e ↦
      rw (e, compare_bytes)
        (Compared-suc n s1 s2 m (compare_bytes n (s1 + 1) (s2 + 1) m) (ground arith)
          (compare_bytes_lem n (s1 + 1) (s2 + 1) m))
  | inr e ↦
      let ne : m s1 ≢ m s2 = ground arith in
      rw (e, compare_bytes)
        (inr (
          0,
          omega arith,
          (λ i lt. absurd (omega arith)),
          (rw (add-zero s1, add-zero s2) ne),
          rw (add-zero s1, add-zero s2) refl,
        ))
]

-- For bytes, memcmp gives 0 when the `n` bytes of both areas are equal, and otherwise the
-- difference of the first two that differ, whether it compares words before bytes or not.
pub memcmp_lem : (s1 s2 n : ℕ) (m : Memory) → IsBytes m → Compared n s1 s2 m (memcmp s1 s2 n m)
unfolding memcmp
memcmp_lem s1 s2 n m small =
    let by_words : compare_bytes n s1 s2 m ≡ memcmp s1 s2 n m =
      elim (Bool-cases (bit_and (bit_or s1 s2) 3 == 0)) [
        | inl t ↦ rw t ((same_words_lem (n / 4) n s1 s2 m small (omega arith)).1)
        | inr f ↦ let rest : n - 0 ≡ n = omega arith in rw (f, rest, add-zero s1, add-zero s2) refl
      ] in
    rw by_words at (compare_bytes_lem n s1 s2 m)

-- strcmp gives the difference of the characters at the first place where the strings differ or the
-- first one ends, before the end of the address space and within the fuel.
pub strcmp_lem :
    (fuel n s1 s2 : ℕ) (m : Memory)
    → n < fuel
    → s1 + n < 2 ^ 32
    → s2 + n < 2 ^ 32
    → ((j : ℕ) → j < n → (m (s1 + j) ≢ 0) × (m (s1 + j) ≡ m (s2 + j)))
    → (m (s1 + n) ≡ 0) ⊎ (m (s1 + n) ≢ m (s2 + n))
    → strcmp fuel s1 s2 m ≡ some (minus (pos (m (s1 + n))) (m (s2 + n)))
unfolding strcmp
strcmp_lem zero n s1 s2 m lt fits1 fits2 same stop = absurd (omega arith)
strcmp_lem (suc fuel) zero s1 s2 m lt fits1 fits2 same stop =
    let stop' : (m s1 ≡ 0) ⊎ (m s1 ≢ m s2) = rw (add-zero s1, add-zero s2) at stop in
    let last : (not (m s1 == 0) && m s1 == m s2) ≡ false = ground arith in
    rw (last, strcmp, add-zero s1, add-zero s2) refl
strcmp_lem (suc fuel) (suc n) s1 s2 m lt fits1 fits2 same stop =
    let (nonzero, equal) = same 0 (omega arith) in
    let go_on : (not (m s1 == 0) && m s1 == m s2) ≡ true =
      let nonzero' : m s1 ≢ 0 = rw (add-zero s1) at nonzero in
      let equal' : m s1 ≡ m s2 = rw (add-zero s1, add-zero s2) at equal in ground arith in
    let next1 : u32 (s1 + 1) ≡ s1 + 1 = omega arith in
    let next2 : u32 (s2 + 1) ≡ s2 + 1 = omega arith in
    let on : (p i : ℕ) → p + 1 + i ≡ p + suc i = λ p i. omega arith in
    rw (go_on, strcmp, next1, next2)
      (rw (← on s1 n, ← on s2 n)
        (strcmp_lem fuel n (s1 + 1) (s2 + 1) m (omega arith) (omega arith) (omega arith)
          (λ j less. rw (on s1 j, on s2 j) (same (suc j) (omega arith)))
          (rw (on s1 n, on s2 n) stop)))
