-- ===== src/NetDriver/Rx/Copy.antt =====
-- The copy loop of rvcomp_rx_one gives the bytes of the ring.
use native.Mathlib.Decide.{dec_lt}
use native.Mathlib.Nat.{mod-eq_of_lt, mod-lt, mod-add-mod, mod_self}
use rvcomp.Base.{
  ℕ, zero, suc, ◌+◌, ◌*◌, ◌/◌, ◌%◌, ◌^◌, ◌≤◌, ◌<◌, bit_and, ◌≡◌, refl, sym, ap, ap₂, ◌∙◌, some,
  List, [], ◌∷◌, ◌++◌, append-nil, append_assoc, arith, length, length-append, Memory, u32, ◌<<<◌,
  ◌>>>◌,
}
use rvcomp.NetDriver.Tx.Ring.{byte_at, byte_at-ring}
use rvcomp.NetDriver.Tx.Fifo.{ring_bytes}
use rvcomp.Bits.{bit_and_mask}
use rvcomp.NetDriver.Rx.{put_word, put_byte, pull}

put_byte-lt : (len b : ℕ) (buf : List ℕ) → length buf < len → put_byte len b buf ≡ buf ++ b ∷ []
put_byte-lt len b buf h = ground arith

put_byte-full : (len b : ℕ) (buf : List ℕ) → len ≤ length buf → put_byte len b buf ≡ buf
put_byte-full len b buf h = ground arith

pull-done :
    (fuel size len w : ℕ) (m : Memory) (buf : List ℕ)
    → len ≤ length buf
    → pull (suc fuel) m size len w buf ≡ some buf
unfolding pull
pull-done fuel size len w m buf h = ground arith

pull_step :
    (fuel size len w : ℕ) (m : Memory) (buf : List ℕ)
    → length buf < len
    → pull (suc fuel) m size len w buf
      ≡ pull fuel m size len (u32 (w + 1) % (size >>> 2)) (put_word len (m (u32 (w <<< 2))) buf)
unfolding pull
pull_step fuel size len w m buf h = ground arith

-- The next word of the ring.
next_word :
    (size p w : ℕ)
    → p % 4 ≡ 0
    → size % 4 ≡ 0
    → 0 < size
    → w * 4 ≡ p % size
    → (w + 1) % (size / 4) * 4 ≡ (p + 4) % size
next_word size p w hp hs pos e =
    let next : (p % size + 4) % size ≡ (p + 4) % size = mod-add-mod p size 4 in
    let below : p % size < size = mod-lt p pos in
    elim (dec_lt (w + 1) (size / 4)) [
      | yes lt ↦ omega (
        arith,
        next,
        mod-eq_of_lt {n = w + 1} {m = size / 4} lt,
        mod-eq_of_lt {n = p % size + 4} {m = size} (omega arith),
      )
      | no ge ↦
          let top : w + 1 ≡ size / 4 = omega arith in
          let full : p % size + 4 ≡ size = omega arith in
          omega (
            arith,
            next,
            ap (λ (k : ℕ). k % (size / 4)) top,
            mod_self (size / 4),
            ap (λ (k : ℕ). k % size) full,
            mod_self size,
          )
    ]

abbrev bytes_of : ℕ → List ℕ
bytes_of x = x % 256 ∷ x / 256 % 256 ∷ x / 65536 % 256 ∷ x / 16777216 % 256 ∷ []

-- What the four tests append with `r` bytes wanted.
abbrev first : ℕ → List ℕ → List ℕ
first zero xs = []
first (suc n) [] = []
first (suc n) (x ∷ xs) = x ∷ first n xs

first-nil : (n : ℕ) → first n [] ≡ []
first-nil zero = refl
first-nil (suc n) = refl

byte_mask : (x : ℕ) → bit_and x 0xff ≡ x % 256
byte_mask x = bit_and_mask 8 x

abbrev put_all : ℕ → List ℕ → List ℕ → List ℕ
put_all len [] buf = buf
put_all len (x ∷ xs) buf = put_all len xs (put_byte len x buf)

put_all_lem :
    (r len : ℕ) (xs buf : List ℕ) → length buf + r ≡ len → put_all len xs buf ≡ buf ++ first r xs
put_all_lem zero len [] buf e = sym (append-nil buf)
put_all_lem (suc r) len [] buf e = sym (append-nil buf)
put_all_lem zero len (x ∷ xs) buf e =
    rw (put_byte-full len x buf (omega arith)) (put_all_lem zero len xs buf e)
put_all_lem (suc r) len (x ∷ xs) buf e = rw (put_byte-lt len x buf (omega arith)) (
    put_all_lem r len xs (buf ++ x ∷ []) (omega (arith, length-append buf (x ∷ [])))
    ∙ append_assoc buf (x ∷ []) (first r xs))

put_word_lem :
    (r len x : ℕ) (buf : List ℕ)
    → length buf + r ≡ len
    → put_word len x buf ≡ buf ++ first r (bytes_of x)
put_word_lem r len x buf e =
    rw (byte_mask x, byte_mask (x >>> 8), byte_mask (x >>> 16), byte_mask (x >>> 24))
      (put_all_lem r len (bytes_of x) buf e)

module _ (m : Memory) (size : ℕ) (aligned : size % 4 ≡ 0) (pos : 0 < size)
    (small : size ≤ 2 ^ 26) where
  -- Byte `k` of the word at `p`.
  word_byte :
      (p w k q : ℕ)
      → p % 4 ≡ 0
      → w * 4 ≡ p % size
      → k < 4
      → q ≡ p + k
      → m (w * 4) / 256 ^ k % 256 ≡ byte_at m (q % size)
  word_byte p w k q hp e lt eq =
      let here : p + 4 * (k / 4) ≡ p = omega arith in
      let low : k % 4 ≡ k = omega arith in
      rw (eq, byte_at-ring m p size k hp aligned pos, here, low, ← e)

  word_bytes :
      (p w : ℕ) → p % 4 ≡ 0 → w * 4 ≡ p % size → bytes_of (m (w * 4)) ≡ ring_bytes m size p 4
  word_bytes p w hp e =
      let b = word_byte p w in
      let b0 : m (w * 4) % 256 ≡ byte_at m (p % size) =
        omega (arith, b 0 p hp e (omega arith) (omega arith)) in
      ap₂ ◌∷◌ b0 (
        ap₂ ◌∷◌ (b 1 (p + 1) hp e (omega arith) refl) (
          ap₂ ◌∷◌ (b 2 (p + 1 + 1) hp e (omega arith) (omega arith))
            (ap (λ (x : ℕ). x ∷ []) (b 3 (p + 1 + 1 + 1) hp e (omega arith) (omega arith)))))

  -- One round of the loop with `r` bytes wanted.
  pull_word :
      (fuel r len p w : ℕ) (buf : List ℕ)
      → 0 < r
      → length buf + r ≡ len
      → p % 4 ≡ 0
      → w * 4 ≡ p % size
      → pull (suc fuel) m size len w buf
        ≡ pull fuel m size len ((w + 1) % (size / 4)) (buf ++ first r (ring_bytes m size p 4))
  pull_word fuel r len p w buf lt e hp hw =
      let below : p % size < size = mod-lt p pos in
      let no_wrap : u32 (w * 2 ^ 2) ≡ w * 4 = omega arith in
      let next : u32 (w + 1) ≡ w + 1 = omega arith in
      pull_step fuel size len w m buf (omega arith)
      ∙ ap₂ (λ (a x : ℕ). pull fuel m size len (a % (size / 2 ^ 2)) (put_word len (m x) buf)) next
          no_wrap
      ∙ ap (λ (b : List ℕ). pull fuel m size len ((w + 1) % (size / 4)) b)
          (put_word_lem r len (m (w * 4)) buf e
            ∙ ap (λ (b : List ℕ). buf ++ first r b) (word_bytes p w hp hw))

  length-first : (r p : ℕ) → r ≤ 4 → length (first r (ring_bytes m size p 4)) ≡ r
  length-first zero p h = refl
  length-first (suc zero) p h = refl
  length-first (suc (suc zero)) p h = refl
  length-first (suc (suc (suc zero))) p h = refl
  length-first (suc (suc (suc (suc zero)))) p h = refl
  length-first (suc (suc (suc (suc (suc r))))) p h = absurd (omega arith)

  -- The last round, with fewer than four bytes wanted.
  pull_last :
      (fuel r len p w : ℕ) (buf : List ℕ)
      → 0 < r
      → r < 4
      → length buf + r ≡ len
      → p % 4 ≡ 0
      → w * 4 ≡ p % size
      → pull (suc (suc fuel)) m size len w buf ≡ some (buf ++ first r (ring_bytes m size p 4))
  pull_last fuel r len p w buf lt lt4 e hp hw =
      pull_word (suc fuel) r len p w buf lt e hp hw
      ∙ pull-done fuel size len ((w + 1) % (size / 4)) m (buf ++ first r (ring_bytes m size p 4)) (
          omega (
            arith,
            length-append buf (first r (ring_bytes m size p 4)),
            length-first r p (omega arith),
          ))

  -- With `r` bytes still wanted the loop appends the next `r` bytes of the ring.
  pub pull_lem :
      (fuel r len p w : ℕ) (buf : List ℕ)
      → r < fuel
      → length buf + r ≡ len
      → p % 4 ≡ 0
      → w * 4 ≡ p % size
      → pull fuel m size len w buf ≡ some (buf ++ ring_bytes m size p r)
  pull_lem zero r len p w buf lt e hp hw = absurd (omega arith)
  pull_lem (suc fuel) zero len p w buf lt e hp hw =
      pull-done fuel size len w m buf (omega arith)
      ∙ ap (λ (b : List ℕ). some b) (sym (append-nil buf))
  pull_lem (suc zero) (suc r) len p w buf lt e hp hw = absurd (omega arith)
  pull_lem (suc (suc fuel)) (suc zero) len p w buf lt e hp hw =
      pull_last fuel 1 len p w buf (omega arith) (omega arith) e hp hw
  pull_lem (suc (suc fuel)) (suc (suc zero)) len p w buf lt e hp hw =
      pull_last fuel 2 len p w buf (omega arith) (omega arith) e hp hw
  pull_lem (suc (suc fuel)) (suc (suc (suc zero))) len p w buf lt e hp hw =
      pull_last fuel 3 len p w buf (omega arith) (omega arith) e hp hw
  pull_lem (suc (suc fuel)) (suc (suc (suc (suc r)))) len p w buf lt e hp hw =
      let four = ring_bytes m size p 4 in
      let four_on : p + 4 ≡ p + 1 + 1 + 1 + 1 = omega arith in
      pull_word (suc fuel) (suc (suc (suc (suc r)))) len p w buf (omega arith) e hp hw
      ∙ ap
          (λ (t : List ℕ). pull (suc fuel) m size len ((w + 1) % (size / 4)) (
            buf
            ++ byte_at m (p % size)
              ∷ byte_at m ((p + 1) % size)
              ∷ byte_at m ((p + 1 + 1) % size)
              ∷ byte_at m ((p + 1 + 1 + 1) % size)
              ∷ t))
          (first-nil r)
      ∙ pull_lem (suc fuel) r len (p + 4) ((w + 1) % (size / 4)) (buf ++ four) (omega arith)
          (omega (arith, length-append buf four)) (omega arith)
          (next_word size p w hp aligned pos hw)
      ∙ ap (λ (b : List ℕ). some b)
          (append_assoc buf four (ring_bytes m size (p + 4) r)
            ∙ ap (λ (q : ℕ). buf ++ (four ++ ring_bytes m size q r)) four_on)
