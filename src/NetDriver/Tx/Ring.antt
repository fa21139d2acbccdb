-- ===== src/NetDriver/Tx/Ring.antt =====
-- Positions on a ring of words, and what the ring writes leave at each of them.
use native.Mathlib.Nat.{
  mod-eq_of_lt, mod-lt, mod-add-mod, mod-eq-sub-mod, mod-mod_of_dvd, dvd_of_mod-eq-zero,
  add-mod_right, add-zero,
}
use native.Mathlib.Decide.{dec_lt}
use rvcomp.Base.{
  ℕ, zero, suc, ◌+◌, ◌-◌, ◌*◌, ◌/◌, ◌%◌, ◌^◌, ◌≤◌, ◌<◌, ◌≡◌, refl, sym, ap, ◌∙◌, ◌≢◌, ◌⊎◌, inl, inr,
  List, arith, Memory, update, update_self, update_ne,
}
use rvcomp.NetDriver.Tx.{payload_byte}
use rvcomp.NetDriver.Tx.Fill.{written, payload_word, IsBytes, payload_byte-lt}

-- The byte at address `a` of a little-endian memory of words.
abbrev pub byte_at : Memory → ℕ → ℕ
byte_at m a = m (a / 4 * 4) / 256 ^ (a % 4) % 256

-- Going less than once round the ring does not come back.
pub ring_ne : (size pos d : ℕ) → pos < size → 0 < d → d < size → (pos + d) % size ≢ pos
ring_ne size pos d hp hd lt = elim (dec_lt (pos + d) size) [
  | yes p ↦ omega (arith, mod-eq_of_lt p)
  | no p ↦ omega (
    arith,
    mod-eq-sub-mod {n = pos + d} {m = size} (omega arith),
    mod-eq_of_lt {n = pos + d - size} {m = size} (omega arith),
  )
]

pub mod-aligned : (a size : ℕ) → a % 4 ≡ 0 → size % 4 ≡ 0 → a % size % 4 ≡ 0
mod-aligned a size ha hs = mod-mod_of_dvd 4 {b = size} a (dvd_of_mod-eq-zero 4 hs) ∙ ha

-- Byte `j` from an aligned position lies in word `j / 4` from it.
pub ring_word :
    (p size j : ℕ)
    → p % 4 ≡ 0
    → size % 4 ≡ 0
    → 0 < size
    → (p + j) % size ≡ (p + 4 * (j / 4)) % size + j % 4
ring_word p size j hp hs pos =
    let x : ℕ = (p + 4 * (j / 4)) % size in
    let below : x < size = mod-lt _ pos in
    let aligned : x % 4 ≡ 0 = mod-aligned (p + 4 * (j / 4)) size (omega arith) hs in
    ap (λ (k : ℕ). k % size) (omega arith)
    ∙ sym (mod-add-mod (p + 4 * (j / 4)) size (j % 4))
    ∙ mod-eq_of_lt {n = x + j % 4} {m = size} (omega arith)

pub byte_at-ring :
    (m : Memory) (p size j : ℕ)
    → p % 4 ≡ 0
    → size % 4 ≡ 0
    → 0 < size
    → byte_at m ((p + j) % size) ≡ m ((p + 4 * (j / 4)) % size) / 256 ^ (j % 4) % 256
byte_at-ring m p size j hp hs pos =
    let x : ℕ = (p + 4 * (j / 4)) % size in
    let aligned : x % 4 ≡ 0 = mod-aligned (p + 4 * (j / 4)) size (omega arith) hs in
    let word : (x + j % 4) / 4 * 4 ≡ x = omega arith in
    let low : (x + j % 4) % 4 ≡ j % 4 = omega arith in rw (ring_word p size j hp hs pos, word, low)

small_cases : (b : ℕ) → b < 4 → (b ≡ 0) ⊎ ((b ≡ 1) ⊎ ((b ≡ 2) ⊎ (b ≡ 3)))
small_cases b h = omega arith

-- Byte `b` of a packed word.
pub payload_word_byte :
    (bytes : List ℕ) (len idx b : ℕ)
    → IsBytes bytes
    → b < 4
    → payload_word bytes len idx / 256 ^ b % 256 ≡ payload_byte bytes len (idx + b)
payload_word_byte bytes len idx b h lt = go b (small_cases b lt)
  where
    low : (i : ℕ) → payload_byte bytes len i < 256
    low i = payload_byte-lt bytes len i h

    go :
        (b : ℕ)
        → ((b ≡ 0) ⊎ ((b ≡ 1) ⊎ ((b ≡ 2) ⊎ (b ≡ 3))))
        → payload_word bytes len idx / 256 ^ b % 256 ≡ payload_byte bytes len (idx + b)
    go b (inl e) = rw (e, add-zero) (omega (arith, low idx, low (idx + 1)))
    go b (inr (inl e)) = rw e (omega (arith, low idx, low (idx + 1)))
    go b (inr (inr (inl e))) = rw e (omega (arith, low idx, low (idx + 1), low (idx + 2)))
    go b (inr (inr (inr e))) =
        rw e (omega (arith, low idx, low (idx + 1), low (idx + 2), low (idx + 3)))

module _ (size : ℕ) (bytes : List ℕ) (len : ℕ) where
  -- The ring writes leave the positions behind them alone,
  pub written_outside :
      (n idx pos d : ℕ) (m : Memory)
      → 4 * n ≤ d
      → d < size
      → pos < size
      → written size bytes len n idx pos m ((pos + d) % size) ≡ m ((pos + d) % size)
  written_outside zero idx pos d m le lt hp = refl
  written_outside (suc n) idx pos d m le lt hp =
      let same : ((pos + 4) % size + (d - 4)) % size ≡ (pos + d) % size =
        mod-add-mod (pos + 4) size (d - 4) ∙ ap (λ (k : ℕ). k % size) (omega arith) in
      rw same at (
        written_outside n (idx + 4) ((pos + 4) % size) (d - 4)
          (update m pos (payload_word bytes len idx)) (omega arith) (omega arith)
          (mod-lt _ (omega arith)))
      ∙ update_ne m pos (payload_word bytes len idx) ((pos + d) % size)
          (λ e. ring_ne size pos d hp (omega arith) lt (sym e))

  -- and everything outside the ring.
  pub written_above :
      (n idx pos q : ℕ) (m : Memory)
      → size ≤ q
      → pos < size
      → written size bytes len n idx pos m q ≡ m q
  written_above zero idx pos q m le hp = refl
  written_above (suc n) idx pos q m le hp =
      written_above n (idx + 4) ((pos + 4) % size) q (update m pos (payload_word bytes len idx)) le
        (mod-lt _ (omega arith))
      ∙ update_ne m pos (payload_word bytes len idx) q (omega arith)

  -- Word `k` of the payload stands `k` words further.
  pub written_inside :
      (n idx pos k : ℕ) (m : Memory)
      → k < n
      → 4 * n ≤ size
      → pos < size
      → written size bytes len n idx pos m ((pos + 4 * k) % size)
        ≡ payload_word bytes len (idx + 4 * k)
  written_inside zero idx pos k m lt le hp = absurd (omega arith)
  written_inside (suc n) idx pos zero m lt le hp =
      let w = payload_word bytes len idx in
      let back : ((pos + 4) % size + (size - 4)) % size ≡ pos =
        mod-add-mod (pos + 4) size (size - 4)
        ∙ ap (λ (k : ℕ). k % size) (omega arith)
        ∙ add-mod_right pos size
        ∙ mod-eq_of_lt hp in
      let here : (pos + 4 * 0) % size ≡ pos = rw add-zero (mod-eq_of_lt hp) in
      rw (here, add-zero)
        (rw back at (
            written_outside n (idx + 4) ((pos + 4) % size) (size - 4) (update m pos w) (omega arith)
              (omega arith) (mod-lt _ (omega arith)))
          ∙ update_self m pos w)
  written_inside (suc n) idx pos (suc k) m lt le hp =
      let same : ((pos + 4) % size + 4 * k) % size ≡ (pos + 4 * suc k) % size =
        mod-add-mod (pos + 4) size (4 * k) ∙ ap (λ (i : ℕ). i % size) (omega arith) in
      let next : idx + 4 + 4 * k ≡ idx + 4 * suc k = omega arith in
      rw (← same, ← next)
        (written_inside n (idx + 4) ((pos + 4) % size) k (update m pos (payload_word bytes len idx))
          (omega arith) (omega arith) (mod-lt _ (omega arith)))
