-- ===== src/NetDriver/Tx/Fill.antt =====
-- What rvcomp_tx_enqueue_one leaves in the buffer, word by word: the copy loop is an explicit
-- sequence of ring writes, and never runs out of fuel.
use rvcomp.Base.{
  ℕ, zero, suc, ◌+◌, ◌*◌, ◌/◌, ◌%◌, ◌^◌, ◌≤◌, ◌<◌, bit_or, ◌≡◌, refl, sym, ap, ap₂, ◌∙◌, some, List,
  arith, get_or, Memory, update, u32, ◌<<<◌,
}
use rvcomp.NetDriver.State.{align_up, pad_len}
use native.Mathlib.Nat.{mod-eq_of_lt, mod-lt, mod-add-mod}
use rvcomp.Bits.{bit_or_above, bit_and-not_3}
use rvcomp.NetDriver.Tx.{payload_byte, gather, fill, tx_enqueue_one}

abbrev pub IsBytes : List ℕ → Type 0
IsBytes bytes = (i : ℕ) → get_or bytes i 0 < 256

-- The little-endian word of the frame's bytes from `idx` on, zeros past its end.
abbrev pub payload_word : List ℕ → ℕ → ℕ → ℕ
payload_word bytes len idx =
    payload_byte bytes len idx
    + payload_byte bytes len (idx + 1) * 256
    + payload_byte bytes len (idx + 2) * 65536
    + payload_byte bytes len (idx + 3) * 16777216

pub payload_byte-lt :
    (bytes : List ℕ) (len idx : ℕ) → IsBytes bytes → payload_byte bytes len idx < 256
payload_byte-lt bytes len idx h = ground (arith, h idx)

-- Or-ing a byte in above the bytes so far adds it.
or_byte :
    (k word b : ℕ)
    → word < 2 ^ k
    → b * 2 ^ k < 2 ^ 32
    → bit_or word (u32 (b <<< k)) ≡ word + b * 2 ^ k
or_byte k word b h fits =
    let e : u32 (b * 2 ^ k) ≡ b * 2 ^ k = mod-eq_of_lt fits in rw e (bit_or_above k word b h)

pack_four :
    (a b c d : ℕ)
    → a < 256
    → b < 256
    → c < 256
    → d < 256
    → bit_or
        (bit_or (bit_or (bit_or 0 (u32 (a <<< 0))) (u32 (b <<< 8))) (u32 (c <<< 16)))
        (u32 (d <<< 24))
      ≡ a + b * 256 + c * 65536 + d * 16777216
pack_four a b c d ha hb hc hd =
    rw
      (
        or_byte 0 0 a (omega arith) (omega arith),
        or_byte 8 (0 + a * 2 ^ 0) b (omega arith) (omega arith),
        or_byte 16 (0 + a * 2 ^ 0 + b * 2 ^ 8) c (omega arith) (omega arith),
        or_byte 24 (0 + a * 2 ^ 0 + b * 2 ^ 8 + c * 2 ^ 16) d (omega arith) (omega arith),
      )
      (omega arith)

-- The packing loop gives the little-endian word of four bytes, and the index four further.
gather_lem :
    (bytes : List ℕ) (len idx : ℕ)
    → IsBytes bytes
    → idx + 4 < 2 ^ 32
    → gather bytes len 4 0 idx 0 ≡ (payload_word bytes len idx, idx + 4)
unfolding gather
gather_lem bytes len idx h lt =
    let e1 : u32 (idx + 1) ≡ idx + 1 = omega arith in
    let e2 : u32 (idx + 1 + 1) ≡ idx + 2 = omega arith in
    let e3 : u32 (idx + 2 + 1) ≡ idx + 3 = omega arith in
    let e4 : u32 (idx + 3 + 1) ≡ idx + 4 = omega arith in
    rw (e1, e2, e3, e4)
      (ap₂ (λ (w k : ℕ). (w, k))
        (pack_four (payload_byte bytes len idx) (payload_byte bytes len (idx + 1))
          (payload_byte bytes len (idx + 2)) (payload_byte bytes len (idx + 3))
          (payload_byte-lt bytes len idx h) (payload_byte-lt bytes len (idx + 1) h)
          (payload_byte-lt bytes len (idx + 2) h) (payload_byte-lt bytes len (idx + 3) h))
        refl)

-- `n` words written round the ring from `pos` on, for the frame's bytes from `idx` on.
abbrev pub written : ℕ → List ℕ → ℕ → ℕ → ℕ → ℕ → Memory → Memory
written size bytes len zero idx pos m = m
written size bytes len (suc n) idx pos m =
    written size bytes len n (idx + 4) ((pos + 4) % size)
      (update m pos (payload_word bytes len idx))

module _ (size : ℕ) (bytes : List ℕ) (len : ℕ) (pos_size : 0 < size) (small : size ≤ 2 ^ 26)
    (h : IsBytes bytes) where
  fill-done :
      (fuel idx pos aligned : ℕ) (m : Memory)
      → aligned ≤ idx
      → fill (suc fuel) size bytes len aligned idx pos m ≡ some (pos, m)
  unfolding fill
  fill-done fuel idx pos aligned m le = ground arith

  fill_step :
      (fuel idx pos aligned : ℕ) (m : Memory)
      → idx < aligned
      → aligned < 2 ^ 31
      → pos < size
      → fill (suc fuel) size bytes len aligned idx pos m
        ≡ fill fuel size bytes len aligned
            (idx + 4)
            ((pos + 4) % size)
            (update m pos (payload_word bytes len idx))
  unfolding fill
  fill_step fuel idx pos aligned m lt al lp =
      let wraps : u32 (pos + 4) ≡ pos + 4 = omega arith in
      ground (arith, gather_lem bytes len idx h (omega arith))

  fill_lem :
      (fuel n idx pos aligned : ℕ) (m : Memory)
      → n < fuel
      → idx + 4 * n ≡ aligned
      → aligned < 2 ^ 31
      → pos < size
      → fill fuel size bytes len aligned idx pos m
        ≡ some ((pos + 4 * n) % size, written size bytes len n idx pos m)
  fill_lem zero n idx pos aligned m lt e al lp = absurd (omega arith)
  fill_lem (suc fuel) zero idx pos aligned m lt e al lp =
      fill-done fuel idx pos aligned m (omega arith)
      ∙ ap (λ (p : ℕ). some (p, m))
          (sym (rw (mod-eq_of_lt {n = pos + 4 * 0} {m = size} (omega arith)) (omega arith)))
  fill_lem (suc fuel) (suc n) idx pos aligned m lt e al lp =
      let rest =
        fill_lem fuel n (idx + 4) ((pos + 4) % size) aligned
          (update m pos (payload_word bytes len idx)) (omega arith) (omega arith) al
          (mod-lt _ pos_size) in
      let same : ((pos + 4) % size + 4 * n) % size ≡ (pos + 4 * suc n) % size =
        mod-add-mod (pos + 4) size (4 * n) ∙ ap (λ (k : ℕ). k % size) (omega arith) in
      fill_step fuel idx pos aligned m (omega arith) al lp
      ∙ rest
      ∙ ap
          (λ (p : ℕ). some (
            p,
            written size bytes len n (idx + 4) ((pos + 4) % size)
                (update m pos (payload_word bytes len idx)),
          ))
          same

-- The words of a frame's payload.
abbrev pub payload_words : ℕ → ℕ
payload_words len = (pad_len len + 3) / 4

-- The bytes that a record takes in the ring: the header word and `n` bytes in whole words.
abbrev pub slot : ℕ → ℕ
slot n = 4 + 4 * ((n + 3) / 4)

abbrev pub record_len : ℕ → ℕ
record_len len = slot (pad_len len)

pub align_up_lem : (n : ℕ) → n < 2 ^ 31 → align_up n ≡ 4 * ((n + 3) / 4)
align_up_lem n h =
    let e : u32 (n + 3) ≡ n + 3 = omega arith in
    rw e (omega (arith, bit_and-not_3 (n + 3) (omega arith)))

-- The whole of rvcomp_tx_enqueue_one: the header word, then the payload words round the ring.
pub tx_enqueue_one_lem :
    (size len end : ℕ) (bytes : List ℕ) (m : Memory)
    → size ≤ 2 ^ 26
    → IsBytes bytes
    → len < 2 ^ 30
    → end < size
    → tx_enqueue_one size m bytes len end
      ≡ some (
        (end + record_len len) % size,
        written size bytes len
            (payload_words len)
            0
            ((end + 4) % size)
            (update m end (pad_len len)),
      )
unfolding tx_enqueue_one
tx_enqueue_one_lem size len end bytes m small h hl he =
    let short : pad_len len + 4 < 2 ^ 31 = ground arith in
    let wraps : u32 (end + 4) ≡ end + 4 = omega arith in
    let same : ((end + 4) % size + 4 * payload_words len) % size ≡ (end + record_len len) % size =
      mod-add-mod (end + 4) size (4 * payload_words len) ∙ ap (λ (k : ℕ). k % size) (omega arith) in
    rw (align_up_lem (pad_len len) (omega arith), wraps)
      (fill_lem size bytes len (omega arith) small h (suc (4 * payload_words len))
          (payload_words len) 0 ((end + 4) % size) (4 * payload_words len)
          (update m end (pad_len len)) (omega arith) (omega arith) (omega arith)
          (mod-lt _ (omega arith))
        ∙ ap
            (λ (p : ℕ). some (
              p,
              written size bytes len (payload_words len) 0 ((end + 4) % size)
                  (update m end (pad_len len)),
            ))
            same)
