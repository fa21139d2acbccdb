-- ===== src/Bootrom/Ether.antt =====
-- rvcomp_ether.c: ether_tx_enqueue_one, the transmit routine of the boot ROM, leaves the same
-- buffer as the one of the Linux driver.
pub mod Transfer
pub mod Receive
pub mod Record
pub mod Sending
use rvcomp.Base.{
  ℕ, zero, suc, ◌+◌, ◌*◌, ◌%◌, ◌≤◌, bit_and, bit_or, ◌≡◌, refl, fun_ext, inl, inr, true, false,
  Option, none, some, List, arith, ltb, if◌then◌else◌, Bool-cases, get_or, Memory, update, u8, u32,
  ◌<<<◌, ◌>>>◌, not_3,
}
use rvcomp.NetDriver.Tx.{tx_enqueue_one, gather, fill, payload_byte}
use rvcomp.NetDriver.State.{align_up, pad_len}
use rvcomp.NetDriver.Tx.Fill.{IsBytes}
use mathlib.Core.Option

abbrev pub ether_txbuf_size : ℕ
ether_txbuf_size = 0x2000

-- The loop over `i`: a byte of the data below `len`, else zero, goes into the word.
unfoldable pub ether_gather : List ℕ → ℕ → ℕ → ℕ → ℕ → ℕ → ℕ × ℕ
ether_gather bytes len zero i payload_idx word = (word, payload_idx)
ether_gather bytes len (suc left) i payload_idx word =
    let b = if ltb payload_idx len then u8 (get_or bytes payload_idx 0) else 0 in
    ether_gather bytes len left (i + 1) (u32 (payload_idx + 1))
      (bit_or word (u32 (u32 b <<< u32 (i * 8))))

-- The loop over the payload, on fuel; the buffer is indexed by words.
unfoldable pub ether_fill : ℕ → List ℕ → ℕ → ℕ → ℕ → ℕ → Memory → Option (ℕ × Memory)
ether_fill zero bytes len payload_aligned payload_idx pos txbuf = none
ether_fill (suc fuel) bytes len payload_aligned payload_idx pos txbuf =
    elim (ltb payload_idx payload_aligned) [
      | true ↦
          let (word, next_idx) = ether_gather bytes len 4 0 payload_idx 0 in
          ether_fill fuel bytes len payload_aligned next_idx (u32 (pos + 4) % ether_txbuf_size)
            (update txbuf (pos >>> 2) word)
      | false ↦ some (pos, txbuf)
    ]

-- `ether_tx_enqueue_one`
unfoldable pub ether_tx_enqueue_one : List ℕ → ℕ → ℕ → Memory → Option (ℕ × Memory)
ether_tx_enqueue_one bytes len end txbuf =
    let frame_len = if ltb len 60 then 60 else len in
    let payload_aligned = bit_and (u32 (frame_len + 3)) not_3 in
    ether_fill (suc payload_aligned) bytes len payload_aligned 0 (u32 (end + 4) % ether_txbuf_size)
      (update txbuf (end >>> 2) frame_len)

-- The words of a buffer indexed by byte offset.
abbrev pub words : Memory → Memory
words m w = m (w * 4)

abbrev pub words_of : ℕ × Memory → ℕ × Memory
words_of (pos, m) = (pos, words m)

words-update :
    (m : Memory) (pos v : ℕ) → pos % 4 ≡ 0 → update (words m) (pos >>> 2) v ≡ words (update m pos v)
words-update m pos v al = fun_ext λ q. go q
  where
    go : (q : ℕ) → update (words m) (pos >>> 2) v q ≡ words (update m pos v) q
    go q = ground arith

ether_gather_lem :
    (bytes : List ℕ) (len left i idx word : ℕ)
    → IsBytes bytes
    → i + left ≤ 4
    → ether_gather bytes len left i idx word ≡ gather bytes len left i idx word
unfolding ether_gather gather
ether_gather_lem bytes len zero i idx word h le = refl
ether_gather_lem bytes len (suc left) i idx word h le =
    let byte : u32 (if ltb idx len then u8 (get_or bytes idx 0) else 0)
        ≡ payload_byte bytes len idx =
      ground (arith, h idx) in
    let shift : u32 (i * 8) ≡ i * 8 = omega arith in
    rw (byte, shift) (ether_gather_lem bytes len left (i + 1) _ _ h (omega arith))

next_aligned : (pos : ℕ) → pos % 4 ≡ 0 → u32 (pos + 4) % 0x2000 % 4 ≡ 0
next_aligned pos al = omega arith

ether_fill_lem :
    (fuel len aligned idx pos : ℕ) (bytes : List ℕ) (m : Memory)
    → IsBytes bytes
    → pos % 4 ≡ 0
    → ether_fill fuel bytes len aligned idx pos (words m)
      ≡ Option.map words_of (fill fuel ether_txbuf_size bytes len aligned idx pos m)
unfolding ether_fill fill
ether_fill_lem zero len aligned idx pos bytes m h al = refl
ether_fill_lem (suc fuel) len aligned idx pos bytes m h al = elim (Bool-cases (ltb idx aligned)) [
  | inr f ↦ rw (f, ether_fill, fill) refl
  | inl t ↦
      let packed = ether_gather_lem bytes len 4 0 idx 0 h (omega arith) in
      let put = words-update m pos (gather bytes len 4 0 idx 0).0 al in
      rw (t, ether_fill, fill)
        (rw (packed, put) (ether_fill_lem fuel len aligned _ _ bytes _ h (next_aligned pos al)))
]

-- The boot ROM's routine puts the record into its 8 KiB buffer exactly as the driver's does, for
-- every frame of bytes and every aligned position: the same position after it, and the same words
-- in the buffer, which the driver counts by byte offset and the boot ROM by word.
pub ether_tx_enqueue_one_lem :
    (bytes : List ℕ) (len end : ℕ) (m : Memory)
    → IsBytes bytes
    → end % 4 ≡ 0
    → ether_tx_enqueue_one bytes len end (words m)
      ≡ Option.map words_of (tx_enqueue_one ether_txbuf_size m bytes len end)
unfolding ether_tx_enqueue_one tx_enqueue_one
ether_tx_enqueue_one_lem bytes len end m h al = rw (words-update m end (pad_len len) al) (
    ether_fill_lem (suc (align_up (pad_len len))) len (align_up (pad_len len)) 0
      (u32 (end + 4) % ether_txbuf_size) bytes (update m end (pad_len len)) h (next_aligned end al))
