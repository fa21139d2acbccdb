-- ===== src/Bootrom/Ether/Transfer.antt =====
-- rvcomp_ether.c: ether_tx, which sends data in frames, and ether_rx, which takes what has come.
use mathlib.Core.Option
use rvcomp.Base.{
  ℕ, zero, suc, ◌+◌, ◌-◌, ◌*◌, ◌/◌, ◌%◌, ◌^◌, ◌≤◌, ◌<◌, bit_and, ◌≡◌, ap, ◌∙◌, true, false, Option,
  none, some, List, [], ◌∷◌, ◌++◌, arith, ltb, leb, ◌==◌, if◌then◌else◌, ◌>>=◌, length, drop,
  Memory, u32, sub32, ◌>>>◌, not_3,
}
use rvcomp.Bits.{bit_and_mask, bit_and-not_3}
use rvcomp.Bootrom.Ether.{ether_tx_enqueue_one, ether_txbuf_size}

abbrev pub ether_mtu : ℕ
ether_mtu = 1514

abbrev pub ether_rxbuf_size : ℕ
ether_rxbuf_size = 0x4000

-- The transmit buffer in words, the register of its end, and the reads of the register of its
-- start so far.
pub record Sender : Type 0 where
  pub txbuf : Memory
  pub end : ℕ
  pub reads : ℕ

abbrev pub record_size : ℕ → ℕ
record_size chunk_len =
    let frame_len = if ltb chunk_len 60 then 60 else chunk_len in
    u32 (4 + bit_and (u32 (frame_len + 3)) not_3)

-- A register's value as a place in the transmit buffer.
abbrev pub place : ℕ → ℕ
place value = bit_and (bit_and value (ether_txbuf_size - 1)) not_3

abbrev pub free_bytes : ℕ → ℕ → ℕ
free_bytes start end =
    let used = u32 (end + ether_txbuf_size + (2 ^ 32 - start)) % ether_txbuf_size in
    ether_txbuf_size - used - 4

-- `starts i` is what read number `i` of the register of the buffer's start gives.
module _ (starts : ℕ → ℕ) where
  -- The inner loop of `ether_tx`, on fuel.
  unfoldable pub send_chunk : ℕ → List ℕ → ℕ → Sender → Option Sender
  send_chunk zero bytes chunk_len s = none
  send_chunk (suc fuel) bytes chunk_len s =
      let start = place (starts s.reads) in
      let end = place s.end in
      elim (leb (record_size chunk_len) (free_bytes start end)) [
        | true ↦
            Option.map
              (λ ((new_end, txbuf) : ℕ × Memory). record {
                txbuf = txbuf;
                end = new_end;
                reads = s.reads + 1;
              })
              (ether_tx_enqueue_one bytes chunk_len end s.txbuf)
        | false ↦ send_chunk fuel bytes chunk_len (record s { reads = s.reads + 1 })
      ]

  -- `ether_tx`, on fuel for the frames and for each wait.
  unfoldable pub ether_tx : ℕ → ℕ → List ℕ → ℕ → Sender → Option Sender
  ether_tx fuel wait bytes zero s = some s
  ether_tx zero wait bytes (suc len) s = none
  ether_tx (suc fuel) wait bytes (suc len) s =
      let chunk_len = if ltb ether_mtu (suc len) then ether_mtu else suc len in
      do
        s' ← send_chunk wait bytes chunk_len s
        ether_tx fuel wait (drop chunk_len bytes) (suc len - chunk_len) s'

-- The bytes of a word that are below `len`, appended to those read so far.
abbrev pub take_bytes : ℕ → ℕ → ℕ → ℕ → List ℕ
take_bytes zero len word buf_index = []
take_bytes (suc left) len word buf_index =
    if ltb buf_index len
    then bit_and word 0xff ∷ take_bytes left len (word >>> 8) (buf_index + 1)
    else take_bytes left len (word >>> 8) buf_index

-- The loop of `ether_rx`, on fuel: the bytes that it puts into `buf`.
unfoldable pub read_words : ℕ → Memory → ℕ → ℕ → ℕ → Option (List ℕ)
read_words zero rxbuf len eth_index buf_index = none
read_words (suc fuel) rxbuf len eth_index buf_index =
    let bytes = take_bytes 4 len (rxbuf eth_index) buf_index in
    let buf_index' = buf_index + length bytes in
    elim (leb len buf_index') [
      | true ↦ some bytes
      | false ↦
          Option.map (λ (rest : List ℕ). bytes ++ rest)
            (read_words fuel rxbuf len ((eth_index + 1) % (ether_rxbuf_size / 4)) buf_index')
    ]

-- `ether_rx` on the values of the two registers: the length, the bytes, and the new value of the
-- register of the start where it is written.
unfoldable pub ether_rx : Memory → ℕ → ℕ → Option (ℕ × List ℕ × Option ℕ)
ether_rx rxbuf start end =
    if start == end
    then some (0, [], none)
    else (let from = bit_and (u32 (start + 3) % ether_rxbuf_size) not_3 in
        let size =
          if ltb end from then u32 (end + ether_rxbuf_size + (2 ^ 32 - from)) else sub32 end from in
        let len = if ltb ether_mtu size then ether_mtu else size in
        Option.map (λ (bytes : List ℕ). (len, bytes, some (u32 (from + len) % ether_rxbuf_size)))
          (read_words (suc len) rxbuf len (from / 4) 0))

-- The device makes room for any frame that is sent within `wait` reads of its register.
abbrev pub MakesRoom : ℕ → (ℕ → ℕ) → Type 0
MakesRoom wait starts =
    (reads end n : ℕ)
    → n ≤ ether_mtu
    → (k : ℕ) × (k < wait) × (record_size n ≤ free_bytes (place (starts (reads + k))) (place end))

-- A place is a multiple of 4 in the buffer, and a record is a little longer than its frame.
pub place_lem : (value : ℕ) → place value ≡ value % ether_txbuf_size / 4 * 4
place_lem value =
    ap (λ (v : ℕ). bit_and v not_3) (bit_and_mask 13 value)
    ∙ bit_and-not_3 (value % ether_txbuf_size) (omega arith)

pub record_size_le : (n : ℕ) → n ≤ ether_mtu → record_size n ≤ 1520
record_size_le n le =
    let rounded = bit_and-not_3 (u32 ((if ltb n 60 then 60 else n) + 3)) (omega arith) in
    ground (arith, rounded)
