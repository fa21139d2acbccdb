-- ===== src/Bootrom/Ether/Sending.antt =====
-- What ether_tx of rvcomp_ether.c puts into the transmit buffer.
use native.Mathlib.Nat.{add-zero}
use rvcomp.Base.{
  ℕ, zero, suc, ◌+◌, ◌-◌, ◌%◌, ◌^◌, ◌≤◌, ◌<◌, ◌≡◌, refl, sym, ap, ◌∙◌, inl, inr, some, List, [],
  ◌∷◌, ◌++◌, arith, ltb, leb, if◌then◌else◌, leb-true, Bool-cases, length, take, drop, u32,
}
use rvcomp.Bootrom.Ether.Record.{
  Stored, take-drop, length-take, length-drop, take-IsBytes, drop-IsBytes, enqueue-take,
  enqueue_lem,
}
use rvcomp.Bits.{bit_and-not_3}
use rvcomp.Bootrom.Ether.Transfer.{
  ether_mtu, Sender, place, record_size, free_bytes, send_chunk, ether_tx, MakesRoom, place_lem,
}
use rvcomp.Bootrom.Ether.{ether_txbuf_size, ether_tx_enqueue_one}
use rvcomp.NetDriver.Tx.Fill.{IsBytes, record_len}

-- One frame has been put behind the last: at its read of the start, the last of those up to then,
-- the bytes in the buffer left room for the record and a word.
pub record Puts (starts : ℕ → ℕ) (f : List ℕ) (s s' : Sender) : Type 0 where
  pub read : ℕ
  pub last_read : s'.reads ≡ read + 1
  pub room :
      (place s.end + ether_txbuf_size - place (starts read)) % ether_txbuf_size
        + record_len (length f)
        + 4
      ≤ ether_txbuf_size
  pub next : s'.end ≡ (place s.end + record_len (length f)) % ether_txbuf_size
  pub put : Stored f (place s.end) s.txbuf s'.txbuf

-- Frames put one behind the other.
abbrev pub Sends : (ℕ → ℕ) → List (List ℕ) → Sender → Sender → Type 0
Sends starts [] s s' = s ≡ s'
Sends starts (f ∷ fs) s s' = (next : Sender) × Puts starts f s next × Sends starts fs next s'

abbrev pub flat : List (List ℕ) → List ℕ
flat [] = []
flat (f ∷ fs) = f ++ flat fs

abbrev pub AllSized : List (List ℕ) → Type 0
AllSized [] = Unit {0}
AllSized (f ∷ fs) = ((1 ≤ length f) × (length f ≤ ether_mtu)) × AllSized fs

record_size_lem : (n : ℕ) → n ≤ ether_mtu → record_size n ≡ record_len n
record_size_lem n le =
    let rounded = bit_and-not_3 (u32 ((if ltb n 60 then 60 else n) + 3)) (omega arith) in
    ground (arith, rounded)

-- The test of the loop leaves room for the record and a word.
room_lem :
    (start end n : ℕ)
    → start < ether_txbuf_size
    → end < ether_txbuf_size
    → n ≤ ether_mtu
    → record_size n ≤ free_bytes start end
    → (end + ether_txbuf_size - start) % ether_txbuf_size + record_len n + 4 ≤ ether_txbuf_size
room_lem start end n small_start small_end le room =
    let used : u32 (end + ether_txbuf_size + (2 ^ 32 - start)) ≡ end + ether_txbuf_size - start =
      omega arith in
    omega (arith, record_size_lem n le, used, room)

place-lt : (value : ℕ) → (place value < ether_txbuf_size) × (place value % 4 ≡ 0)
place-lt value = rw (place_lem value) (omega arith, omega arith)

module _ (starts : ℕ → ℕ) where
  -- With room at the read, the frame is put into the buffer.
  send_now :
      (fuel n : ℕ) (bytes : List ℕ) (s : Sender)
      → IsBytes bytes
      → n ≤ length bytes
      → n ≤ ether_mtu
      → record_size n ≤ free_bytes (place (starts s.reads)) (place s.end)
      → (s' : Sender) × (send_chunk starts (suc fuel) bytes n s ≡ some s')
        × Puts starts (take n bytes) s s'
  unfolding send_chunk
  send_now fuel n bytes s h le most room =
      let whole = length-take n bytes le in
      let test =
        leb-true (record_size n) (free_bytes (place (starts s.reads)) (place s.end)) room in
      let (small, al) = place-lt s.end in
      let (txbuf', run, put) =
        enqueue_lem (take n bytes) (place s.end) s.txbuf (take-IsBytes n bytes h)
          (omega (arith, whole)) small al in
      let same : ether_tx_enqueue_one bytes n (place s.end) s.txbuf
          ≡ some ((place s.end + record_len (length (take n bytes))) % ether_txbuf_size, txbuf') =
        sym (enqueue-take n (place s.end) bytes s.txbuf)
        ∙ ap (λ (l : ℕ). ether_tx_enqueue_one (take n bytes) l (place s.end) s.txbuf) (sym whole)
        ∙ run in
      (
        record {
          txbuf = txbuf';
          end = (place s.end + record_len (length (take n bytes))) % ether_txbuf_size;
          reads = s.reads + 1;
        },
        rw (test, send_chunk) (rw same refl),
        record {
          read = s.reads;
          last_read = refl;
          room = rw whole (
              room_lem (place (starts s.reads)) (place s.end) n (place-lt (starts s.reads)).0 small
                most room);
          next = refl;
          put = put;
        },
      )

  -- The wait ends with the frame put into the buffer.
  send_chunk_lem :
      (fuel k n : ℕ) (bytes : List ℕ) (s : Sender)
      → IsBytes bytes
      → n ≤ length bytes
      → n ≤ ether_mtu
      → k < fuel
      → record_size n ≤ free_bytes (place (starts (s.reads + k))) (place s.end)
      → (s' : Sender) × (send_chunk starts fuel bytes n s ≡ some s')
        × Puts starts (take n bytes) s s'
  unfolding send_chunk
  send_chunk_lem zero k n bytes s h le most lt room = absurd (omega arith)
  send_chunk_lem (suc fuel) zero n bytes s h le most lt room =
      send_now fuel n bytes s h le most (rw (add-zero s.reads) at room)
  send_chunk_lem (suc fuel) (suc k) n bytes s h le most lt room =
      elim (Bool-cases (leb (record_size n) (free_bytes (place (starts s.reads)) (place s.end)))) [
        | inl t ↦ send_now fuel n bytes s h le most (ground (arith, t))
        | inr f ↦
            let at : s.reads + suc k ≡ s.reads + 1 + k = omega arith in
            let (s', run, put) =
              send_chunk_lem fuel k n bytes (record s { reads = s.reads + 1 }) h le most
                (omega arith) (rw at at room) in
            (
              s',
              rw (f, send_chunk) run,
              record {
                read = put.read;
                last_read = put.last_read;
                room = put.room;
                next = put.next;
                put = put.put;
              },
            )
      ]

  sent_all :
      (wait : ℕ)
      → MakesRoom wait starts
      → (fuel len : ℕ) (bytes : List ℕ) (s : Sender) → IsBytes bytes
      → len ≤ fuel
      → length bytes ≡ len
      → (frames : List (List ℕ)) × (s' : Sender) × (ether_tx starts fuel wait bytes len s ≡ some s')
        × (flat frames ≡ bytes)
        × AllSized frames
        × Sends starts frames s s'
  unfolding ether_tx
  sent_all wait room fuel zero [] s h le whole = ([], s, refl, refl, tt, refl)
  sent_all wait room fuel zero (b ∷ bytes) s h le whole = absurd (omega arith)
  sent_all wait room zero (suc len) bytes s h le whole = absurd (omega arith)
  sent_all wait room (suc fuel) (suc len) bytes s h le whole =
      let n : ℕ = if ltb ether_mtu (suc len) then ether_mtu else suc len in
      let least : 1 ≤ n = ground arith in
      let most : n ≤ ether_mtu = ground arith in
      let within : n ≤ length bytes = ground (arith, whole) in
      let (k, lt, here) = room s.reads s.end n most in
      let (s1, put, puts) = send_chunk_lem wait k n bytes s h within most lt here in
      let (frames, s', rest, all, sized, sends) =
        sent_all wait room fuel (suc len - n) (drop n bytes) s1 (drop-IsBytes n bytes h)
          (omega (arith, least, le)) (length-drop n bytes ∙ ap (λ (l : ℕ). l - n) whole) in
      let count = length-take n bytes within in
      (
        take n bytes ∷ frames,
        s',
        rw (put, ether_tx) rest,
        ap (λ (l : List ℕ). take n bytes ++ l) all ∙ take-drop n bytes,
        ((omega (arith, count, least), omega (arith, count, most)), sized),
        (s1, puts, sends),
      )

-- When the device makes room for a frame within `wait` reads of its register, ether_tx ends, and has
-- put data of bytes into the transmit buffer as consecutive frames of 1 to 1514 bytes that make up
-- the data. Each is put behind the last one: its record, with the frame padded to 60 bytes, is
-- in the buffer from there on, the words outside it are kept, the end moves behind it, and by the
-- last read of the start there was room for it between the end and the start, and for a word more.
pub ether_tx_lem :
    (starts : ℕ → ℕ) (wait : ℕ) (bytes : List ℕ) (s : Sender)
    → MakesRoom wait starts
    → IsBytes bytes
    → (frames : List (List ℕ)) × (s' : Sender) × (ether_tx starts
          (length bytes)
          wait
          bytes
          (length bytes)
          s
        ≡ some s')
      × (flat frames ≡ bytes)
      × AllSized frames
      × Sends starts frames s s'
ether_tx_lem starts wait bytes s room h =
    sent_all starts wait room (length bytes) (length bytes) bytes s h (omega arith) refl
