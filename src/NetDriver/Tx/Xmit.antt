-- ===== src/NetDriver/Tx/Xmit.antt =====
-- rvcomp_start_xmit against the queue of pending frames.
use native.Mathlib.Nat.{mod-lt, mod-add-mod, add-mod_right, mod-mod, add-zero}
use mathlib.Core.Path.{subst₃}
use rvcomp.Base.{
  ℕ, ◌+◌, ◌-◌, ◌%◌, ◌≤◌, ◌<◌, ◌≡◌, sym, ap, ◌∙◌, ◌⊎◌, Bool, some, List, [], ◌∷◌, ◌++◌, arith,
  length, Memory, u32,
}
use rvcomp.NetDriver.Tx.Fill.{IsBytes, record_len, align_up_lem, tx_enqueue_one_lem, slot}
use rvcomp.NetDriver.Tx.Ring.{mod-aligned}
use rvcomp.NetDriver.State.{
  csr_write, wmb, free_skb, call, Eth, reg_tx_buffer_start, reg_tx_buffer_end, lock_tx, unlock_tx,
  stop_queue, schedule_reclaim, csr_read, align_up, pad_len,
}
use rvcomp.NetDriver.Tx.{
  kick_rx_if_pending, tx_enqueue_one, tx_pointer, free_space, tx_ok, tx_busy, start_xmit, count_tx,
  count_tx_dropped,
}
use rvcomp.NetDriver.Tx.Queue.{
  total, IsBufSize-aligned, total-aligned, RecordAt, Holds, TxQueue, Holds-mod, Holds-append,
  TxRing, total-append, tx_pointer_lem, free_space_lem,
}
use rvcomp.NetDriver.Tx.Enqueue.{
  padded, enqueued, enqueued_outside, enqueued-RecordAt, length-padded, Holds-keep,
}

-- Kicking the receive path touches no register and neither buffer.
pub kick_rx-frame :
    (ready : Bool) (eth : Eth)
    → let eth' = kick_rx_if_pending ready eth in
      (eth'.csr ≡ eth.csr)
      × (eth'.txbuf ≡ eth.txbuf)
      × (eth'.txbuf_size ≡ eth.txbuf_size)
      × (eth'.stats ≡ eth.stats)
unfolding kick_rx_if_pending
kick_rx-frame ready eth = ground arith

module _ {size start end : ℕ} {m : Memory} {frames : List (List ℕ)}
    (q : TxQueue size start end m frames) where
  pub end_aligned : end % 4 ≡ 0
  end_aligned = rw q.end_at (
      mod-aligned (start + total frames) size (omega (arith, q.start_aligned, total-aligned frames))
        (IsBufSize-aligned q.buf_size))

  pub end_in : end < size
  end_in = rw q.end_at (mod-lt _ (omega (arith, q.room)))

  -- Places below the pending bytes are those behind the end.
  behind_end : (x : ℕ) → (end + (size - total frames + x)) % size ≡ (start + x) % size
  behind_end x =
      let r = q.room in
      ap (λ (e : ℕ). (e + (size - total frames + x)) % size) q.end_at
      ∙ mod-add-mod (start + total frames) size (size - total frames + x)
      ∙ ap (λ (k : ℕ). k % size) (omega arith)
      ∙ add-mod_right (start + x) size

  -- One more record behind the pending ones, and the end position past it.
  pub enqueued-TxQueue :
      (skb : List ℕ)
      → IsBytes skb
      → record_len (length skb) + total frames + 4 ≤ size
      → TxQueue size start
          ((end + record_len (length skb)) % size)
          (enqueued size end skb m)
          (frames ++ padded skb ∷ [])
  enqueued-TxQueue skb h fits =
      let al = IsBufSize-aligned q.buf_size in
      let m' = enqueued size end skb m in
      let kept : (x : ℕ) → x < total frames → m' ((start + x) % size) ≡ m ((start + x) % size) =
        λ x lt. rw (behind_end x) at (
          enqueued_outside size end skb m al end_in (omega arith) (size - total frames + x)
            (omega arith) (omega arith)) in
      let old : Holds m' size start frames = rw add-zero at (
        Holds-keep size start (total frames) m m' al (omega (arith, fits)) q.start_aligned kept
          frames 0 (omega arith) (omega arith) (rw add-zero q.held)) in
      let new : RecordAt m' size end (padded skb) =
        enqueued-RecordAt size end skb m al end_in (omega arith) h end_aligned in
      let len : slot (length (padded skb)) ≡ record_len (length skb) =
        ap (λ (n : ℕ). slot n) (length-padded skb) in
      record {
        buf_size = q.buf_size;
        start_in = q.start_in;
        start_aligned = q.start_aligned;
        end_at =
            ap (λ (e : ℕ). (e + record_len (length skb)) % size) q.end_at
            ∙ mod-add-mod (start + total frames) size (record_len (length skb))
            ∙ ap (λ (k : ℕ). k % size) (omega (arith, total-append frames (padded skb ∷ []), len));
        room = omega (arith, total-append frames (padded skb ∷ []), len, fits);
        held = Holds-append m' size start frames (padded skb ∷ []) old (
            Holds-mod m' size end (start + total frames) (padded skb ∷ [])
              (ap (λ (k : ℕ). k % size) q.end_at ∙ mod-mod (start + total frames) size) (new, tt));
      }

-- The ring is in the registers, the buffer and its size.
TxRing-cong :
    (a b : Eth) (frames : List (List ℕ))
    → a.csr ≡ b.csr
    → a.txbuf ≡ b.txbuf
    → a.txbuf_size ≡ b.txbuf_size
    → TxRing b frames
    → TxRing a frames
TxRing-cong a b frames csr buf size ring =
    subst₃ (λ (c : Memory) (m : Memory) (s : ℕ). TxQueue s (c 20) (c 24) m frames) (sym csr)
      (sym buf) (sym size) ring

record_size_lem :
    (skb : List ℕ)
    → length skb ≤ 1514
    → u32 (4 + align_up (pad_len (length skb))) ≡ record_len (length skb)
record_size_lem skb h =
    let short : pad_len (length skb) ≤ 1514 = ground arith in
    rw (align_up_lem (pad_len (length skb)) (omega arith)) (omega arith)

module _ (eth : Eth) {frames : List (List ℕ)} (ring : TxRing eth frames) where
  -- The positions and the free space that the driver reads.
  start_read : tx_pointer eth reg_tx_buffer_start ≡ csr_read eth reg_tx_buffer_start
  start_read = tx_pointer_lem eth reg_tx_buffer_start ring.buf_size ring.start_in ring.start_aligned

  end_read : tx_pointer eth reg_tx_buffer_end ≡ csr_read eth reg_tx_buffer_end
  end_read = tx_pointer_lem eth reg_tx_buffer_end ring.buf_size (end_in ring) (end_aligned ring)

  pub free_read :
      free_space eth.txbuf_size
          (tx_pointer eth reg_tx_buffer_start)
          (tx_pointer eth reg_tx_buffer_end)
        + total frames
        + 4
      ≡ eth.txbuf_size
  free_read =
      rw (start_read, end_read, ring.end_at)
        (free_space_lem eth.txbuf_size (csr_read eth reg_tx_buffer_start) (total frames)
          ring.buf_size.upper ring.start_in ring.room)

module _ (ready : Bool) (eth : Eth) (frames : List (List ℕ)) (skb : List ℕ)
    (ring : TxRing eth frames) where
  -- What the driver hands to the end of rvcomp_start_xmit.
  abbrev result : ℕ × Memory
  result =
      let end = csr_read eth reg_tx_buffer_end in
      ((end + record_len (length skb)) % eth.txbuf_size, enqueued eth.txbuf_size end skb eth.txbuf)

  -- The state that the receive path is kicked in.
  abbrev published : Eth
  published =
      let written = call wmb (record eth { txbuf = result.1; log = lock_tx ∷ eth.log }) in
      count_tx (length skb) (call unlock_tx (csr_write written reg_tx_buffer_end result.0))

  enqueue_lem :
      IsBytes skb
      → length skb ≤ 1514
      → tx_enqueue_one eth.txbuf_size eth.txbuf skb (length skb) (tx_pointer eth reg_tx_buffer_end)
        ≡ some result
  enqueue_lem h le = rw (end_read eth ring) (
      tx_enqueue_one_lem eth.txbuf_size (length skb) (csr_read eth reg_tx_buffer_end) skb eth.txbuf
        ring.buf_size.upper h (omega arith) (end_in ring))

  -- On a well formed ring a frame of 1 to 1514 bytes whose record fits, with a word to spare,
  -- behind the pending ones is accepted: the call returns OK, the pending frames stay as they are,
  -- the frame, padded to 60 bytes, is queued behind them, and the counters of sent packets and
  -- bytes go up.
  pub start_xmit-TxRing :
      IsBytes skb
      → 0 < length skb
      → length skb ≤ 1514
      → record_len (length skb) + total frames + 4 ≤ eth.txbuf_size
      → (eth' : Eth) × (start_xmit ready skb eth ≡ some (tx_ok, eth'))
        × TxRing eth' (frames ++ padded skb ∷ [])
        × (eth'.stats ≡ record eth.stats {
          tx_packets = u32 (eth.stats.tx_packets + 1);
          tx_bytes = u32 (eth.stats.tx_bytes + length skb);
        })
  unfolding start_xmit
  start_xmit-TxRing h pos le fits =
      let kick = kick_rx-frame ready published in
      (
        call free_skb (kick_rx_if_pending ready published),
        ground (arith, free_read eth ring, record_size_lem skb le, enqueue_lem h le),
        TxRing-cong (kick_rx_if_pending ready published) published (frames ++ padded skb ∷ [])
            kick.0 kick.1 kick.2 (enqueued-TxQueue ring skb h fits),
        kick.3,
      )

  -- On a well formed ring a frame of 1 to 1514 bytes whose record does not fit, with a word to
  -- spare, is refused: under the lock the queue is stopped, then a reclaim is scheduled in 1 ms, and
  -- nothing else changes.
  pub start_xmit-busy :
      0 < length skb
      → length skb ≤ 1514
      → eth.txbuf_size < record_len (length skb) + total frames + 4
      → start_xmit ready skb eth
        ≡ some (
          tx_busy,
          record eth { log = schedule_reclaim 1 ∷ unlock_tx ∷ stop_queue ∷ lock_tx ∷ eth.log },
        )
  unfolding start_xmit
  start_xmit-busy pos le full = ground (arith, free_read eth ring, record_size_lem skb le)

-- A frame of no or of too many bytes is dropped and counted, and nothing else changes.
pub start_xmit-drop :
    (ready : Bool) (eth : Eth) (skb : List ℕ)
    → (length skb ≡ 0) ⊎ (1514 < length skb)
    → start_xmit ready skb eth ≡ some (tx_ok, call free_skb (count_tx_dropped eth))
unfolding start_xmit
start_xmit-drop ready eth skb h = ground arith
