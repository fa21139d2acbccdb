-- ===== src/NetDriver/Tx.antt =====
-- The transmit path: rvcomp_tx_enqueue_one, rvcomp_start_xmit and rvcomp_tx_reclaim, and the
-- kick of the receive path that a transmission ends with.
pub mod Fill
pub mod Ring
pub mod Queue
pub mod Enqueue
pub mod Xmit
pub mod Fifo
pub mod Reclaim
use rvcomp.Base.{
  ℕ, zero, suc, ◌+◌, ◌*◌, ◌%◌, Bool, true, false, not, ◌&&◌, ◌||◌, List, Option, none, some, Memory,
  update, length, get_or, u32, sub32, not_3, bit_and, bit_or, ◌<<<◌, ltb, leb, ◌==◌, if◌then◌else◌,
}
use rvcomp.NetDriver.State.{
  Eth, Stats, Call, lock_tx, unlock_tx, wmb, stop_queue, wake_queue, schedule_reclaim,
  schedule_watchdog, free_skb, disable_irq, napi_schedule, call, csr_read, csr_write, wrap_to,
  align_up, pad_len, reg_addr_start, reg_addr_end, reg_tx_buffer_start, reg_tx_buffer_end,
  rvcomp_mtu, rvcomp_tx_poll_ms, rvcomp_tx_min_record, rvcomp_watchdog_ms,
}

-- The byte that goes into the ring for index `idx`: of the frame below `len`, else padding.
abbrev pub payload_byte : List ℕ → ℕ → ℕ → ℕ
payload_byte bytes len idx = if ltb idx len then get_or bytes idx 0 else 0

-- The loop over `i` that packs four bytes into a word: the word, and the index after it.
unfoldable pub gather : List ℕ → ℕ → ℕ → ℕ → ℕ → ℕ → ℕ × ℕ
gather bytes len zero i idx word = (word, idx)
gather bytes len (suc left) i idx word =
    gather bytes len left (i + 1) (u32 (idx + 1))
      (bit_or word (u32 (payload_byte bytes len idx <<< (i * 8))))

-- The loop over the words of the payload, on fuel: the position after it and the buffer, `none`
-- when the fuel runs out.
unfoldable pub fill : ℕ → ℕ → List ℕ → ℕ → ℕ → ℕ → ℕ → Memory → Option (ℕ × Memory)
fill zero size bytes len aligned idx pos txbuf = none
fill (suc fuel) size bytes len aligned idx pos txbuf = elim (ltb idx aligned) [
  | true ↦
      let (word, idx') = gather bytes len 4 0 idx 0 in
      fill fuel size bytes len aligned idx' (u32 (pos + 4) % size) (update txbuf pos word)
  | false ↦ some (pos, txbuf)
]

-- `rvcomp_tx_enqueue_one`: the new end position, and the buffer with the record in it.
unfoldable pub tx_enqueue_one : ℕ → Memory → List ℕ → ℕ → ℕ → Option (ℕ × Memory)
tx_enqueue_one size txbuf bytes len end =
    let padded_len = pad_len len in
    let payload_aligned = align_up padded_len in
    fill (suc payload_aligned) size bytes len payload_aligned 0 (u32 (end + 4) % size)
      (update txbuf end padded_len)

-- `(x & (eth->txbuf_size - 1)) & ~0x3`
abbrev pub tx_pointer : Eth → ℕ → ℕ
tx_pointer eth reg = bit_and (wrap_to (csr_read eth reg) eth.txbuf_size) not_3

-- `size - ((end - start + size) % size) - 4`
abbrev pub free_space : ℕ → ℕ → ℕ → ℕ
free_space size start end = sub32 (sub32 size (u32 (sub32 end start + size) % size)) 4

-- `rvcomp_tx_reclaim`. `running` and `stopped` are what netif_running and netif_queue_stopped
-- return.
unfoldable pub tx_reclaim : Bool → Bool → Eth → Eth
tx_reclaim running stopped eth =
    let free_bytes =
      free_space eth.txbuf_size (tx_pointer eth reg_tx_buffer_start)
        (tx_pointer eth reg_tx_buffer_end) in
    let enough = leb rvcomp_tx_min_record free_bytes in
    let wake = stopped && enough in
    let resched = stopped && not enough in
    let unlocked = call unlock_tx (call lock_tx eth) in
    if not running
    then eth
    else (if wake
        then call wake_queue unlocked
        else (if resched then call (schedule_reclaim rvcomp_tx_poll_ms) unlocked else unlocked))

-- `rvcomp_kick_rx_if_pending`. `ready` is what napi_schedule_prep returns.
unfoldable pub kick_rx_if_pending : Bool → Eth → Eth
kick_rx_if_pending ready eth =
    let start = csr_read eth reg_addr_start in
    let end = csr_read eth reg_addr_end in
    let start_m = wrap_to start eth.rxbuf_size in
    let end_m = wrap_to end eth.rxbuf_size in
    let seen = record eth { last_start = start; last_end = end } in
    if not (start_m == end_m) && ready
    then call napi_schedule (call (disable_irq eth.irq) seen)
    else seen

-- `rvcomp_rx_watchdog`
unfoldable pub rx_watchdog : Bool → Eth → Eth
rx_watchdog ready eth = call (schedule_watchdog rvcomp_watchdog_ms) (kick_rx_if_pending ready eth)

-- `netdev_tx_t`
pub data TxStatus : Type 0 where
  tx_ok tx_busy : TxStatus

abbrev pub count_tx_dropped : Eth → Eth
count_tx_dropped eth = record eth {
  stats = record eth.stats { tx_dropped = u32 (eth.stats.tx_dropped + 1) };
}

abbrev pub count_tx : ℕ → Eth → Eth
count_tx len eth = record eth {
  stats = record eth.stats {
    tx_packets = u32 (eth.stats.tx_packets + 1);
    tx_bytes = u32 (eth.stats.tx_bytes + len);
  };
}

-- What `rvcomp_start_xmit` does once the record is in the buffer.
abbrev pub xmit_finish : Bool → ℕ → Eth → ℕ × Memory → TxStatus × Eth
xmit_finish ready len eth (new_end, txbuf) =
    let written = call wmb (record eth { txbuf = txbuf }) in
    let published = call unlock_tx (csr_write written reg_tx_buffer_end new_end) in
    (tx_ok, call free_skb (kick_rx_if_pending ready (count_tx len published)))

-- `rvcomp_start_xmit` on a frame, the bytes of `skb->data`; `none` when the copy runs out of fuel.
unfoldable pub start_xmit : Bool → List ℕ → Eth → Option (TxStatus × Eth)
start_xmit ready skb eth =
    let len = length skb in
    let record_size = u32 (4 + align_up (pad_len len)) in
    let locked = call lock_tx eth in
    let start = tx_pointer locked reg_tx_buffer_start in
    let end = tx_pointer locked reg_tx_buffer_end in
    let free_bytes = free_space eth.txbuf_size start end in
    let stopped = call unlock_tx (call stop_queue locked) in
    let enqueued = tx_enqueue_one eth.txbuf_size eth.txbuf skb len end in
    if len == 0 || ltb rvcomp_mtu len
    then some (tx_ok, call free_skb (count_tx_dropped eth))
    else (if ltb free_bytes record_size
        then some (tx_busy, call (schedule_reclaim rvcomp_tx_poll_ms) stopped)
        else elim enqueued [ none ↦ none | some r ↦ some (xmit_finish ready len locked r) ])
