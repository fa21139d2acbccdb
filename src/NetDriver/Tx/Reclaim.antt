-- ===== src/NetDriver/Tx/Reclaim.antt =====
-- rvcomp_tx_reclaim and the kick of the receive path, on well formed rings.
use rvcomp.Base.{ℕ, ◌+◌, ◌%◌, ◌≡◌, Bool, true, List, [], ◌∷◌, ◌++◌, arith, leb, ◌==◌, if◌then◌else◌}
use rvcomp.NetDriver.State.{
  Eth, lock_tx, unlock_tx, wake_queue, schedule_reclaim, disable_irq, napi_schedule, csr_read,
  reg_addr_start, reg_addr_end,
}
use rvcomp.NetDriver.Tx.{tx_reclaim, kick_rx_if_pending}
use rvcomp.NetDriver.Tx.Queue.{TxRing, total, IsBufSize, wrap_to_lem}
use rvcomp.NetDriver.Tx.Xmit.{free_read}

-- On a well formed ring the reclaim of a running device changes nothing but what it asks of the
-- kernel: it takes and releases the lock, and a stopped queue is woken exactly when a record of
-- the least size fits behind the pending ones, and looked at again later when none fits.
pub tx_reclaim_lem :
    (stopped : Bool) (eth : Eth) (frames : List (List ℕ))
    → TxRing eth frames
    → tx_reclaim true stopped eth ≡ record eth {
      log =
          (if stopped
            then (if leb (64 + total frames + 4) eth.txbuf_size
                then wake_queue
                else schedule_reclaim 1)
              ∷ []
            else [])
          ++ unlock_tx ∷ lock_tx ∷ eth.log;
    }
unfolding tx_reclaim
tx_reclaim_lem stopped eth frames ring = ground (arith, free_read eth ring)

-- A stopped queue is always woken again once the transmitter has sent everything.
pub tx_reclaim-wakes :
    (eth : Eth)
    → TxRing eth []
    → (tx_reclaim true true eth).log ≡ wake_queue ∷ unlock_tx ∷ lock_tx ∷ eth.log
tx_reclaim-wakes eth ring =
    rw (tx_reclaim_lem true eth [] ring) (ground (arith, ring.buf_size.lower))

-- Over a legal buffer, the receive path is scheduled, with its interrupt off, exactly when the
-- positions differ round the ring and NAPI is not scheduled already; the positions are noted.
pub kick_rx_if_pending_lem :
    (ready : Bool) (eth : Eth)
    → IsBufSize eth.rxbuf_size
    → let start = csr_read eth reg_addr_start in
      let end = csr_read eth reg_addr_end in
      kick_rx_if_pending ready eth ≡ record eth {
        last_start = start;
        last_end = end;
        log =
            (if start % eth.rxbuf_size == end % eth.rxbuf_size
              then []
              else (if ready then napi_schedule ∷ disable_irq eth.irq ∷ [] else []))
            ++ eth.log;
      }
unfolding kick_rx_if_pending
kick_rx_if_pending_lem ready eth v =
    rw (wrap_to_lem (csr_read eth reg_addr_start) v, wrap_to_lem (csr_read eth reg_addr_end) v)
      (ground arith)
