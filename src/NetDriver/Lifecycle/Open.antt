-- ===== src/NetDriver/Lifecycle/Open.antt =====
-- What opening and stopping the interface leave.
use native.Mathlib.Decide.{ℕ_discrete}
use native.Mathlib.Nat.{mod-eq_of_lt, add-zero}
use rvcomp.Base.{
  ℕ, ◌%◌, ◌<◌, ◌≡◌, refl, sym, ◌∙◌, Bool, true, false, List, [], ◌∷◌, arith, ◌==◌, if◌then◌else◌,
}
use rvcomp.NetDriver.Tx.Queue.{IsBufSize, TxRing, tx_pointer_lem}
use rvcomp.NetDriver.Tx.{tx_pointer}
use rvcomp.NetDriver.State.{
  Eth, Call, napi_enable, napi_disable, start_queue, stop_queue, csr_read, reg_addr_start,
  reg_addr_end, reg_tx_buffer_start, wake_queue, wrap_to,
}
use rvcomp.NetDriver.Lifecycle.{open_dev, sync_rings}

-- Whether NAPI is enabled and whether the queue runs, after the calls of a log.
abbrev pub napi_on : List Call → Bool
napi_on [] = false
napi_on (napi_enable ∷ log) = true
napi_on (napi_disable ∷ log) = false
napi_on (c ∷ log) = napi_on log

abbrev pub queue_on : List Call → Bool
queue_on [] = false
queue_on (start_queue ∷ log) = true
queue_on (wake_queue ∷ log) = true
queue_on (stop_queue ∷ log) = false
queue_on (c ∷ log) = queue_on log

module _ (eth : Eth) (v : IsBufSize eth.txbuf_size)
    (start_in : csr_read eth reg_tx_buffer_start < eth.txbuf_size)
    (start_aligned : csr_read eth reg_tx_buffer_start % 4 ≡ 0) where
  start_read : tx_pointer eth reg_tx_buffer_start ≡ csr_read eth reg_tx_buffer_start
  start_read = tx_pointer_lem eth reg_tx_buffer_start v start_in start_aligned

  sync_rings-TxRing : TxRing (sync_rings eth) []
  sync_rings-TxRing = record {
    buf_size = v;
    start_in = start_in;
    start_aligned = start_aligned;
    end_at = start_read ∙ sym (rw add-zero (mod-eq_of_lt start_in));
    room = omega (arith, v.lower);
    held = tt;
  }

  -- With a legal transmit buffer and a transmitter whose position lies in it at a word, opening
  -- leaves an empty transmit ring whatever was in it, and a receive ring that starts at its end.
  -- It returns what request_irq did, and NAPI and the queue run exactly when that was no error
  -- (the queue as before otherwise).
  pub open_dev_lem :
      (ret : ℕ)
      → let (r, eth') = open_dev ret eth in
        TxRing eth' []
        × (csr_read eth' reg_addr_start ≡ wrap_to (csr_read eth reg_addr_end) eth.rxbuf_size)
        × (r ≡ ret)
        × (napi_on eth'.log ≡ (ret == 0))
        × (queue_on eth'.log ≡ (if ret == 0 then true else queue_on eth.log))
  unfolding open_dev
  open_dev_lem ret = elim (ℕ_discrete ret 0) [
    | yes e ↦ rw e (sync_rings-TxRing, refl, refl, refl, refl)
    | no ne ↦
        let f : (ret == 0) ≡ false = ground arith in
        rw f (sync_rings-TxRing, refl, refl, refl, refl)
  ]
