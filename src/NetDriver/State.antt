-- ===== src/NetDriver/State.antt =====
-- The driver's state, its constants and the register accessors of rvcomp_ethernet.c.
-- The kernel's own functions are not modelled: a call of one is recorded, and what it returns is
-- an argument of the function that calls it.
use rvcomp.Base.{
  ℕ, ◌+◌, ◌*◌, bit_and, List, ◌∷◌, ltb, if◌then◌else◌, Memory, update, u32, sub32, not_3,
}

-- Offsets of the control registers, in words.
abbrev pub reg_addr_start : ℕ
reg_addr_start = 0

abbrev pub reg_addr_end : ℕ
reg_addr_end = 1

abbrev pub reg_tx_buffer_start : ℕ
reg_tx_buffer_start = 5

abbrev pub reg_tx_buffer_end : ℕ
reg_tx_buffer_end = 6

abbrev pub rvcomp_mtu : ℕ
rvcomp_mtu = 1514

abbrev pub rvcomp_watchdog_ms : ℕ
rvcomp_watchdog_ms = 500

abbrev pub rvcomp_tx_poll_ms : ℕ
rvcomp_tx_poll_ms = 1

abbrev pub eth_min_frame_size : ℕ
eth_min_frame_size = 60

abbrev pub rvcomp_tx_min_record : ℕ
rvcomp_tx_min_record = 4 + eth_min_frame_size

-- Calls of the kernel. A delay is in milliseconds.
pub data Call : Type 0 where
  lock_tx unlock_tx wmb : Call
  start_queue stop_queue wake_queue : Call
  schedule_watchdog schedule_reclaim : ℕ → Call
  cancel_watchdog cancel_reclaim : Call
  request_irq free_irq enable_irq disable_irq : ℕ → Call
  napi_enable napi_disable napi_schedule : Call
  napi_complete : ℕ → Call
  receive : List ℕ → Call
  free_skb : Call
  alloc_netdev free_netdev napi_add napi_del register_netdev unregister_netdev : Call
  set_mac random_mac : Call

-- The counters of `struct net_device_stats` that the driver keeps; `unsigned long` is 32 bits.
pub record Stats : Type 0 where
  pub rx_packets : ℕ
  pub rx_bytes : ℕ
  pub rx_dropped : ℕ
  pub tx_packets : ℕ
  pub tx_bytes : ℕ
  pub tx_dropped : ℕ

-- `struct rvcomp_eth` with what it points to. `csr` holds the registers by byte offset, the two
-- buffers hold 32-bit words by byte offset, and `log` has the calls of the kernel, newest first.
pub record Eth : Type 0 where
  pub csr : Memory
  pub rxbuf : Memory
  pub txbuf : Memory
  pub irq : ℕ
  pub last_start : ℕ
  pub last_end : ℕ
  pub rxbuf_size : ℕ
  pub txbuf_size : ℕ
  pub stats : Stats
  pub log : List Call

abbrev pub call : Call → Eth → Eth
call c eth = record eth { log = c ∷ eth.log }

-- `rvcomp_csr_read` and `rvcomp_csr_write`
abbrev pub csr_read : Eth → ℕ → ℕ
csr_read eth reg = eth.csr (reg * 4)

abbrev pub csr_write : Eth → ℕ → ℕ → Eth
csr_write eth reg val = record eth { csr = update eth.csr (reg * 4) val }

-- `x & (size - 1)`
abbrev pub wrap_to : ℕ → ℕ → ℕ
wrap_to x size = bit_and x (sub32 size 1)

-- `(n + 3) & ~0x3`
abbrev pub align_up : ℕ → ℕ
align_up n = bit_and (u32 (n + 3)) not_3

-- `(len < ETH_MIN_FRAME_SIZE) ? ETH_MIN_FRAME_SIZE : len`
abbrev pub pad_len : ℕ → ℕ
pad_len len = if ltb len eth_min_frame_size then eth_min_frame_size else len
