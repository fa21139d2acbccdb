-- ===== src/NetDriver/Lifecycle.antt =====
-- Opening and stopping the interface, and probing and removing the device: rvcomp_open,
-- rvcomp_stop, rvcomp_validate_buf_size, rvcomp_probe and rvcomp_remove.
-- An error is the number whose negation the code returns.
pub mod Open
pub mod Probing
use rvcomp.Base.{
  ℕ, ◌*◌, bit_and, Bool, not, ◌||◌, Option, none, some, List, [], ◌∷◌, ltb, ◌==◌, if◌then◌else◌,
  Memory, update, u32,
}
use rvcomp.NetDriver.State.{
  Eth, Stats, Call, napi_enable, napi_disable, start_queue, stop_queue, request_irq, free_irq,
  schedule_watchdog, cancel_watchdog, cancel_reclaim, call, csr_read, csr_write, wrap_to,
  reg_addr_start, reg_addr_end, reg_tx_buffer_start, reg_tx_buffer_end, rvcomp_watchdog_ms,
  alloc_netdev, free_netdev, napi_add, napi_del, register_netdev, unregister_netdev, set_mac,
  random_mac,
}
use rvcomp.NetDriver.Tx.{tx_pointer}

-- The two register writes that `rvcomp_open` begins with.
abbrev pub sync_rings : Eth → Eth
sync_rings eth =
    let last_end = wrap_to (csr_read eth reg_addr_end) eth.rxbuf_size in
    let eth' = csr_write (record eth { last_end = last_end }) reg_addr_start last_end in
    csr_write eth' reg_tx_buffer_end (tx_pointer eth' reg_tx_buffer_start)

-- `rvcomp_open`: the error, 0 for none, and the state. `ret` is what request_irq returns.
unfoldable pub open_dev : ℕ → Eth → ℕ × Eth
open_dev ret eth =
    let requested = call (request_irq eth.irq) (call napi_enable (sync_rings eth)) in
    if not (ret == 0)
    then (ret, call napi_disable requested)
    else (0, call (schedule_watchdog rvcomp_watchdog_ms) (call start_queue requested))

-- `rvcomp_stop`
unfoldable pub stop_dev : Eth → Eth
stop_dev eth =
    call napi_disable
      (call (free_irq eth.irq) (call cancel_reclaim (call cancel_watchdog (call stop_queue eth))))

-- The sizes of the three memory resources, where they are there.
pub record Regions : Type 0 where
  pub csr : Option ℕ
  pub rx : Option ℕ
  pub tx : Option ℕ

-- The receive and transmit sizes, if no resource is missing.
unfoldable pub buffers : Regions → Option (ℕ × ℕ)
buffers r = elim r.csr [
  | none ↦ none
  | some c ↦ elim r.rx [
    | none ↦ none
    | some rx ↦ elim r.tx [ none ↦ none | some tx ↦ some (rx, tx) ]
  ]
]

-- What the kernel answers while the device is probed. A mapping error is 0 for none.
pub record ProbeEnv : Type 0 where
  pub alloc_ok : Bool
  pub named : Regions
  pub indexed : Regions
  pub csr_error : ℕ
  pub rxbuf_error : ℕ
  pub txbuf_error : ℕ
  -- The named interrupt, `none` for an error, and the one of the device tree, 0 for none.
  pub irq_named : Option ℕ
  pub irq_mapped : ℕ
  pub mac_valid : Bool
  pub register_error : ℕ
  -- The registers and buffers of the device.
  pub csr : Memory
  pub rxbuf : Memory
  pub txbuf : Memory

-- What `rvcomp_probe` returns, the device that it leaves registered, and its calls.
pub record Probed : Type 0 where
  pub ret : ℕ
  pub device : Option Eth
  pub log : List Call

abbrev pub no_stats : Stats
no_stats = record {
  rx_packets = 0;
  rx_bytes = 0;
  rx_dropped = 0;
  tx_packets = 0;
  tx_bytes = 0;
  tx_dropped = 0;
}

-- The part behind the label `err_free`.
abbrev pub err_free : ℕ → List Call → Probed
err_free ret log = record { ret = ret; device = none; log = free_netdev ∷ log }

-- The error of the first mapping that failed.
unfoldable pub map_error : ProbeEnv → ℕ
map_error env =
    if not (env.csr_error == 0)
    then env.csr_error
    else (if not (env.rxbuf_error == 0) then env.rxbuf_error else env.txbuf_error)

-- `none` where neither way gives an interrupt.
unfoldable pub find_irq : ProbeEnv → Option ℕ
find_irq env = elim env.irq_named [
  | some irq ↦ some irq
  | none ↦ if ltb 0 env.irq_mapped then some env.irq_mapped else none
]

-- From the interrupt on: the address, NAPI, the write of the start register, the registration.
unfoldable pub probe_register : ProbeEnv → ℕ → ℕ → ℕ → Probed
probe_register env rx tx irq =
    let mac = if env.mac_valid then set_mac else random_mac in
    let log = register_netdev ∷ napi_add ∷ mac ∷ alloc_netdev ∷ [] in
    let eth : Eth = record {
      csr = update env.csr (reg_addr_start * 4) 0;
      rxbuf = env.rxbuf;
      txbuf = env.txbuf;
      irq = irq;
      last_start = 0;
      last_end = 0;
      rxbuf_size = rx;
      txbuf_size = tx;
      stats = no_stats;
      log = log;
    } in
    if not (env.register_error == 0)
    then err_free env.register_error (napi_del ∷ log)
    else record { ret = 0; device = some eth; log = log }

-- From the mappings of the three resources on.
abbrev pub probe_mapped : ProbeEnv → ℕ → ℕ → Probed
probe_mapped env rx tx =
    if not (map_error env == 0)
    then err_free (map_error env) (alloc_netdev ∷ [])
    else elim (find_irq env) [
      | none ↦ err_free 19 (alloc_netdev ∷ [])
      | some irq ↦ probe_register env rx tx irq
    ]

-- From the two validated sizes on.
unfoldable pub probe_sized : ProbeEnv → Option ℕ → Option ℕ → Probed
probe_sized env none tx = err_free 22 (alloc_netdev ∷ [])
probe_sized env (some rx) none = err_free 22 (alloc_netdev ∷ [])
probe_sized env (some rx) (some tx) = probe_mapped env rx tx

module _ (is_power_of_2 : ℕ → Bool) where
  -- `rvcomp_validate_buf_size`: the validated size, `none` for -EINVAL.
  unfoldable pub validate_buf_size : ℕ → Option ℕ
  validate_buf_size size =
      if ltb 0xffffffff size
      then none
      else (if ltb size 2048
            || ltb (64 * 1024 * 1024) size
            || not (bit_and size 3 == 0)
            || not (is_power_of_2 size)
          then none
          else some (u32 size))

  -- `rvcomp_probe` from the resources on.
  unfoldable pub probe_found : ProbeEnv → Option (ℕ × ℕ) → Probed
  probe_found env none = err_free 19 (alloc_netdev ∷ [])
  probe_found env (some (rx, tx)) = probe_sized env (validate_buf_size rx) (validate_buf_size tx)

  -- `rvcomp_probe`: the resources by name, or all three by index.
  unfoldable pub probe : ProbeEnv → Probed
  probe env =
      if not env.alloc_ok
      then record { ret = 12; device = none; log = [] }
      else probe_found env
          (elim (buffers env.named) [ none ↦ buffers env.indexed | some b ↦ some b ])

-- `rvcomp_remove`, where the platform device has its driver data.
unfoldable pub remove : Eth → List Call
remove eth = free_netdev ∷ napi_del ∷ unregister_netdev ∷ eth.log
