-- ===== src/NetDriver/Rx.antt =====
-- The receive path: rvcomp_rx_one, rvcomp_napi_poll and rvcomp_irq_handler.
pub mod Copy
pub mod Packet
pub mod Poll
use mathlib.Core.Option
use rvcomp.Base.{
  ℕ, zero, suc, ◌+◌, ◌%◌, bit_and, Bool, true, false, not, Option, none, some, List, [], ◌∷◌, ◌++◌,
  ltb, leb, ◌==◌, if◌then◌else◌, length, Memory, u32, sub32, ◌<<<◌, ◌>>>◌, not_3,
}
use rvcomp.NetDriver.State.{
  Eth, receive, napi_complete, enable_irq, disable_irq, napi_schedule, call, csr_read, csr_write,
  wrap_to, reg_addr_start, reg_addr_end, rvcomp_mtu,
}

-- `if (buf_index < len) skb->data[buf_index++] = b`; the list holds the bytes written so far, so
-- its length is `buf_index`.
abbrev pub put_byte : ℕ → ℕ → List ℕ → List ℕ
put_byte len b buf = if ltb (length buf) len then buf ++ b ∷ [] else buf

-- The four bytes of a word, lowest first.
abbrev pub put_word : ℕ → ℕ → List ℕ → List ℕ
put_word len word buf = put_byte len (bit_and (word >>> 24) 0xff) (
    put_byte len (bit_and (word >>> 16) 0xff)
      (put_byte len (bit_and (word >>> 8) 0xff) (put_byte len (bit_and word 0xff) buf)))

-- The loop that copies a packet out of the ring, on fuel; `none` when the fuel runs out.
unfoldable pub pull : ℕ → Memory → ℕ → ℕ → ℕ → List ℕ → Option (List ℕ)
pull zero rxbuf size len eth_index buf = none
pull (suc fuel) rxbuf size len eth_index buf = elim (ltb (length buf) len) [
  | true ↦
      let word = rxbuf (u32 (eth_index <<< 2)) in
      pull fuel rxbuf size len (u32 (eth_index + 1) % (size >>> 2)) (put_word len word buf)
  | false ↦ some buf
]

-- `start = (start + 3) & ~0x3; if (start >= eth->rxbuf_size) start = 0;`
unfoldable pub align_start : ℕ → ℕ → ℕ
align_start size start = let up = bit_and (u32 (start + 3)) not_3 in if leb size up then 0 else up

-- The bytes from `start` to `end` round the ring, at most an MTU.
unfoldable pub packet_len : ℕ → ℕ → ℕ → ℕ
packet_len size start end =
    let len = if ltb end start then sub32 (u32 (end + size)) start else sub32 end start in
    if ltb rvcomp_mtu len then rvcomp_mtu else len

abbrev pub count_rx : ℕ → Eth → Eth
count_rx len eth = record eth {
  stats = record eth.stats {
    rx_packets = u32 (eth.stats.rx_packets + 1);
    rx_bytes = u32 (eth.stats.rx_bytes + len);
  };
}

abbrev pub count_rx_dropped : Eth → Eth
count_rx_dropped eth = record eth {
  stats = record eth.stats { rx_dropped = u32 (eth.stats.rx_dropped + 1) };
}

-- The part behind the label `advance`.
abbrev pub advance : ℕ → ℕ → ℕ → Eth → Bool × ℕ × Eth
advance start len work_done eth =
    (true, work_done + 1, csr_write eth reg_addr_start (u32 (start + len) % eth.rxbuf_size))

-- The part of `rvcomp_rx_one` from the allocation of a buffer on. `alloc` says whether
-- netdev_alloc_skb_ip_align gives one.
unfoldable pub rx_packet : Bool → ℕ → ℕ → ℕ → Eth → Option (Bool × ℕ × Eth)
rx_packet alloc start len work_done eth =
    let copied = pull (suc len) eth.rxbuf eth.rxbuf_size len (start >>> 2) [] in
    if not alloc then some (advance start len work_done (count_rx_dropped eth)) else elim copied [
      | none ↦ none
      | some packet ↦ some (advance start len work_done (count_rx len (call (receive packet) eth)))
    ]

-- `rvcomp_rx_one`: whether a packet was consumed, and the new `work_done`. The result is `none`
-- when the copy runs out of fuel.
unfoldable pub rx_one : Bool → ℕ → Eth → Option (Bool × ℕ × Eth)
rx_one alloc work_done eth =
    let raw_start = csr_read eth reg_addr_start in
    let raw_end = csr_read eth reg_addr_end in
    let start = align_start eth.rxbuf_size (wrap_to raw_start eth.rxbuf_size) in
    let end = wrap_to raw_end eth.rxbuf_size in
    let len = packet_len eth.rxbuf_size start end in
    if raw_start == raw_end
    then some (false, work_done, eth)
    else rx_packet alloc start len work_done eth

-- What the device may change before the `i`th packet is looked for: its registers and its buffer.
abbrev pub Device : Type 0
Device = ℕ → Memory × Memory → Memory × Memory

abbrev pub device_step : Device → ℕ → Eth → Eth
device_step device i eth =
    let (csr, rxbuf) = device i (eth.csr, eth.rxbuf) in record eth { csr = csr; rxbuf = rxbuf }

-- The loop of `rvcomp_napi_poll`, on fuel. `alloc i` is the outcome of the `i`th allocation.
unfoldable pub poll_loop : ℕ → Device → (ℕ → Bool) → ℕ → ℕ → Eth → Option (ℕ × Eth)
poll_loop zero device alloc budget work_done eth = none
poll_loop (suc fuel) device alloc budget work_done eth = elim (ltb work_done budget) [
  | false ↦ some (work_done, eth)
  | true ↦ elim (rx_one (alloc work_done) work_done (device_step device work_done eth)) [
    | none ↦ none
    | some (false, work_done', eth') ↦ some (work_done', eth')
    | some (true, work_done', eth') ↦ poll_loop fuel device alloc budget work_done' eth'
  ]
]

abbrev pub poll_finish : ℕ → ℕ × Eth → ℕ × Eth
poll_finish budget (work_done, eth) =
    if ltb work_done budget
    then (work_done, call (enable_irq eth.irq) (call (napi_complete work_done) eth))
    else (work_done, eth)

-- `rvcomp_napi_poll`
unfoldable pub napi_poll : Device → (ℕ → Bool) → ℕ → Eth → Option (ℕ × Eth)
napi_poll device alloc budget eth =
    Option.map (poll_finish budget) (poll_loop (suc budget) device alloc budget 0 eth)

-- `rvcomp_irq_handler`; `ready` is what napi_schedule_prep returns. It always returns IRQ_HANDLED.
unfoldable pub irq_handler : Bool → ℕ → Eth → Eth
irq_handler ready irq eth = if ready then call napi_schedule (call (disable_irq irq) eth) else eth
