-- ===== src/NetDriver/Rx/Packet.antt =====
-- rvcomp_rx_one against the bytes between the two receive positions.
use native.Mathlib.Nat.{mod-eq_of_lt, mod-lt, mod-eq-sub-mod, mod_self}
use native.Mathlib.Decide.{dec_lt}
use rvcomp.Base.{
  ℕ, suc, ◌+◌, ◌-◌, ◌*◌, ◌/◌, ◌%◌, ◌^◌, ◌≤◌, ◌<◌, min, ◌≡◌, ap, ◌∙◌, ◌≢◌, Bool, true, false, Option,
  some, List, [], ◌∷◌, arith, u32, ◌>>>◌,
}
use rvcomp.NetDriver.Tx.Queue.{IsBufSize, IsBufSize-aligned, wrap_to_lem}
use rvcomp.NetDriver.Tx.Ring.{mod-aligned}
use rvcomp.NetDriver.Rx.Copy.{pull_lem}
use rvcomp.Bits.{bit_and-not_3}
use rvcomp.NetDriver.State.{
  csr_read, reg_addr_start, reg_addr_end, Eth, receive, csr_write, wrap_to, call,
}
use rvcomp.NetDriver.Rx.{
  align_start, packet_len, rx_one, pull, count_rx, count_rx_dropped, rx_packet,
}
use rvcomp.NetDriver.Tx.Fifo.{ring_bytes}

-- Where a packet starts: the start position at the next word boundary, round the ring.
unfoldable pub packet_start : Eth → ℕ
packet_start eth =
    let size = eth.rxbuf_size in (csr_read eth reg_addr_start % size + 3) / 4 * 4 % size

-- How many bytes it has: the distance to the end position round the ring, at most an MTU.
unfoldable pub packet_size : Eth → ℕ
packet_size eth =
    let size = eth.rxbuf_size in
    min ((csr_read eth reg_addr_end % size + size - packet_start eth) % size) 1514

align_start_lem :
    (size x : ℕ)
    → size ≤ 2 ^ 26
    → size % 4 ≡ 0
    → x < size
    → align_start size x ≡ (x + 3) / 4 * 4 % size
unfolding align_start
align_start_lem size x up al lt = elim (dec_lt ((x + 3) / 4 * 4) size) [
  | yes below ↦
      ground
        (arith, bit_and-not_3 (u32 (x + 3)), mod-eq_of_lt {n = (x + 3) / 4 * 4} {m = size} below)
  | no top ↦
      let full : (x + 3) / 4 * 4 ≡ size = omega arith in
      ground (arith, bit_and-not_3 (u32 (x + 3)), ap (λ (k : ℕ). k % size) full, mod_self size)
]

packet_len_lem :
    (size start end : ℕ)
    → size ≤ 2 ^ 26
    → start < size
    → end < size
    → packet_len size start end ≡ min ((end + size - start) % size) 1514
unfolding packet_len
packet_len_lem size start end up hs he = elim (dec_lt end start) [
  | yes lt ↦
      let d : (end + size - start) % size ≡ end + size - start = mod-eq_of_lt (omega arith) in
      ground (arith, d)
  | no ge ↦
      let d : (end + size - start) % size ≡ end - start =
        mod-eq-sub-mod {n = end + size - start} {m = size} (omega arith)
        ∙ ap (λ (k : ℕ). k % size) (omega arith)
        ∙ mod-eq_of_lt {n = end - start} {m = size} (omega arith) in
      ground (arith, d)
]

module _ (eth : Eth) (v : IsBufSize eth.rxbuf_size) where
  start_lem :
      align_start eth.rxbuf_size (wrap_to (csr_read eth reg_addr_start) eth.rxbuf_size)
      ≡ packet_start eth
  unfolding packet_start
  start_lem = rw (wrap_to_lem (csr_read eth reg_addr_start) v) (
      align_start_lem eth.rxbuf_size (csr_read eth reg_addr_start % eth.rxbuf_size) v.upper
        (IsBufSize-aligned v) (mod-lt _ (omega (arith, v.lower))))

  len_lem :
      packet_len eth.rxbuf_size
        (packet_start eth)
        (wrap_to (csr_read eth reg_addr_end) eth.rxbuf_size)
      ≡ packet_size eth
  unfolding packet_start packet_size
  len_lem = rw (wrap_to_lem (csr_read eth reg_addr_end) v) (
      packet_len_lem eth.rxbuf_size (packet_start eth) (csr_read eth reg_addr_end % eth.rxbuf_size)
        v.upper (mod-lt _ (omega (arith, v.lower))) (mod-lt _ (omega (arith, v.lower))))

  pos : 0 < eth.rxbuf_size
  pos = omega (arith, v.lower)

  packet_start_in : packet_start eth < eth.rxbuf_size
  unfolding packet_start
  packet_start_in = mod-lt _ pos

  packet_start_aligned : packet_start eth % 4 ≡ 0
  unfolding packet_start
  packet_start_aligned =
      mod-aligned ((csr_read eth reg_addr_start % eth.rxbuf_size + 3) / 4 * 4) eth.rxbuf_size
        (omega arith) (IsBufSize-aligned v)

  packet_size-le : packet_size eth ≤ 1514
  unfolding packet_size
  packet_size-le = omega arith

  -- The packet, as a list of bytes.
  abbrev pub packet : List ℕ
  packet = ring_bytes eth.rxbuf eth.rxbuf_size (packet_start eth) (packet_size eth)

  copy_lem :
      pull
        (suc (packet_size eth))
        eth.rxbuf
        eth.rxbuf_size
        (packet_size eth)
        (packet_start eth >>> 2)
        []
      ≡ some packet
  copy_lem =
      let below : packet_start eth % eth.rxbuf_size ≡ packet_start eth =
        mod-eq_of_lt packet_start_in in
      let al = packet_start_aligned in
      pull_lem eth.rxbuf eth.rxbuf_size (IsBufSize-aligned v) pos v.upper (suc (packet_size eth))
        (packet_size eth) (packet_size eth) (packet_start eth) (packet_start eth / 4) []
        (omega arith) (omega arith) al (omega arith)

  no_wrap : u32 (packet_start eth + packet_size eth) ≡ packet_start eth + packet_size eth
  no_wrap = omega (arith, packet_start_in, packet_size-le, v.upper)

  rx_one-packet :
      (alloc : Bool) (work_done : ℕ)
      → csr_read eth reg_addr_start ≢ csr_read eth reg_addr_end
      → rx_one alloc work_done eth
        ≡ rx_packet alloc (packet_start eth) (packet_size eth) work_done eth
  unfolding rx_one
  rx_one-packet alloc work_done ne = ground (arith, start_lem, len_lem)

  abbrev moved : Eth → ℕ → Option (Bool × ℕ × Eth)
  moved eth' work_done = some (
    true,
    work_done + 1,
    csr_write eth' reg_addr_start ((packet_start eth + packet_size eth) % eth.rxbuf_size),
  )

  abbrev counted : Eth
  counted = count_rx (packet_size eth) (call (receive packet) eth)

  -- The two states that a consumed packet leaves.
  abbrev pub after_receive : Eth
  after_receive =
      csr_write counted reg_addr_start ((packet_start eth + packet_size eth) % eth.rxbuf_size)

  abbrev pub after_drop : Eth
  after_drop =
      csr_write (count_rx_dropped eth) reg_addr_start
        ((packet_start eth + packet_size eth) % eth.rxbuf_size)

  packet_received :
      (work_done : ℕ)
      → rx_packet true (packet_start eth) (packet_size eth) work_done eth ≡ moved counted work_done
  unfolding rx_packet
  packet_received work_done = rw copy_lem (
      ap {B = Option (Bool × ℕ × Eth)}
        (λ (x : ℕ).
          some (true, work_done + 1, csr_write counted reg_addr_start (x % eth.rxbuf_size)))
        no_wrap)

  packet_dropped :
      (work_done : ℕ)
      → rx_packet false (packet_start eth) (packet_size eth) work_done eth
        ≡ moved (count_rx_dropped eth) work_done
  unfolding rx_packet
  packet_dropped work_done =
      ap {B = Option (Bool × ℕ × Eth)}
        (λ (x : ℕ). some (
          true,
          work_done + 1,
          csr_write (count_rx_dropped eth) reg_addr_start (x % eth.rxbuf_size),
        ))
        no_wrap

  -- Over a legal buffer, with differing positions and a buffer allocated, rvcomp_rx_one hands the
  -- kernel exactly the bytes of the packet, from the start position rounded up to a word up to the
  -- end position round the ring but at most 1514, counts them and moves the start position past
  -- them.
  pub rx_one-receive :
      (work_done : ℕ)
      → csr_read eth reg_addr_start ≢ csr_read eth reg_addr_end
      → rx_one true work_done eth
        ≡ some (
          true,
          work_done + 1,
          csr_write
              (record eth {
                stats = record eth.stats {
                  rx_packets = u32 (eth.stats.rx_packets + 1);
                  rx_bytes = u32 (eth.stats.rx_bytes + packet_size eth);
                };
                log =
                    receive
                      (ring_bytes eth.rxbuf eth.rxbuf_size (packet_start eth) (packet_size eth))
                    ∷ eth.log;
              })
              reg_addr_start
              ((packet_start eth + packet_size eth) % eth.rxbuf_size),
        )
  rx_one-receive work_done ne = rx_one-packet true work_done ne ∙ packet_received work_done

  -- Over a legal buffer, with differing positions and no buffer to be had, rvcomp_rx_one counts a
  -- dropped packet, hands nothing to the kernel and moves the start position past the packet.
  pub rx_one-drop :
      (work_done : ℕ)
      → csr_read eth reg_addr_start ≢ csr_read eth reg_addr_end
      → rx_one false work_done eth
        ≡ some (
          true,
          work_done + 1,
          csr_write
              (record eth {
                stats = record eth.stats { rx_dropped = u32 (eth.stats.rx_dropped + 1) };
              })
              reg_addr_start
              ((packet_start eth + packet_size eth) % eth.rxbuf_size),
        )
  rx_one-drop work_done ne = rx_one-packet false work_done ne ∙ packet_dropped work_done
