-- ===== src/NetDriver/Tests.antt =====
-- The Ethernet driver at concrete states: two rings of 2 KiB, and a frame of three bytes.
use native.Mathlib.Nat.{pow-suc, zero-div}
use mathlib.Core.List.{map}
use native.Mathlib.Decide.{ℕ_discrete}
use rvcomp.Base.{
  ℕ, zero, suc, ◌+◌, ◌*◌, ◌/◌, ◌%◌, ◌^◌, ◌≤◌, ◌<◌, ◌≡◌, refl, sym, ap, ◌⊎◌, inl, inr, Bool, true,
  false, ◌||◌, some, List, [], ◌∷◌, ◌++◌, arith, ltb, ◌==◌, if◌then◌else◌, Bool-cases, length,
  get_or, replicate, length-replicate, update, u32,
}
use rvcomp.NetDriver.Tx.Ring.{byte_at}
use rvcomp.NetDriver.Tx.Queue.{IsBufSize, TxRing}
use rvcomp.NetDriver.Tx.Fill.{IsBytes}
use rvcomp.NetDriver.Tx.Fifo.{ring_bytes, Event, submit, send, Run, run, InOrder, run-InOrder}
use rvcomp.NetDriver.Tx.Enqueue.{padded, get_or-zeros}
use rvcomp.NetDriver.Tx.Xmit.{start_xmit-TxRing, start_xmit-busy}
use rvcomp.NetDriver.Rx.Packet.{packet_start, packet_size, rx_one-receive, rx_one-drop}
use rvcomp.NetDriver.Rx.Poll.{napi_poll_lem}
use rvcomp.NetDriver.Lifecycle.Open.{napi_on, queue_on, open_dev_lem}
use rvcomp.NetDriver.State.{
  reg_addr_start, reg_addr_end, lock_tx, unlock_tx, enable_irq, napi_complete, receive, Eth,
  csr_read, csr_write, wrap_to, stop_queue, schedule_reclaim,
}
use rvcomp.NetDriver.Tx.{tx_ok, start_xmit, tx_busy}
use rvcomp.NetDriver.Rx.{rx_one, Device, napi_poll}
use rvcomp.NetDriver.Lifecycle.Probing.{Failed, Succeeded, probe_lem}
use rvcomp.NetDriver.Lifecycle.{ProbeEnv, probe, open_dev, Regions, no_stats}

abbrev idle : Eth
idle = record {
  csr = λ a. 0;
  rxbuf = λ a. 0x04030201;
  txbuf = λ a. 0;
  irq = 5;
  last_start = 0;
  last_end = 0;
  rxbuf_size = 2048;
  txbuf_size = 2048;
  stats = no_stats;
  log = [];
}

-- A packet of 100 bytes has come in.
abbrev pending_packet : Eth
pending_packet = record idle { csr = update (λ a. 0) 4 100 }

size_2048 : IsBufSize 2048
size_2048 = record { log2 = 11; is_power = refl; lower = omega arith; upper = omega arith }

empty_ring : TxRing idle []
empty_ring = record {
  buf_size = size_2048;
  start_in = omega arith;
  start_aligned = refl;
  end_at = refl;
  room = omega arith;
  held = tt;
}

abbrev frame : List ℕ
frame = 1 ∷ 2 ∷ 3 ∷ []

frame-IsBytes : IsBytes frame
frame-IsBytes zero = omega arith
frame-IsBytes (suc zero) = omega arith
frame-IsBytes (suc (suc zero)) = omega arith
frame-IsBytes (suc (suc (suc i))) = omega arith

-- Whether `n` is one of the first `k` powers of two.
abbrev power_below : ℕ → ℕ → Bool
power_below zero n = false
power_below (suc k) n = n == 2 ^ k || power_below k n

abbrev is_power_of_2 : ℕ → Bool
is_power_of_2 n = power_below n n

power_found : (k n : ℕ) → power_below k n ≡ true → (j : ℕ) × (n ≡ 2 ^ j)
power_found zero n e = absurd (ground (arith, e))
power_found (suc k) n e = elim (Bool-cases (n == 2 ^ k)) [
  | inl t ↦ (k, ground arith)
  | inr f ↦ power_found k n (ground (arith, f, e))
]

power_finds : (k j : ℕ) → j < k → power_below k (2 ^ j) ≡ true
power_finds zero j lt = absurd (omega arith)
power_finds (suc k) j lt = elim (ℕ_discrete j k) [
  | yes e ↦ rw e (ground arith)
  | no ne ↦
      let rest : power_below k (2 ^ j) ≡ true = power_finds k j (omega arith) in
      elim (Bool-cases (2 ^ j == 2 ^ k)) [ inl t ↦ rw t refl | inr f ↦ rw (f, rest) refl ]
]

exponent_below : (k : ℕ) → k < 2 ^ k
exponent_below zero = omega arith
exponent_below (suc k) = omega (arith, exponent_below k, pow-suc 2 k)

abbrev start_run : Run
start_run = record { eth = idle; accepted = []; out = []; given_up = 0 }

start-InOrder : InOrder start_run
start-InOrder = record {
  left = [];
  pending = [];
  ring = empty_ring;
  legal = tt;
  order = refl;
  wire = refl;
  losses = refl;
}

abbrev events : List Event
events =
    submit true frame
    ∷ send false
    ∷ submit true frame
    ∷ submit true frame
    ∷ send true
    ∷ send false
    ∷ []

run-InOrder_example : (r : Run) × (run events start_run ≡ some r) × InOrder r
run-InOrder_example =
    run-InOrder events start_run (frame-IsBytes, (frame-IsBytes, (frame-IsBytes, tt))) start-InOrder

rx_one-receive_example :
    rx_one true 0 pending_packet
    ≡ some (
      true,
      1,
      csr_write
          (record pending_packet {
            stats = record no_stats {
              rx_packets = u32 1;
              rx_bytes = u32 (0 + packet_size pending_packet);
            };
            log =
                receive (
                  ring_bytes pending_packet.rxbuf 2048
                    (packet_start pending_packet)
                    (packet_size pending_packet))
                ∷ [];
          })
          reg_addr_start
          ((packet_start pending_packet + packet_size pending_packet) % 2048),
    )
rx_one-receive_example = rx_one-receive pending_packet size_2048 0 (omega arith)

rx_one-drop_example :
    rx_one false 0 pending_packet
    ≡ some (
      true,
      1,
      csr_write
          (record pending_packet { stats = record no_stats { rx_dropped = u32 1 } })
          reg_addr_start
          ((packet_start pending_packet + packet_size pending_packet) % 2048),
    )
rx_one-drop_example = rx_one-drop pending_packet size_2048 0 (omega arith)

start_xmit-TxRing_example :
    (eth' : Eth) × (start_xmit true frame idle ≡ some (tx_ok, eth'))
    × TxRing eth' (padded frame ∷ [])
    × (eth'.stats ≡ record no_stats { tx_packets = u32 1; tx_bytes = u32 3 })
start_xmit-TxRing_example =
    start_xmit-TxRing true idle [] frame empty_ring frame-IsBytes (omega arith) (omega arith)
      (omega arith)

-- A frame of the greatest size, and a ring in which one is pending.
abbrev long_frame : List ℕ
long_frame = replicate 1514 0

abbrev loaded : Eth
loaded = record idle { csr = update (λ a. 0) 24 1520; txbuf = update (λ a. 0) 0 1514 }

long_payload :
    (j : ℕ) → j < 1514 → byte_at loaded.txbuf ((0 + 4 + j) % 2048) ≡ get_or long_frame j 0
long_payload j lt =
    let word : (0 + 4 + j) % 2048 ≡ 4 + j = omega arith in
    let empty : loaded.txbuf ((4 + j) / 4 * 4) ≡ 0 = ground arith in
    rw (word, empty, get_or-zeros 1514 j) (ap (λ (k : ℕ). k % 256) (zero-div (256 ^ ((4 + j) % 4))))

long_length : length long_frame ≡ 1514
long_length = length-replicate {A = ℕ} 1514 0

loaded_ring : TxRing loaded (long_frame ∷ [])
loaded_ring = record {
  buf_size = size_2048;
  start_in = omega arith;
  start_aligned = refl;
  end_at = refl;
  room = omega arith;
  held = (
    record { header = sym long_length; payload = λ j lt. long_payload j (rw long_length at lt) },
    tt,
  );
}

start_xmit-busy_example :
    start_xmit true long_frame loaded
    ≡ some (
      tx_busy,
      record loaded { log = schedule_reclaim 1 ∷ unlock_tx ∷ stop_queue ∷ lock_tx ∷ [] },
    )
start_xmit-busy_example =
    start_xmit-busy true loaded (long_frame ∷ []) long_frame loaded_ring (omega arith) (omega arith)
      (omega arith)

-- A device that lets nothing new come in.
abbrev quiet : Device
quiet i s = s

napi_poll_lem_example :
    (work : ℕ) × (after : Eth) × (packets : List (List ℕ)) × (napi_poll quiet
        (λ i. true)
        64
        pending_packet
      ≡ some (work, after))
    × (work ≤ 64)
    × (length packets ≤ work)
    × (work < 64 → csr_read after reg_addr_start ≡ csr_read after reg_addr_end)
    × (after.log
        ≡ (if ltb work 64 then enable_irq 5 ∷ napi_complete work ∷ [] else [])
          ++ (map receive packets ++ []))
napi_poll_lem_example = napi_poll_lem quiet (λ i. true) 64 pending_packet size_2048

open_dev_lem_example :
    let (r, eth') = open_dev 0 pending_packet in
    TxRing eth' []
    × (csr_read eth' reg_addr_start ≡ wrap_to 100 2048)
    × (r ≡ 0)
    × (napi_on eth'.log ≡ true)
    × (queue_on eth'.log ≡ true)
open_dev_lem_example = open_dev_lem pending_packet size_2048 (omega arith) refl 0

powers_found : (n : ℕ) → is_power_of_2 n ≡ true → (j : ℕ) × (n ≡ 2 ^ j)
powers_found n e = power_found n n e

powers_pass : (k : ℕ) → is_power_of_2 (2 ^ k) ≡ true
powers_pass k = power_finds (2 ^ k) k (exponent_below k)

abbrev regions : Regions
regions = record { csr = some 4096; rx = some 2048; tx = some 2048 }

abbrev env : ProbeEnv
env = record {
  alloc_ok = true;
  named = regions;
  indexed = regions;
  csr_error = 0;
  rxbuf_error = 0;
  txbuf_error = 0;
  irq_named = some 5;
  irq_mapped = 0;
  mac_valid = true;
  register_error = 0;
  csr = λ a. 0;
  rxbuf = λ a. 0;
  txbuf = λ a. 0;
}

probe_lem_example : Failed (probe is_power_of_2 env) ⊎ Succeeded (probe is_power_of_2 env)
probe_lem_example = probe_lem is_power_of_2 powers_found powers_pass env
