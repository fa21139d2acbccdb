-- ===== src/Bootrom/Tests.antt =====
-- The boot ROM at concrete states: an image of 5000 bytes, a free serial port and a short frame.
use mathlib.Core.Option
use rvcomp.NetDriver.Tx.Fill.{IsBytes}
use rvcomp.NetDriver.Tx.{tx_enqueue_one}
use rvcomp.Bootrom.Uart.{Uart, print_int_as_hex}
use rvcomp.Bootrom.Uart.Printing.{Drains, AllHexDigits, hex_value, print_int_as_hex_lem, sent_after}
use rvcomp.Bootrom.Loader.{Board}
use rvcomp.Base.{
  ℕ, zero, suc, ◌+◌, ◌%◌, ◌≤◌, ◌<◌, ◌≡◌, refl, inl, inr, some, List, [], ◌∷◌, ◌++◌, arith, ltb,
  ◌==◌, if◌then◌else◌, Bool-cases, length, get_or, replicate, Memory,
}
use rvcomp.Bootrom.Boot.Loading.{byte_at, bootloader_uart_lem}
use rvcomp.Bootrom.Boot.{hello, finished, Line, bootloader_uart, Boot}
use rvcomp.Bootrom.Ether.Transfer.{
  Sender, record_size, place, free_bytes, ether_tx, ether_rx, MakesRoom, place_lem, record_size_le,
}
use rvcomp.Bootrom.Ether.Sending.{flat, AllSized, Sends, ether_tx_lem}
use rvcomp.Bootrom.Ether.Receive.{ring_byte, ether_rx_lem}
use rvcomp.Bootrom.Ether.{
  ether_txbuf_size, ether_tx_enqueue_one, words, words_of, ether_tx_enqueue_one_lem,
}

abbrev board : Board
board = record { mmc_csr = λ a. 0; card = λ a. a + 1; dram = λ a. 0 }

-- A transmit queue that is full at every other read.
abbrev busy : ℕ → ℕ
busy i = i % 2

busy-Drains : Drains busy 2
busy-Drains i = elim (Bool-cases (i % 2 == 0)) [
  | inl t ↦ (0, omega arith, ground arith)
  | inr f ↦ (1, omega arith, ground arith)
]

abbrev uart : Uart
uart = record { sent = []; reads = 0 }

abbrev from_card : Boot Board
from_card = record { uart = uart; machine = board; told = [] }

-- Three bytes, two of them after polls that find none.
abbrev serial_line : Line
serial_line = (1, 0x13) ∷ (0, 0x05) ∷ (1, 0xff) ∷ []

abbrev from_line : Boot (Line × Memory)
from_line = record { uart = uart; machine = (serial_line, λ a. 0); told = [] }

bootloader_uart_lem_example :
    (b' : Boot (Line × Memory)) × (bootloader_uart busy 2 2 from_line ≡ some b')
    × (b'.uart.sent ≡ sent_after finished (sent_after hello []))
    × (b'.told ≡ (finished, b'.machine) ∷ (hello, from_line.machine) ∷ [])
    × (b'.machine.0 ≡ (1, 0xff) ∷ [])
    × ((j : ℕ) → j < 2 → b'.machine.1 (0x80000000 + j) ≡ byte_at serial_line j)
    × ((q : ℕ) → q < 0x80000000 → b'.machine.1 q ≡ 0)
    × ((q : ℕ) → 0x80000002 ≤ q → b'.machine.1 q ≡ 0)
bootloader_uart_lem_example =
    bootloader_uart_lem busy 2 2 from_line busy-Drains
      (omega arith, omega arith, (omega arith, omega arith, tt)) (omega arith)

print_int_as_hex_lem_example :
    (next : Uart) × (digits : List ℕ) × (print_int_as_hex busy 2 0xdeadbeef uart ≡ some next)
    × (next.sent ≡ 10 ∷ 13 ∷ (digits ++ 120 ∷ 48 ∷ []))
    × AllHexDigits digits
    × (length digits ≡ 8)
    × (hex_value digits ≡ 0xdeadbeef)
print_int_as_hex_lem_example = print_int_as_hex_lem busy 2 0xdeadbeef uart busy-Drains (omega arith)

abbrev frame : List ℕ
frame = 1 ∷ 2 ∷ 3 ∷ []

frame-IsBytes : IsBytes frame
frame-IsBytes zero = omega arith
frame-IsBytes (suc zero) = omega arith
frame-IsBytes (suc (suc zero)) = omega arith
frame-IsBytes (suc (suc (suc i))) = omega arith

ether_tx_enqueue_one_lem_example :
    ether_tx_enqueue_one frame 3 8188 (words (λ a. 0))
    ≡ Option.map words_of (tx_enqueue_one ether_txbuf_size (λ a. 0) frame 3 8188)
ether_tx_enqueue_one_lem_example = ether_tx_enqueue_one_lem frame 3 8188 (λ a. 0) frame-IsBytes refl

-- A device that frees one half of the buffer and then the other.
abbrev halves : ℕ → ℕ
halves i = if i % 2 == 0 then 0 else 4096

free_halves :
    (p n : ℕ)
    → p < 8192
    → n ≤ 1520
    → (p < 4096 → n ≤ free_bytes 0 p) × (4096 ≤ p → n ≤ free_bytes 4096 p)
free_halves p n lt le = (λ low. omega arith, λ high. omega arith)

room_at : (x v p m : ℕ) → x ≡ v → place v ≡ v → m ≤ free_bytes v p → m ≤ free_bytes (place x) p
room_at x v p m at same h = rw (at, same) h

halves-MakesRoom : MakesRoom 2 halves
halves-MakesRoom reads end n le =
    let zero_place : place 0 ≡ 0 = place_lem 0 in
    let half_place : place 4096 ≡ 4096 = place_lem 4096 in
    let p_lt : place end < 8192 = omega (arith, place_lem end) in
    let (low_ok, high_ok) = free_halves (place end) (record_size n) p_lt (record_size_le n le) in
    elim (Bool-cases (ltb (place end) 4096)) [
      | inl low ↦ elim (Bool-cases (reads % 2 == 0)) [
        | inl even ↦
            let at : halves (reads + 0) ≡ 0 = ground arith in
            (
              0,
              omega arith,
              room_at _ _ (place end) (record_size n) at zero_place (low_ok (ground arith)),
            )
        | inr odd ↦
            let at : halves (reads + 1) ≡ 0 = ground arith in
            (
              1,
              omega arith,
              room_at _ _ (place end) (record_size n) at zero_place (low_ok (ground arith)),
            )
      ]
      | inr high ↦ elim (Bool-cases (reads % 2 == 0)) [
        | inl even ↦
            let at : halves (reads + 1) ≡ 4096 = ground arith in
            (
              1,
              omega arith,
              room_at _ _ (place end) (record_size n) at half_place (high_ok (ground arith)),
            )
        | inr odd ↦
            let at : halves (reads + 0) ≡ 4096 = ground arith in
            (
              0,
              omega arith,
              room_at _ _ (place end) (record_size n) at half_place (high_ok (ground arith)),
            )
      ]
    ]

abbrev idle : Sender
idle = record { txbuf = λ a. 0; end = 0; reads = 0 }

replicate-IsBytes : (n i : ℕ) → get_or (replicate n 7) i 0 < 256
replicate-IsBytes zero i = omega arith
replicate-IsBytes (suc n) zero = omega arith
replicate-IsBytes (suc n) (suc i) = replicate-IsBytes n i

abbrev sevens : List ℕ
sevens = replicate 2000 7

ether_tx_lem_example :
    (frames : List (List ℕ)) × (s' : Sender) × (ether_tx halves
        (length sevens)
        2
        sevens
        (length sevens)
        idle
      ≡ some s')
    × (flat frames ≡ sevens)
    × AllSized frames
    × Sends halves frames idle s'
ether_tx_lem_example = ether_tx_lem halves 2 sevens idle halves-MakesRoom (replicate-IsBytes 2000)

abbrev rx_words : Memory
rx_words a = if a == 4095 then 0x44332211 else 0x88776655

ether_rx_lem_example :
    (bytes : List ℕ) × (ether_rx rx_words 16380 2 ≡ some (6, bytes, some 2))
    × (length bytes ≡ 6)
    × ((j : ℕ) → j < 6 → get_or bytes j 0 ≡ ring_byte rx_words (16380 + j))
ether_rx_lem_example =
    ether_rx_lem rx_words 16380 2 (omega arith) (omega arith) (λ e. absurd (omega arith))
