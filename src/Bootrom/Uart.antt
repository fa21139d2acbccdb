-- ===== src/Bootrom/Uart.antt =====
-- rvcomp_uart.c: characters are sent one by one, each after the transmit queue has room, and a
-- number is printed in hexadecimal. `full i` is what the read number `i` of the transmit-full
-- register gives.
pub mod Printing
use rvcomp.Base.Int.{ℤ, pos, negsuc}
use rvcomp.Base.{
  ℕ, zero, suc, ◌+◌, ◌*◌, bit_and, Option, none, some, List, [], ◌∷◌, ◌==◌, if◌then◌else◌, get_or,
  u8, ◌>>>◌,
}

-- The characters written to the data register, newest first, and the reads of the full register
-- so far.
pub record Uart : Type 0 where
  pub sent : List ℕ
  pub reads : ℕ

module _ (full : ℕ → ℕ) where
  -- The busy-wait of `uart_putc`, on fuel: the reads so far when it ends.
  unfoldable pub wait_room : ℕ → ℕ → Option ℕ
  wait_room zero reads = none
  wait_room (suc fuel) reads =
      let rest = wait_room fuel (reads + 1) in
      if u8 (full reads) == 0 then some (reads + 1) else rest

  -- `uart_putc`
  unfoldable pub uart_putc : ℕ → ℕ → Uart → Option Uart
  uart_putc fuel ch uart = elim (wait_room fuel uart.reads) [
    | none ↦ none
    | some reads ↦ some (record { sent = u8 ch ∷ uart.sent; reads = reads })
  ]

  -- `uart_puts` of the characters before the terminating zero.
  unfoldable pub uart_puts : ℕ → List ℕ → Uart → Option Uart
  uart_puts fuel [] uart = some uart
  uart_puts fuel (ch ∷ str) uart = elim (uart_putc fuel ch uart) [
    | none ↦ none
    | some next ↦ uart_puts fuel str next
  ]

-- `"0123456789ABCDEF"[nibble]`
abbrev pub hex_digits : List ℕ
hex_digits = 48 ∷ 49 ∷ 50 ∷ 51 ∷ 52 ∷ 53 ∷ 54 ∷ 55 ∷ 56 ∷ 57 ∷ 65 ∷ 66 ∷ 67 ∷ 68 ∷ 69 ∷ 70 ∷ []

unfoldable pub hex_digit : ℕ → ℕ → ℕ
hex_digit value i = get_or hex_digits (u8 (bit_and (value >>> i) 15)) 0

module _ (full : ℕ → ℕ) where
  -- The loop of `printIntAsHex`, with `left` digits to go: `i` is 4 * (left - 1).
  unfoldable pub hex_loop : ℕ → ℕ → ℕ → Uart → Option Uart
  hex_loop fuel value zero uart = some uart
  hex_loop fuel value (suc left) uart =
      elim (uart_putc full fuel (hex_digit value (4 * left)) uart) [
        | none ↦ none
        | some next ↦ hex_loop fuel value left next
      ]

  -- `printIntAsHex`
  unfoldable pub print_int_as_hex : ℕ → ℕ → Uart → Option Uart
  print_int_as_hex fuel value uart = elim (uart_puts full fuel (48 ∷ 120 ∷ []) uart) [
    | none ↦ none
    | some prefixed ↦ elim (hex_loop fuel value 8 prefixed) [
      | none ↦ none
      | some printed ↦ uart_puts full fuel (13 ∷ 10 ∷ []) printed
    ]
  ]

-- `uart_getc`, with what the reads of the two registers give.
abbrev pub uart_getc : ℕ → ℕ → ℤ
uart_getc rxempty rxtx = if u8 rxempty == 0 then pos (u8 rxtx) else negsuc 0
