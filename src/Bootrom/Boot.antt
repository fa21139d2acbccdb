-- ===== src/Bootrom/Boot.antt =====
-- bootloader.c as a whole, in both builds: two messages on the serial port, and between them the
-- image, copied from the card or, with UART_BOOT, received byte by byte.
use rvcomp.Base.{
  ℕ, zero, suc, ◌+◌, Option, none, some, List, [], ◌∷◌, ◌>>=◌, Memory, update, u8, u32,
}
use rvcomp.Bootrom.Uart.{Uart, uart_puts, uart_getc}
use rvcomp.Bootrom.Loader.{Board, load_image}
pub mod Loading
use rvcomp.Base.Int.{pos, negsuc}

-- "[     bootrom] Hello, world!\n"
abbrev pub hello : List ℕ
hello =
    b'[' ∷ 32 ∷ 32 ∷ 32 ∷ 32 ∷ 32 ∷ b'b' ∷ b'o' ∷ b'o' ∷ b't' ∷ b'r' ∷ b'o' ∷ b'm' ∷ b']' ∷ 32
    ∷ b'H' ∷ b'e' ∷ b'l' ∷ b'l' ∷ b'o' ∷ b',' ∷ 32 ∷ b'w' ∷ b'o' ∷ b'r' ∷ b'l' ∷ b'd' ∷ b'!' ∷ 10
    ∷ []

-- "[     bootrom] dram initialization finished!\n"
abbrev pub finished : List ℕ
finished =
    b'[' ∷ 32 ∷ 32 ∷ 32 ∷ 32 ∷ 32 ∷ b'b' ∷ b'o' ∷ b'o' ∷ b't' ∷ b'r' ∷ b'o' ∷ b'm' ∷ b']' ∷ 32
    ∷ b'd' ∷ b'r' ∷ b'a' ∷ b'm' ∷ 32 ∷ b'i' ∷ b'n' ∷ b'i' ∷ b't' ∷ b'i' ∷ b'a' ∷ b'l' ∷ b'i' ∷ b'z'
    ∷ b'a' ∷ b't' ∷ b'i' ∷ b'o' ∷ b'n' ∷ 32 ∷ b'f' ∷ b'i' ∷ b'n' ∷ b'i' ∷ b's' ∷ b'h' ∷ b'e' ∷ b'd'
    ∷ b'!' ∷ 10 ∷ []

-- The serial port, the rest of the machine, and the messages that were sent, newest first, each with
-- the machine as it was at that time.
pub record Boot (M : Type 0) : Type 0 where
  pub uart : Uart
  pub machine : M
  pub told : List (List ℕ × M)

module _ (full : ℕ → ℕ) (fuel : ℕ) where
  -- `uart_puts` of a message.
  unfoldable pub tell : {M : Type 0} → List ℕ → Boot M → Option (Boot M)
  tell str b = do
    uart ← uart_puts full fuel str b.uart
    some (record { uart = uart; machine = b.machine; told = (str, b.machine) ∷ b.told })

  -- `bootloader` as it is built, without UART_BOOT.
  unfoldable pub bootloader : ℕ → Boot Board → Option (Boot Board)
  bootloader bin_size b = do
    greeted ← tell hello b
    copied ← load_image bin_size greeted.machine
    tell finished (record { uart = greeted.uart; machine = copied; told = greeted.told })

-- The bytes to come over the serial line, each behind the number of polls that find none.
abbrev pub Line : Type 0
Line = List (ℕ × ℕ)

-- What the two registers give to one poll, and the line behind it.
unfoldable pub poll : Line → ℕ × ℕ × Line
poll [] = (1, 0, [])
poll ((suc idle, byte) ∷ rest) = (1, 0, (idle, byte) ∷ rest)
poll ((zero, byte) ∷ rest) = (0, byte, rest)

-- The loop around `uart_getc`, on fuel.
unfoldable pub wait_byte : ℕ → Line → Option (ℕ × Line)
wait_byte zero line = none
wait_byte (suc fuel) line =
    let (rxempty, rxtx, after) = poll line in
    elim (uart_getc rxempty rxtx) [
      | pos byte ↦ some (byte, after)
      | negsuc n ↦ wait_byte fuel after
    ]

-- The loop over the bytes of the image, from byte `i` on, into the bytes of the main memory.
unfoldable pub receive : ℕ → ℕ → ℕ → Line → Memory → Option (Line × Memory)
receive fuel zero i line dram = some (line, dram)
receive fuel (suc left) i line dram = elim (wait_byte fuel line) [
  | none ↦ none
  | some got ↦ receive fuel left (i + 1) got.1 (update dram (u32 (0x80000000 + i)) (u8 got.0))
]

module _ (full : ℕ → ℕ) (fuel : ℕ) where
  -- `bootloader` with UART_BOOT; `i` is an int, so BIN_SIZE is at most 2^31 - 1.
  unfoldable pub bootloader_uart : ℕ → Boot (Line × Memory) → Option (Boot (Line × Memory))
  bootloader_uart bin_size b = do
    greeted ← tell full fuel hello b
    received ← receive fuel bin_size 0 greeted.machine.0 greeted.machine.1
    tell full fuel finished
        (record { uart = greeted.uart; machine = received; told = greeted.told })
