-- ===== src/Bootrom/Boot/Loading.antt =====
-- What the boot loader leaves, in both builds.
use rvcomp.Base.{
  ℕ, zero, suc, ◌+◌, ◌^◌, ◌≤◌, ◌<◌, ◌≡◌, refl, sym, ap, ap₂, ◌∙◌, Bool, true, ◌&&◌, some, List, [],
  ◌∷◌, arith, ltb, get_or, drop, Memory, update, update_self, update_ne, u8, u32,
}
use rvcomp.Bootrom.Uart.Printing.{Drains, sent_after, AllBytes, uart_puts_lem}
use rvcomp.Bootrom.Boot.{
  hello, finished, Line, poll, wait_byte, receive, bootloader_uart, Boot, tell,
}

abbrev all_small : List ℕ → Bool
all_small [] = true
all_small (ch ∷ str) = ltb ch 256 && all_small str

all_small-AllBytes : (str : List ℕ) → all_small str ≡ true → AllBytes str
all_small-AllBytes [] h = tt
all_small-AllBytes (ch ∷ str) h = (ground arith, all_small-AllBytes str (ground arith))

-- A message is sent, and noted with the machine as it is.
tell_lem :
    {M : Type 0} (full : ℕ → ℕ) (fuel : ℕ) (str : List ℕ) (b : Boot M)
    → Drains full fuel
    → all_small str ≡ true
    → (b' : Boot M) × (tell full fuel str b ≡ some b')
      × (b'.uart.sent ≡ sent_after str b.uart.sent)
      × (b'.machine ≡ b.machine)
      × (b'.told ≡ (str, b.machine) ∷ b.told)
unfolding tell
tell_lem full fuel str b drains small =
    let (uart, put, sent) =
      uart_puts_lem full fuel str b.uart drains (all_small-AllBytes str small) in
    (
      record { uart = uart; machine = b.machine; told = (str, b.machine) ∷ b.told },
      rw put refl,
      sent,
      refl,
      refl,
    )

wait_byte_lem :
    (fuel idle byte : ℕ) (rest : Line)
    → idle < fuel
    → byte < 256
    → wait_byte fuel ((idle, byte) ∷ rest) ≡ some (byte, rest)
unfolding wait_byte poll
wait_byte_lem zero idle byte rest lt small = absurd (omega arith)
wait_byte_lem (suc fuel) zero byte rest lt small =
    let same : u8 byte ≡ byte = omega arith in rw same refl
wait_byte_lem (suc fuel) (suc idle) byte rest lt small =
    wait_byte_lem fuel idle byte rest (omega arith) small

-- The line brings at least `n` bytes, each after fewer than `fuel` polls that find none.
abbrev pub Brings : ℕ → ℕ → Line → Type 0
Brings fuel zero line = Unit {0}
Brings fuel (suc n) [] = ⊥
Brings fuel (suc n) ((idle, byte) ∷ rest) = (idle < fuel) × (byte < 256) × Brings fuel n rest

abbrev pub byte_at : Line → ℕ → ℕ
byte_at line j = (get_or line j (0, 0)).1

receive_lem :
    (fuel left i : ℕ) (line : Line) (dram : Memory)
    → Brings fuel left line
    → i + left ≤ 2 ^ 31
    → (dram' : Memory) × (receive fuel left i line dram ≡ some (drop left line, dram'))
      × ((j : ℕ) → j < left → dram' (0x80000000 + i + j) ≡ byte_at line j)
      × ((q : ℕ) → q < 0x80000000 + i → dram' q ≡ dram q)
      × ((q : ℕ) → 0x80000000 + i + left ≤ q → dram' q ≡ dram q)
unfolding receive
receive_lem fuel zero i line dram brings fits =
    (dram, refl, (λ j lt. absurd (omega arith)), (λ q lt. refl), (λ q le. refl))
receive_lem fuel (suc left) i [] dram brings fits = absurd brings
receive_lem fuel (suc left) i ((idle, byte) ∷ rest) dram (soon, small, brings) fits =
    let one : Memory = update dram (0x80000000 + i) byte in
    let got = wait_byte_lem fuel idle byte rest soon small in
    let later : i + 1 + left ≤ 2 ^ 31 = omega arith in
    let same : u8 byte ≡ byte = omega arith in
    let at_byte_i : u32 (0x80000000 + i) ≡ 0x80000000 + i = omega arith in
    let (dram', run, here, low, high) = receive_lem fuel left (i + 1) rest one brings later in
    (
      dram',
      rw (got, receive, same, at_byte_i) run,
      at_byte dram' (update_self dram (0x80000000 + i) byte) here low,
      (λ q lt. low q (omega arith) ∙ update_ne dram (0x80000000 + i) byte q (omega arith)),
      (λ q le. high q (omega arith) ∙ update_ne dram (0x80000000 + i) byte q (omega arith)),
    )
  where
    at_byte :
        (dram' : Memory)
        → update dram (0x80000000 + i) byte (0x80000000 + i) ≡ byte
        → ((j : ℕ) → j < left → dram' (0x80000000 + (i + 1) + j) ≡ byte_at rest j)
        → ((q : ℕ) → q < 0x80000000 + (i + 1) → dram' q ≡ update dram (0x80000000 + i) byte q)
        → (j : ℕ) → j < suc left
        → dram' (0x80000000 + i + j) ≡ byte_at ((idle, byte) ∷ rest) j
    at_byte dram' set here low zero lt =
        let at : 0x80000000 + i + 0 ≡ 0x80000000 + i = omega arith in
        ap dram' at ∙ (low (0x80000000 + i) (omega arith) ∙ set)
    at_byte dram' set here low (suc j) lt =
        let at : 0x80000000 + i + suc j ≡ 0x80000000 + (i + 1) + j = omega arith in
        ap dram' at ∙ here j (omega arith)

-- Built with UART_BOOT, for an image of at most 512 MiB, the boot loader tells its first
-- message with the machine as it was, then writes the bytes that the serial line brings to the start
-- of the main memory in their order, and nothing else, and tells its second message with the bytes
-- in place, where the line brings enough of them and neither a byte nor room in the transmit queue
-- is waited for longer than `fuel` polls. What comes behind the image stays on the line.
pub bootloader_uart_lem :
    (full : ℕ → ℕ) (fuel bin_size : ℕ) (b : Boot (Line × Memory))
    → Drains full fuel
    → Brings fuel bin_size b.machine.0
    → bin_size ≤ 2 ^ 29
    → (b' : Boot (Line × Memory)) × (bootloader_uart full fuel bin_size b ≡ some b')
      × (b'.uart.sent ≡ sent_after finished (sent_after hello b.uart.sent))
      × (b'.told ≡ (finished, b'.machine) ∷ (hello, b.machine) ∷ b.told)
      × (b'.machine.0 ≡ drop bin_size b.machine.0)
      × ((j : ℕ) → j < bin_size → b'.machine.1 (0x80000000 + j) ≡ byte_at b.machine.0 j)
      × ((q : ℕ) → q < 0x80000000 → b'.machine.1 q ≡ b.machine.1 q)
      × ((q : ℕ) → 0x80000000 + bin_size ≤ q → b'.machine.1 q ≡ b.machine.1 q)
unfolding bootloader_uart
bootloader_uart_lem full fuel bin_size b drains brings fits =
    let (g, greeted, sent, same, noted) = tell_lem full fuel hello b drains refl in
    let (dram', received, here, low, high) =
      receive_lem fuel bin_size 0 b.machine.0 b.machine.1 brings (omega arith) in
    let (b', told, sent', same', noted') =
      tell_lem full fuel finished
        (record { uart = g.uart; machine = (drop bin_size b.machine.0, dram'); told = g.told })
        drains refl in
    (
      b',
      rw greeted (rw (same, received) told),
      sent' ∙ ap (λ (l : List ℕ). sent_after finished l) sent,
      noted'
          ∙ ap₂ (λ (m : Line × Memory) (l : List (List ℕ × (Line × Memory))). (finished, m) ∷ l)
              (sym same') noted,
      ap (λ (m : Line × Memory). m.0) same',
      rw same' here,
      rw same' low,
      rw same' high,
    )
