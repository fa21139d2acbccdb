-- ===== src/Bootrom/Uart/Printing.antt =====
-- What uart_puts and printIntAsHex send.
use native.Mathlib.Nat.{add-zero}
use rvcomp.Base.{
  ℕ, zero, suc, ◌+◌, ◌-◌, ◌*◌, ◌/◌, ◌%◌, ◌^◌, ◌≤◌, ◌<◌, bit_and, ◌≡◌, refl, sym, ap, ◌∙◌, ◌⊎◌, inl,
  inr, Bool, true, ◌&&◌, ◌||◌, some, List, [], ◌∷◌, ◌++◌, append_assoc, arith, ltb, leb, ◌==◌,
  if◌then◌else◌, Bool-cases, length, get_or, u8, ◌>>>◌,
}
use rvcomp.Bootrom.Uart.{
  Uart, wait_room, uart_putc, uart_puts, hex_digits, hex_digit, hex_loop, print_int_as_hex,
}
use rvcomp.Bits.{bit_and_mask}

-- The value of an upper-case hexadecimal digit.
abbrev pub digit_value : ℕ → ℕ
digit_value ch = if ltb ch 58 then ch - 48 else ch - 55

-- An upper-case hexadecimal digit.
abbrev pub IsHexDigit : ℕ → Type 0
IsHexDigit ch = ((b'0' ≤ ch) × (ch ≤ b'9')) ⊎ ((b'A' ≤ ch) × (ch ≤ b'F'))

abbrev pub AllHexDigits : List ℕ → Type 0
AllHexDigits [] = Unit {0}
AllHexDigits (ch ∷ sent) = IsHexDigit ch × AllHexDigits sent

-- The number that digits, newest first, spell.
abbrev pub hex_value : List ℕ → ℕ
hex_value [] = 0
hex_value (ch ∷ sent) = digit_value ch + 16 * hex_value sent

-- The transmit queue has room within `fuel` reads, whenever it is asked.
abbrev pub Drains : (ℕ → ℕ) → ℕ → Type 0
Drains full fuel = (i : ℕ) → (j : ℕ) × (j < fuel) × (full (i + j) % 2 ^ 8 ≡ 0)

wait_room_lem :
    (full : ℕ → ℕ) (fuel reads j : ℕ)
    → j < fuel
    → full (reads + j) % 2 ^ 8 ≡ 0
    → (r : ℕ) × (wait_room full fuel reads ≡ some r)
unfolding wait_room
wait_room_lem full zero reads j lt e = absurd (omega arith)
wait_room_lem full (suc fuel) reads zero lt e =
    let now : (u8 (full reads) == 0) ≡ true =
      ground (arith, ap (λ (k : ℕ). full k) (add-zero reads)) in
    (reads + 1, rw (now, wait_room) refl)
wait_room_lem full (suc fuel) reads (suc j) lt e = elim (Bool-cases (u8 (full reads) == 0)) [
  | inl t ↦ (reads + 1, rw (t, wait_room) refl)
  | inr f ↦
      let same : reads + suc j ≡ reads + 1 + j = omega arith in
      let (r, on) = wait_room_lem full fuel (reads + 1) j (omega arith) (rw same at e) in
      (r, rw (f, wait_room) on)
]

-- A character is sent as it is.
uart_putc_lem :
    (full : ℕ → ℕ) (fuel ch : ℕ) (uart : Uart)
    → Drains full fuel
    → ch < 256
    → (next : Uart) × (uart_putc full fuel ch uart ≡ some next) × (next.sent ≡ ch ∷ uart.sent)
unfolding uart_putc
uart_putc_lem full fuel ch uart drains lt =
    let (j, within, room) = drains uart.reads in
    let (r, e) = wait_room_lem full fuel uart.reads j within room in
    let byte : u8 ch ≡ ch = omega arith in
    (record { sent = u8 ch ∷ uart.sent; reads = r }, rw (e, uart_putc) refl, rw byte refl)

-- Each character spells its place in the list, counted from `i`.
abbrev spell : ℕ → List ℕ → Bool
spell i [] = true
spell i (d ∷ ds) =
    (leb b'0' d && leb d b'9' || leb b'A' d && leb d b'F') && digit_value d == i && spell (i + 1) ds

spell_lem :
    (ds : List ℕ) (i n : ℕ)
    → spell i ds ≡ true
    → n < length ds
    → IsHexDigit (get_or ds n 0) × (digit_value (get_or ds n 0) ≡ i + n)
spell_lem [] i n ok lt = absurd (omega arith)
spell_lem (d ∷ ds) i zero ok lt = ground arith
spell_lem (d ∷ ds) i (suc n) ok lt =
    let (small, val) = spell_lem ds (i + 1) n (ground arith) (omega arith) in
    (small, val ∙ omega arith)

hex_digit_lem :
    (value i : ℕ)
    → IsHexDigit (hex_digit value i) × (digit_value (hex_digit value i) ≡ value / 2 ^ i % 16)
unfolding hex_digit
hex_digit_lem value i =
    let nibble : u8 (bit_and (value >>> i) 15) ≡ value / 2 ^ i % 16 =
      omega (arith, bit_and_mask 4 (value / 2 ^ i)) in
    let (small, worth) = spell_lem hex_digits 0 (value / 2 ^ i % 16) refl (omega arith) in
    rw nibble (small, worth ∙ omega arith)

IsHexDigit-lt : (ch : ℕ) → IsHexDigit ch → ch < 256
IsHexDigit-lt ch digit = ground arith

-- The digits of the lower `left` nibbles, newest first.
abbrev pub hex_of : ℕ → ℕ → List ℕ
hex_of value zero = []
hex_of value (suc left) = hex_of value left ++ hex_digit value (4 * left) ∷ []

hex_loop_lem :
    (full : ℕ → ℕ) (fuel value left : ℕ) (uart : Uart)
    → Drains full fuel
    → (next : Uart) × (hex_loop full fuel value left uart ≡ some next)
      × (next.sent ≡ hex_of value left ++ uart.sent)
unfolding hex_loop
hex_loop_lem full fuel value zero uart drains = (uart, refl, refl)
hex_loop_lem full fuel value (suc left) uart drains =
    let digit : ℕ = hex_digit value (4 * left) in
    let (next, put, sent) =
      uart_putc_lem full fuel digit uart drains
        (IsHexDigit-lt digit (hex_digit_lem value (4 * left)).0) in
    let (after, rest, all) = hex_loop_lem full fuel value left next drains in
    (
      after,
      rw (put, hex_loop) rest,
      all
          ∙ ap (λ (l : List ℕ). hex_of value left ++ l) sent
          ∙ sym (append_assoc (hex_of value left) (digit ∷ []) uart.sent),
    )

-- Eight digits spell a 32-bit number.
hex_of-value : (value : ℕ) → value < 2 ^ 32 → hex_value (hex_of value 8) ≡ value
hex_of-value value lt = omega (
  arith,
  (hex_digit_lem value 0).1,
  (hex_digit_lem value 4).1,
  (hex_digit_lem value 8).1,
  (hex_digit_lem value 12).1,
  (hex_digit_lem value 16).1,
  (hex_digit_lem value 20).1,
  (hex_digit_lem value 24).1,
  (hex_digit_lem value 28).1,
)

hex_of-AllHexDigits : (value left : ℕ) → AllHexDigits (hex_of value left)
hex_of-AllHexDigits value = go
  where
    append : (xs : List ℕ) (ch : ℕ) → AllHexDigits xs → IsHexDigit ch → AllHexDigits (xs ++ ch ∷ [])
    append [] ch all digit = (digit, tt)
    append (x ∷ xs) ch (first, all) digit = (first, append xs ch all digit)

    go : (left : ℕ) → AllHexDigits (hex_of value left)
    go zero = tt
    go (suc left) =
        append (hex_of value left) (hex_digit value (4 * left)) (go left)
          (hex_digit_lem value (4 * left)).0

-- The characters of a string, newest first, over those sent before.
abbrev pub sent_after : List ℕ → List ℕ → List ℕ
sent_after [] sent = sent
sent_after (ch ∷ str) sent = sent_after str (ch ∷ sent)

abbrev pub AllBytes : List ℕ → Type 0
AllBytes [] = Unit {0}
AllBytes (ch ∷ str) = (ch < 256) × AllBytes str

-- A string of bytes is sent in its order, when the transmit queue always has room within `fuel`
-- reads.
pub uart_puts_lem :
    (full : ℕ → ℕ) (fuel : ℕ) (str : List ℕ) (uart : Uart)
    → Drains full fuel
    → AllBytes str
    → (next : Uart) × (uart_puts full fuel str uart ≡ some next)
      × (next.sent ≡ sent_after str uart.sent)
unfolding uart_puts
uart_puts_lem full fuel [] uart drains small = (uart, refl, refl)
uart_puts_lem full fuel (ch ∷ str) uart drains small =
    let (next, put, sent) = uart_putc_lem full fuel ch uart drains small.0 in
    let (after, rest, all) = uart_puts_lem full fuel str next drains small.1 in
    (after, rw (put, uart_puts) rest, all ∙ ap (λ (l : List ℕ). sent_after str l) sent)

-- With a transmit queue that always has room within `fuel` reads, a 32-bit number is printed as
-- "0x", eight characters, each of them '0' to '9' or 'A' to 'F', that spell it in base 16, and a line
-- end.
pub print_int_as_hex_lem :
    (full : ℕ → ℕ) (fuel value : ℕ) (uart : Uart)
    → Drains full fuel
    → value < 2 ^ 32
    → (next : Uart) × (digits : List ℕ) × (print_int_as_hex full fuel value uart ≡ some next)
      × (next.sent ≡ 10 ∷ 13 ∷ (digits ++ 120 ∷ 48 ∷ uart.sent))
      × AllHexDigits digits
      × (length digits ≡ 8)
      × (hex_value digits ≡ value)
unfolding print_int_as_hex
print_int_as_hex_lem full fuel value uart drains lt =
    let (a, ea, sa) =
      uart_puts_lem full fuel (48 ∷ 120 ∷ []) uart drains (omega arith, (omega arith, tt)) in
    let (b, eb, sb) = hex_loop_lem full fuel value 8 a drains in
    let (c, ec, sc) =
      uart_puts_lem full fuel (13 ∷ 10 ∷ []) b drains (omega arith, (omega arith, tt)) in
    (
      c,
      hex_of value 8,
      rw (ea, print_int_as_hex) (rw eb ec),
      sc
          ∙ ap (λ (l : List ℕ). 10 ∷ 13 ∷ l) sb
          ∙ ap (λ (l : List ℕ). 10 ∷ 13 ∷ (hex_of value 8 ++ l)) sa,
      hex_of-AllHexDigits value 8,
      refl,
      hex_of-value value lt,
    )
