-- ===== src/Baremetal.antt =====
-- prog/rvtest, a program without an operating system: main.c, which prints the length of a received
-- packet, and the number printing of io.h. The characters printed are a list; uart_putc and
-- uart_puts of its crt0.S put out a character and the characters before a terminating zero.
pub mod Numbers
mod Tests
use rvcomp.Base.Int.{ℤ, pos, negsuc, neg}
use rvcomp.Base.{
  ℕ, zero, suc, ◌+◌, ◌-◌, ◌/◌, ◌%◌, Bool, true, false, Option, none, some, List, [], ◌∷◌, ◌++◌, ltb,
  if◌then◌else◌, ◌>>=◌,
}

-- The loop of `main` that fills `len_str` from its end, with `i` digits to go, and what is there.
unfoldable pub len_loop : ℕ → ℕ → List ℕ → List ℕ
len_loop zero len len_str = len_str
len_loop (suc i) len len_str = len_loop i (len / 10) ((len % 10 + b'0') ∷ len_str)

-- "Hello, world!\n" and "Received packet length: "
abbrev pub greeting : List ℕ
greeting =
    b'H' ∷ b'e' ∷ b'l' ∷ b'l' ∷ b'o' ∷ b',' ∷ 32 ∷ b'w' ∷ b'o' ∷ b'r' ∷ b'l' ∷ b'd' ∷ b'!' ∷ 10 ∷ []

abbrev pub announcement : List ℕ
announcement =
    b'R' ∷ b'e' ∷ b'c' ∷ b'e' ∷ b'i' ∷ b'v' ∷ b'e' ∷ b'd' ∷ 32 ∷ b'p' ∷ b'a' ∷ b'c' ∷ b'k' ∷ b'e'
    ∷ b't' ∷ 32 ∷ b'l' ∷ b'e' ∷ b'n' ∷ b'g' ∷ b't' ∷ b'h' ∷ b':' ∷ 32 ∷ []

-- `main`: what it prints, with the length that the register gives.
unfoldable pub main : ℕ → List ℕ
main len = greeting ++ (announcement ++ (len_loop 10 len [] ++ 10 ∷ []))

-- `s[num%base]`, none where the index is negative or behind the digits.
abbrev pub digit_char : ℤ → Option ℕ
digit_char (pos d) =
    if ltb d 10 then some (b'0' + d) else (if ltb d 16 then some (b'a' + (d - 10)) else none)
digit_char (negsuc d) = none

-- Division in C, which rounds towards zero.
abbrev pub quotient : ℤ → ℕ → ℤ
quotient (pos n) base = pos (n / base)
quotient (negsuc n) base = neg (pos (suc n / base))

abbrev pub remainder : ℤ → ℕ → ℤ
remainder (pos n) base = pos (n % base)
remainder (negsuc n) base = neg (pos (suc n % base))

abbrev pub is_zero : ℤ → Bool
is_zero (pos zero) = true
is_zero (pos (suc n)) = false
is_zero (negsuc n) = false

-- The first loop of `uart_put_num`, on fuel: the digits in `buf`, the last one first.
unfoldable pub num_loop : ℕ → ℤ → ℕ → List ℕ → Option (List ℕ)
num_loop zero num base buf = none
num_loop (suc fuel) num base buf = elim (is_zero num) [
  | true ↦ some buf
  | false ↦ do d ← digit_char (remainder num base); num_loop fuel (quotient num base) base (d ∷ buf)
]

-- `uart_put_num`: the second loop prints `buf` from its last character on. `buf` holds 256.
unfoldable pub uart_put_num : ℤ → ℕ → Option (List ℕ)
uart_put_num num base = num_loop 257 num base []

unfoldable pub uart_putb : ℤ → Option (List ℕ)
uart_putb num = uart_put_num num 2

unfoldable pub uart_putd : ℤ → Option (List ℕ)
uart_putd num = uart_put_num num 10

unfoldable pub uart_puth : ℤ → Option (List ℕ)
uart_puth num = uart_put_num num 16
