-- ===== src/Printf.antt =====
-- prog/coremark/riscv/ee_printf.c, the formatted output of the CoreMark port, in the build without
-- floating point. A routine that writes through `str` gives the characters that it writes.
pub mod Digits
pub mod Number
pub mod Format
pub mod Print
pub mod Length
pub mod Loop
pub mod Spec
pub mod Parse
pub mod RoundTrip
pub mod Address
pub mod Conversion
pub mod Float
mod Tests
mod FloatTests
use mathlib.Core.Option
use rvcomp.Base.Int.{ℤ, pos, to_nat, minus, below}
use rvcomp.Base.{
  ℕ, zero, suc, ◌+◌, ◌-◌, ◌*◌, ◌/◌, ◌%◌, ◌^◌, Bool, true, false, not, ◌&&◌, ◌||◌, Option, none,
  some, List, [], ◌∷◌, ◌++◌, ltb, leb, ◌==◌, if◌then◌else◌, length, get_or, replicate, u32,
}

-- The bits of `flags`, one field for each of the macros ZEROPAD to UPPERCASE.
pub record Flags : Type 0 where
  pub zeropad : Bool
  pub sign : Bool
  pub plus : Bool
  pub space : Bool
  pub left : Bool
  pub hex_prep : Bool
  pub uppercase : Bool

abbrev pub is_digit : ℕ → Bool
is_digit c = leb b'0' c && leb c b'9'

-- The tables `digits` and `upper_digits`.
abbrev letters : ℕ → ℕ → List ℕ
letters c zero = []
letters c (suc n) = c ∷ letters (c + 1) n

abbrev pub digits : List ℕ
digits = letters b'0' 10 ++ letters b'a' 26

abbrev pub upper_digits : List ℕ
upper_digits = letters b'0' 10 ++ letters b'A' 26

-- `strnlen` of the characters before the terminating zero.
unfoldable pub strnlen : List ℕ → ℕ → ℕ
strnlen [] count = 0
strnlen (c ∷ s) zero = 0
strnlen (c ∷ s) (suc count) = suc (strnlen s count)

-- `skip_atoi` from `i` on: the number, and the text behind its digits.
unfoldable pub skip_atoi : List ℕ → ℕ → ℕ × List ℕ
skip_atoi [] i = (i, [])
skip_atoi (c ∷ s) i = elim (is_digit c) [
  | true ↦ skip_atoi s (u32 (i * 10 + c - b'0'))
  | false ↦ (i, c ∷ s)
]

-- `while (size-- > 0) *str++ = c`: the characters, and `size` after it.
abbrev pub pad : ℕ → ℤ → List ℕ × ℤ
pad c size = (replicate (to_nat size) c, minus (if below 0 size then pos 0 else size) 1)

-- The digits of `number` in `tmp`, last one first as they are printed from its end. `room` counts
-- the places of `tmp` that are left: `none` for a write past it.
unfoldable pub digit_loop : ℕ → List ℕ → ℕ → ℕ → List ℕ → Option (List ℕ)
digit_loop room dig base zero tmp = some tmp
digit_loop zero dig base (suc n) tmp = none
digit_loop (suc room) dig base (suc n) tmp =
    digit_loop room dig base (suc n / base) (get_or dig (suc n % base) 0 ∷ tmp)

unfoldable pub digit_list : List ℕ → ℕ → ℕ → Option (List ℕ)
digit_list dig base zero = some (b'0' ∷ [])
digit_list dig base (suc n) = digit_loop 66 dig base (suc n) []

-- The sign character, 0 for none, the magnitude of `num`, and `size` less the sign.
unfoldable pub sign_of : ℕ → ℤ → Flags → ℕ × ℕ × ℤ
sign_of num size type =
    if not type.sign
    then (0, num, size)
    else (if leb (2 ^ 31) num
        then (b'-', u32 (2 ^ 32 - num), minus size 1)
        else (if type.plus
            then (b'+', num, minus size 1)
            else (if type.space then (b' ', num, minus size 1) else (0, num, size))))

-- `if (sign) *str++ = sign`
abbrev pub put_sign : ℕ → List ℕ
put_sign sign = if sign == 0 then [] else sign ∷ []

-- What HEX_PREP writes before the digits, and `size` less it.
unfoldable pub put_prefix : ℕ → Flags → List ℕ
put_prefix base type =
    if not type.hex_prep
    then []
    else (if base == 8
        then b'0' ∷ []
        else (if base == 16 then b'0' ∷ get_or digits 33 0 ∷ [] else []))

unfoldable pub prefix_size : ℕ → ℤ → Flags → ℤ
prefix_size base size type =
    if not type.hex_prep
    then size
    else (if base == 16 then minus size 2 else (if base == 8 then minus size 1 else size))

-- `while (i < precision--) *str++ = '0'`
unfoldable pub zeros : ℕ → ℕ → List ℕ
zeros i zero = []
zeros i (suc precision) = elim (ltb i (suc precision)) [
  | true ↦ b'0' ∷ zeros i precision
  | false ↦ []
]

-- The three padding loops round what is written between them, with `size` left to fill.
unfoldable pub arrange : Bool → Bool → ℤ → List ℕ → List ℕ → List ℕ → List ℕ
arrange zeropad left size sign prefix body =
    let (before, size1) = if not (zeropad || left) then pad b' ' size else ([], size) in
    let c = if zeropad then b'0' else b' ' in
    let (inner, size2) = if not left then pad c size1 else ([], size1) in
    before ++ sign ++ prefix ++ inner ++ body ++ (pad b' ' size2).0

-- From `if (i > precision)` on, with the digits in `tmp`.
unfoldable pub layout : ℕ → ℕ → Bool → ℤ → ℤ → Flags → List ℕ → List ℕ
layout base sign zeropad size precision type tmp =
    let i = length tmp in
    let precision' = if below i precision then to_nat precision else i in
    arrange zeropad type.left (minus size precision') (put_sign sign) (put_prefix base type)
      (zeros i precision' ++ tmp)

-- `number`: the characters, `none` where it returns a null pointer.
unfoldable pub number : ℕ → ℕ → ℤ → ℤ → Flags → Option (List ℕ)
number num base size precision type =
    let dig = if type.uppercase then upper_digits else digits in
    let zeropad = type.zeropad && not type.left in
    let (sign, magnitude, size1) = sign_of num size type in
    let size2 = prefix_size base size1 type in
    if ltb base 2 || ltb 36 base
    then none
    else Option.map (layout base sign zeropad size2 precision type) (digit_list dig base magnitude)
