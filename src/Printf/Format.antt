-- ===== src/Printf/Format.antt =====
-- prog/coremark/riscv/ee_printf.c: the addresses, ee_vsprintf and ee_printf.
use mathlib.Core.Option
use rvcomp.Base.Int.{ℤ, pos, negsuc, to_nat, minus, below, int_of}
use rvcomp.Base.{
  ℕ, zero, suc, ◌-◌, ◌/◌, ◌%◌, ◌^◌, Bool, true, false, not, ◌||◌, Option, none, some, List, [], ◌∷◌,
  ◌++◌, leb, ◌==◌, if◌then◌else◌, ◌>>=◌, length, get_or, replicate, u32,
}
use rvcomp.Printf.{Flags, is_digit, digits, upper_digits, skip_atoi}

-- An argument of the call: a word, a string (`none` for a null pointer) without its terminating
-- zero, or the bytes that a pointer to an address leads to.
pub data Arg : Type 0 where
  word : ℕ → Arg
  text : Option (List ℕ) → Arg
  octets : List ℕ → Arg

-- `va_arg`: `none` for a missing argument or one of another type.
abbrev pub va_word : List Arg → Option (ℕ × List Arg)
va_word [] = none
va_word (word w ∷ args) = some (w, args)
va_word (text s ∷ args) = none
va_word (octets addr ∷ args) = none

abbrev pub va_text : List Arg → Option (Option (List ℕ) × List Arg)
va_text [] = none
va_text (word w ∷ args) = none
va_text (text s ∷ args) = some (s, args)
va_text (octets addr ∷ args) = none

abbrev pub va_octets : List Arg → Option (List ℕ × List Arg)
va_octets [] = none
va_octets (word w ∷ args) = none
va_octets (text s ∷ args) = none
va_octets (octets addr ∷ args) = some (addr, args)

-- `while (len < size--) *str++ = ' '`: the characters, and `size` after it.
abbrev pub pad_past : ℕ → ℤ → List ℕ × ℤ
pad_past len size =
    (replicate (to_nat size - len) b' ', minus (if below len size then pos len else size) 1)

-- The two padding loops round the characters of `tmp`.
unfoldable pub framed : Bool → ℤ → List ℕ → List ℕ
framed left size tmp =
    let len = length tmp in
    let (before, size1) = if not left then pad_past len size else ([], size) in
    before ++ tmp ++ (pad_past len size1).0

-- `while (--size > 0) *str++ = ' '`: the characters, and `size` after it.
abbrev pub pad_char : ℤ → List ℕ × ℤ
pad_char size = (replicate (to_nat size - 1) b' ', if below 1 size then pos 0 else minus size 1)

unfoldable pub framed_char : Bool → ℤ → ℕ → List ℕ
framed_char left size c =
    let (before, size1) = if not left then pad_char size else ([], size) in
    before ++ c % 256 ∷ (pad_char size1).0

-- The loop of `eaddr` and `iaddr` over the last `k` of `total` bytes: `none` for a read behind
-- the address.
unfoldable pub joined : ℕ → (ℕ → List ℕ) → ℕ → ℕ → List ℕ → Option (List ℕ)
joined sep each total zero addr = some []
joined sep each total (suc k) [] = none
joined sep each total (suc k) (n ∷ addr) =
    Option.map (λ (rest : List ℕ). (if suc k == total then [] else sep ∷ []) ++ each n ++ rest)
      (joined sep each total k addr)

abbrev pub hex_pair : List ℕ → ℕ → List ℕ
hex_pair dig n = get_or dig (n / 16) 0 ∷ get_or dig (n % 16) 0 ∷ []

unfoldable pub eaddr : List ℕ → ℤ → Flags → Option (List ℕ)
eaddr addr size type =
    let dig = if type.uppercase then upper_digits else digits in
    Option.map (framed type.left size) (joined b':' (hex_pair dig) 6 6 addr)

-- The digits of one byte of an address.
unfoldable pub octet : ℕ → List ℕ
octet n =
    if n == 0
    then get_or digits 0 0 ∷ []
    else (if leb 100 n
        then get_or digits (n / 100) 0
          ∷ get_or digits (n % 100 / 10) 0
          ∷ get_or digits (n % 100 % 10) 0
          ∷ []
        else (if leb 10 n
            then get_or digits (n / 10) 0 ∷ get_or digits (n % 10) 0 ∷ []
            else get_or digits n 0 ∷ []))

unfoldable pub iaddr : List ℕ → ℤ → Flags → Option (List ℕ)
iaddr addr size type = Option.map (framed type.left size) (joined b'.' octet 4 4 addr)

-- What stands between `%` and the conversion.
pub record Directive : Type 0 where
  pub flags : Flags
  pub field_width : ℤ
  pub precision : ℤ
  pub long : Bool

abbrev pub no_flags : Flags
no_flags = record {
  zeropad = false;
  sign = false;
  plus = false;
  space = false;
  left = false;
  hex_prep = false;
  uppercase = false;
}

-- The cases of the switch at `repeat`.
unfoldable pub set_flag : ℕ → Flags → Option Flags
set_flag c flags =
    if c == b'-'
    then some (record flags { left = true })
    else (if c == b'+'
        then some (record flags { plus = true })
        else (if c == b' '
            then some (record flags { space = true })
            else (if c == b'#'
                then some (record flags { hex_prep = true })
                else (if c == b'0' then some (record flags { zeropad = true }) else none))))

unfoldable pub parse_flags : List ℕ → Flags → Flags × List ℕ
parse_flags [] flags = (flags, [])
parse_flags (c ∷ fmt) flags = elim (set_flag c flags) [
  | some flags' ↦ parse_flags fmt flags'
  | none ↦ (flags, c ∷ fmt)
]

-- A width from the arguments: its absolute value, and LEFT for a negative one.
abbrev pub star_width : ℕ → Flags → ℤ × Flags
star_width w flags =
    if leb (2 ^ 31) w
    then (int_of (u32 (2 ^ 32 - w)), record flags { left = true })
    else (int_of w, flags)

unfoldable pub parse_width : List ℕ → List Arg → Flags → Option (ℤ × Flags × List ℕ × List Arg)
parse_width [] args flags = some (negsuc 0, flags, [], args)
parse_width (c ∷ fmt) args flags =
    if is_digit c
    then (let (n, rest) = skip_atoi (c ∷ fmt) 0 in some (int_of n, flags, rest, args))
    else (if c == b'*'
        then Option.map
            (λ ((w, args') : ℕ × List Arg).
              let (width, flags') = star_width w flags in (width, flags', fmt, args'))
            (va_word args)
        else some (negsuc 0, flags, c ∷ fmt, args))

-- `if (precision < 0) precision = 0`
abbrev pub not_below_zero : ℤ → ℤ
not_below_zero z = pos (to_nat z)

-- The precision behind the point.
unfoldable pub point_precision : List ℕ → List Arg → Option (ℤ × List ℕ × List Arg)
point_precision [] args = some (pos 0, [], args)
point_precision (c ∷ fmt) args =
    if is_digit c
    then (let (n, rest) = skip_atoi (c ∷ fmt) 0 in some (not_below_zero (int_of n), rest, args))
    else (if c == b'*'
        then Option.map (λ ((w, args') : ℕ × List Arg). (not_below_zero (int_of w), fmt, args'))
            (va_word args)
        else some (pos 0, c ∷ fmt, args))

unfoldable pub parse_precision : List ℕ → List Arg → Option (ℤ × List ℕ × List Arg)
parse_precision [] args = some (negsuc 0, [], args)
parse_precision (c ∷ fmt) args =
    if c == b'.' then point_precision fmt args else some (negsuc 0, c ∷ fmt, args)

-- Whether the qualifier is `l`.
unfoldable pub parse_qualifier : List ℕ → Bool × List ℕ
parse_qualifier [] = (false, [])
parse_qualifier (c ∷ fmt) = if c == b'l' || c == b'L' then (c == b'l', fmt) else (false, c ∷ fmt)

unfoldable pub parse_directive : List ℕ → List Arg → Option (Directive × List ℕ × List Arg)
parse_directive fmt args = do
  let (flags, fmt1) = parse_flags fmt no_flags
  (width, flags', fmt2, args1) ← parse_width fmt1 args flags
  (precision, fmt3, args2) ← parse_precision fmt2 args1
  let (long, fmt4) = parse_qualifier fmt3
  some (
    record { flags = flags'; field_width = width; precision = precision; long = long },
    fmt4,
    args2,
  )
