-- ===== src/Printf/Tests.antt =====
-- Runs of the formatted output, and the theorems on them.
use rvcomp.Base.Int.{pos}
use rvcomp.Base.{ℕ, ◌-◌, ◌^◌, ◌≤◌, ◌≡◌, refl, true, false, none, some, List, [], ◌∷◌, arith, length}
use rvcomp.Printf.Conversion.{conversion-signed}
use rvcomp.Printf.Number.{sign_text, prefix_text, magnitude, field, body_text, number_lem}
use rvcomp.Printf.RoundTrip.{ee_vsprintf-items}
use rvcomp.Printf.Address.{in_field, IsOctet, dotted, iaddr_lem}
use rvcomp.Printf.Digits.{Numeral}
use rvcomp.Printf.Print.{
  put_integer, conversion, directive, format, ee_vsprintf, before_zero, ee_printf, put_char,
  put_text,
}
use rvcomp.Printf.Spec.{
  left_mark, hex_mark, hex, signed, Spec, Item, literal, convert, items_text, interpret,
  directive_of, IsSpec,
}
use rvcomp.Printf.{
  skip_atoi, digit_loop, digit_list, sign_of, put_prefix, prefix_size, zeros, arrange, layout,
  number, Flags, strnlen,
}
use rvcomp.Printf.Format.{
  Arg, word, set_flag, parse_flags, parse_width, point_precision, parse_precision, parse_qualifier,
  parse_directive, iaddr, no_flags, text, framed, framed_char,
}

-- `%-6.3d|%#x|%5s` of -42, 255 and "ab".
abbrev spec_d : Spec
spec_d = record {
  marks = left_mark ∷ [];
  width = b'6' ∷ [];
  point = some (b'3' ∷ []);
  long = false;
  kind = signed;
}

abbrev spec_x : Spec
spec_x = record { marks = hex_mark ∷ []; width = []; point = none; long = true; kind = hex }

abbrev some_items : List Item
some_items = convert spec_d ∷ literal b'|' ∷ convert spec_x ∷ []

abbrev some_args : List Arg
some_args = word (2 ^ 32 - 42) ∷ word 255 ∷ []

abbrev some_text : List ℕ
some_text = b'%' ∷ b'-' ∷ b'6' ∷ b'.' ∷ b'3' ∷ b'd' ∷ b'|' ∷ b'%' ∷ b'#' ∷ b'l' ∷ b'x' ∷ []

abbrev some_output : List ℕ
some_output = b'-' ∷ b'0' ∷ b'4' ∷ b'2' ∷ b' ' ∷ b' ' ∷ b'|' ∷ b'0' ∷ b'x' ∷ b'f' ∷ b'f' ∷ []

items_text_run : items_text some_items ≡ some_text
items_text_run = refl

interpret_run : interpret some_items some_args ≡ some some_output
unfolding conversion put_integer number digit_list digit_loop layout arrange zeros put_prefix
    prefix_size sign_of
interpret_run = refl

ee_printf_run : ee_printf some_text some_args ≡ some (some_output, 11)
unfolding ee_printf before_zero ee_vsprintf format directive parse_directive parse_flags set_flag
    parse_width skip_atoi parse_precision point_precision parse_qualifier conversion put_integer
    number digit_list digit_loop layout arrange zeros put_prefix prefix_size sign_of
ee_printf_run = refl

abbrev signed_flags : Flags
signed_flags = record no_flags { sign = true; left = true }

number_lem_example :
    (ds : List ℕ) × (number (2 ^ 32 - 42) 10 (pos 6) (pos 3) signed_flags
      ≡ some (
          field signed_flags 6
            (sign_text (2 ^ 32 - 42) signed_flags)
            (prefix_text 10 signed_flags)
            (body_text 3 ds)))
    × Numeral 10 (magnitude (2 ^ 32 - 42) signed_flags) ds
number_lem_example =
    number_lem (2 ^ 32 - 42) 10 (pos 6) (pos 3) signed_flags (omega arith) (omega arith)
      (omega arith)

spec_d-IsSpec : IsSpec spec_d
spec_d-IsSpec = record {
  width = record { all = (refl, tt); small = omega arith };
  no_zero = λ h. absurd (omega arith);
  point = record { all = (refl, tt); small = omega arith };
}

spec_x-IsSpec : IsSpec spec_x
spec_x-IsSpec = record {
  width = record { all = tt; small = omega arith };
  no_zero = λ h. absurd (omega arith);
  point = tt;
}

ee_vsprintf-items_example :
    ee_vsprintf (items_text some_items) some_args ≡ interpret some_items some_args
ee_vsprintf-items_example =
    ee_vsprintf-items some_items some_args
      (spec_d-IsSpec, ((λ h. absurd (omega arith)), (spec_x-IsSpec, tt)))

iaddr_lem_example :
    (ta tb tc td : List ℕ) × IsOctet 192 ta
    × IsOctet 168 tb
    × IsOctet 0 tc
    × IsOctet 12 td
    × let chars = dotted ta tb tc td in
      (iaddr (192 ∷ 168 ∷ 0 ∷ 12 ∷ []) (pos 16) no_flags ≡ some (in_field false 16 chars))
      × (length chars ≤ 15)
iaddr_lem_example =
    iaddr_lem 192 168 0 12 (pos 16) no_flags (omega arith) (omega arith) (omega arith) (omega arith)

conversion-signed_example :
    let d = directive_of spec_d in
    let flags = record d.flags { sign = true } in
    (ds : List ℕ) × Numeral 10 42 ds
    × (conversion d b'd' (word (2 ^ 32 - 42) ∷ [])
        ≡ some (field flags 6 (sign_text (2 ^ 32 - 42) flags) [] (body_text 3 ds), []))
    × (conversion d b'i' (word (2 ^ 32 - 42) ∷ []) ≡ conversion d b'd' (word (2 ^ 32 - 42) ∷ []))
conversion-signed_example = conversion-signed (directive_of spec_d) (2 ^ 32 - 42) [] (omega arith)

-- `%c` of a number above a byte, and a string.
abbrev char_and_text : List ℕ
char_and_text = b'%' ∷ b'c' ∷ b'%' ∷ b's' ∷ []

char_and_text_run :
    ee_printf char_and_text (word 0x141 ∷ text (some (b'h' ∷ b'i' ∷ [])) ∷ [])
    ≡ some (b'A' ∷ b'h' ∷ b'i' ∷ [], 3)
unfolding ee_printf ee_vsprintf format directive conversion parse_directive parse_flags set_flag
    parse_width parse_precision parse_qualifier before_zero put_char put_text framed framed_char
    strnlen
char_and_text_run = refl
