-- ===== src/Printf/Parse.antt =====
-- The parser of directives reads back what a directive is written as.
use rvcomp.Base.{
  ℕ, ◌+◌, ◌-◌, ◌*◌, ◌^◌, ◌≤◌, ◌<◌, ◌≡◌, refl, ap, ◌∙◌, Bool, true, false, not, ◌&&◌, none, some,
  List, [], ◌∷◌, ◌++◌, arith, ◌==◌, u32,
}
use rvcomp.Printf.Spec.{
  Mark, left_mark, plus_mark, space_mark, hex_mark, zero_mark, mark_char, put_mark, put_marks, Kind,
  kind_char, marks_text, long_text,
}
use rvcomp.Printf.Format.{set_flag, parse_flags, parse_qualifier}
use rvcomp.Printf.Digits.{digit_val, value, AllDigits, digit_list-Numeral}
use rvcomp.Printf.{is_digit, digits, skip_atoi, digit_list, Flags}

-- Whether the first character of a text, if there is one, passes the test.
abbrev pub heads : (ℕ → Bool) → List ℕ → Bool
heads test [] = true
heads test (c ∷ s) = test c

pub value-grows : (ds : List ℕ) (i : ℕ) → i ≤ value 10 i ds
value-grows [] i = omega arith
value-grows (c ∷ ds) i = omega (arith, value-grows ds (i * 10 + digit_val c))

-- skip_atoi reads decimal digits as their number where 32 bits hold it, and leaves the text
-- behind them.
pub skip_atoi_lem :
    (ds rest : List ℕ) (i : ℕ)
    → AllDigits ds
    → heads (λ c. not (is_digit c)) rest ≡ true
    → value 10 i ds < 2 ^ 32
    → skip_atoi (ds ++ rest) i ≡ (value 10 i ds, rest)
unfolding skip_atoi
skip_atoi_lem [] [] i all stop lt = refl
skip_atoi_lem [] (c ∷ rest) i all stop lt =
    let e : is_digit c ≡ false = ground arith in rw (e, skip_atoi) refl
skip_atoi_lem (c ∷ ds) rest i (digit, all) stop lt =
    let next : u32 (i * 10 + c - b'0') ≡ i * 10 + digit_val c =
      ground (arith, value-grows ds (i * 10 + digit_val c)) in
    rw (digit, skip_atoi, next) (skip_atoi_lem ds rest (i * 10 + digit_val c) all stop lt)

-- skip_atoi reads back the digits that number prints for a 32-bit number, up to the first
-- character behind them that is no digit.
pub skip_atoi-digit_list :
    (n : ℕ) (rest : List ℕ)
    → n < 2 ^ 32
    → heads (λ c. not (is_digit c)) rest ≡ true
    → (ds : List ℕ) × (digit_list digits 10 n ≡ some ds) × (skip_atoi (ds ++ rest) 0 ≡ (n, rest))
skip_atoi-digit_list n rest lt stop =
    let (ds, e, numeral) = digit_list-Numeral false 10 n (omega arith) (omega arith) lt in
    (
      ds,
      e,
      skip_atoi_lem ds rest 0 (numeral.decimal (omega arith)) stop (rw numeral.spells lt)
          ∙ ap (λ (v : ℕ). (v, rest)) numeral.spells,
    )

-- A character that begins neither a width nor a precision.
abbrev pub clear : ℕ → Bool
clear c = not (is_digit c) && not (c == b'*') && not (c == b'.')

abbrev pub no_flag : ℕ → Bool
no_flag c =
    not (c == b'-') && not (c == b'+') && not (c == b' ') && not (c == b'#') && not (c == b'0')

set_flag-none : (c : ℕ) (flags : Flags) → no_flag c ≡ true → set_flag c flags ≡ none
unfolding set_flag
set_flag-none c flags h = ground arith

set_flag-mark : (m : Mark) (flags : Flags) → set_flag (mark_char m) flags ≡ some (put_mark m flags)
unfolding set_flag
set_flag-mark left_mark flags = refl
set_flag-mark plus_mark flags = refl
set_flag-mark space_mark flags = refl
set_flag-mark hex_mark flags = refl
set_flag-mark zero_mark flags = refl

pub parse_flags_lem :
    (ms : List Mark) (rest : List ℕ) (flags : Flags)
    → heads no_flag rest ≡ true
    → parse_flags (marks_text ms rest) flags ≡ (put_marks ms flags, rest)
unfolding parse_flags
parse_flags_lem [] [] flags h = refl
parse_flags_lem [] (c ∷ rest) flags h = rw (set_flag-none c flags h, parse_flags) refl
parse_flags_lem (m ∷ ms) rest flags h =
    rw (set_flag-mark m flags, parse_flags) (parse_flags_lem ms rest (put_mark m flags) h)

-- What stands behind the precision: the qualifier and the conversion.
unfoldable pub qualified : Bool → Kind → List ℕ → List ℕ
qualified long kind rest = long_text long (kind_char kind ∷ rest)

pub parse_qualifier_lem :
    (long : Bool) (kind : Kind) (rest : List ℕ)
    → parse_qualifier (qualified long kind rest) ≡ (long, kind_char kind ∷ rest)
unfolding parse_qualifier qualified
parse_qualifier_lem true kind rest = refl
parse_qualifier_lem false kind rest = ground arith

pub clear_head :
    (long : Bool) (kind : Kind) (rest : List ℕ)
    → (heads clear (qualified long kind rest) ≡ true)
      × (heads no_flag (qualified long kind rest) ≡ true)
unfolding qualified
clear_head long kind rest = ground arith
