-- ===== src/Printf/Spec.antt =====
-- Formats as lists of literals and directives, with the text that each is written as, and what
-- ee_vsprintf is to print for them.
use mathlib.Core.Option
use rvcomp.Base.Int.{ℤ, pos, negsuc}
use rvcomp.Base.{
  ℕ, ◌^◌, ◌<◌, ◌≢◌, Bool, true, false, Option, none, some, List, [], ◌∷◌, ◌++◌, ◌>>=◌, get_or,
}
use rvcomp.Printf.Print.{conversion}
use rvcomp.Printf.Digits.{value, AllDigits}
use rvcomp.Printf.{Flags}
use rvcomp.Printf.Format.{Arg, Directive, no_flags}

pub data Mark : Type 0 where
  left_mark : Mark
  plus_mark : Mark
  space_mark : Mark
  hex_mark : Mark
  zero_mark : Mark

abbrev pub mark_char : Mark → ℕ
mark_char left_mark = b'-'
mark_char plus_mark = b'+'
mark_char space_mark = b' '
mark_char hex_mark = b'#'
mark_char zero_mark = b'0'

abbrev pub put_mark : Mark → Flags → Flags
put_mark left_mark flags = record flags { left = true }
put_mark plus_mark flags = record flags { plus = true }
put_mark space_mark flags = record flags { space = true }
put_mark hex_mark flags = record flags { hex_prep = true }
put_mark zero_mark flags = record flags { zeropad = true }

abbrev pub put_marks : List Mark → Flags → Flags
put_marks [] flags = flags
put_marks (m ∷ ms) flags = put_marks ms (put_mark m flags)

pub data Kind : Type 0 where
  char_kind : Kind
  text_kind : Kind
  pointer_kind : Kind
  upper_address : Kind
  address : Kind
  octal : Kind
  upper_hex : Kind
  hex : Kind
  signed : Kind
  signed_i : Kind
  unsigned : Kind
  percent : Kind

abbrev pub kind_char : Kind → ℕ
kind_char char_kind = b'c'
kind_char text_kind = b's'
kind_char pointer_kind = b'p'
kind_char upper_address = b'A'
kind_char address = b'a'
kind_char octal = b'o'
kind_char upper_hex = b'X'
kind_char hex = b'x'
kind_char signed = b'd'
kind_char signed_i = b'i'
kind_char unsigned = b'u'
kind_char percent = b'%'

-- A directive: its flags in order, the digits of its width (none without a width), what stands
-- behind a point, if there is one, whether there is an `l`, and the conversion.
pub record Spec : Type 0 where
  pub marks : List Mark
  pub width : List ℕ
  pub point : Option (List ℕ)
  pub long : Bool
  pub kind : Kind

abbrev pub marks_text : List Mark → List ℕ → List ℕ
marks_text [] rest = rest
marks_text (m ∷ ms) rest = mark_char m ∷ marks_text ms rest

abbrev pub point_text : Option (List ℕ) → List ℕ → List ℕ
point_text none rest = rest
point_text (some ds) rest = b'.' ∷ ds ++ rest

abbrev pub long_text : Bool → List ℕ → List ℕ
long_text true rest = b'l' ∷ rest
long_text false rest = rest

-- A directive without its `%`, and the text behind it.
abbrev pub spec_text : Spec → List ℕ → List ℕ
spec_text s rest =
    marks_text s.marks (s.width ++ point_text s.point (long_text s.long (kind_char s.kind ∷ rest)))

abbrev pub width_of : List ℕ → ℤ
width_of [] = negsuc 0
width_of (d ∷ ds) = pos (value 10 0 (d ∷ ds))

abbrev pub precision_of : Option (List ℕ) → ℤ
precision_of none = negsuc 0
precision_of (some ds) = pos (value 10 0 ds)

abbrev pub directive_of : Spec → Directive
directive_of s = record {
  flags = put_marks s.marks no_flags;
  field_width = width_of s.width;
  precision = precision_of s.point;
  long = s.long;
}

-- A number that an `int` holds, in decimal digits.
pub record IsInt (ds : List ℕ) : Type 0 where
  pub all : AllDigits ds
  pub small : value 10 0 ds < 2 ^ 31

abbrev pub IsPoint : Option (List ℕ) → Type 0
IsPoint none = Unit {0}
IsPoint (some ds) = IsInt ds

-- Widths and precisions are numbers, and a width does not begin with the flag `0`.
pub record IsSpec (s : Spec) : Type 0 where
  pub width : IsInt s.width
  pub no_zero : get_or s.width 0 1 ≢ b'0'
  pub point : IsPoint s.point

pub data Item : Type 0 where
  literal : ℕ → Item
  convert : Spec → Item

abbrev pub IsItem : Item → Type 0
IsItem (literal c) = c ≢ b'%'
IsItem (convert s) = IsSpec s

abbrev pub AllItems : List Item → Type 0
AllItems [] = Unit {0}
AllItems (i ∷ is) = IsItem i × AllItems is

abbrev pub items_text : List Item → List ℕ
items_text [] = []
items_text (literal c ∷ is) = c ∷ items_text is
items_text (convert s ∷ is) = b'%' ∷ spec_text s (items_text is)

-- What is to be printed: literals as they are, and each directive as its conversion.
abbrev pub interpret : List Item → List Arg → Option (List ℕ)
interpret [] args = some []
interpret (literal c ∷ is) args = Option.map (λ (out : List ℕ). c ∷ out) (interpret is args)
interpret (convert s ∷ is) args = do
  (out, args') ← conversion (directive_of s) (kind_char s.kind) args
  Option.map (λ (rest : List ℕ). out ++ rest) (interpret is args')
