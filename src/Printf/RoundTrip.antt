-- ===== src/Printf/RoundTrip.antt =====
-- ee_vsprintf on the text of a format: each directive is read as what it was written for.
use mathlib.Core.Option
use rvcomp.Base.Int.{pos, int_of}
use rvcomp.Base.{
  ℕ, ◌^◌, ◌<◌, ◌≡◌, refl, ap, ◌∙◌, ◌≢◌, inl, inr, Bool, true, false, not, ◌&&◌, Option, none, some,
  List, [], ◌∷◌, ◌++◌, arith, ◌==◌, Option-cases, ◌>>=◌, get_or,
}
use rvcomp.Printf.Print.{conversion, directive, ee_vsprintf, format}
use rvcomp.Printf.Loop.{ee_vsprintf-literal, ee_vsprintf-directive, ee_vsprintf-none}
use rvcomp.Printf.Spec.{
  point_text, width_of, precision_of, IsInt, IsPoint, put_marks, kind_char, Spec, spec_text,
  directive_of, IsSpec, Item, AllItems, items_text, interpret, literal, convert,
}
use rvcomp.Printf.Parse.{
  skip_atoi_lem, no_flag, clear, heads, parse_flags_lem, qualified, parse_qualifier_lem, clear_head,
}
use rvcomp.Printf.Digits.{value}
use rvcomp.Printf.{Flags, is_digit, skip_atoi}
use rvcomp.Printf.Format.{
  Arg, parse_width, point_precision, parse_precision, no_flags, parse_directive,
}

int_of_lem : (n : ℕ) → n < 2 ^ 31 → int_of n ≡ pos n
int_of_lem n lt = ground arith

not_clear :
    (c : ℕ) → clear c ≡ true → (is_digit c ≡ false) × ((c == b'*') ≡ false) × ((c == b'.') ≡ false)
not_clear c h = ground arith

-- A text that no number goes on in, and no `*`.
abbrev ends : ℕ → Bool
ends c = not (is_digit c) && not (c == b'*')

no_digit : (rest : List ℕ) → heads ends rest ≡ true → heads (λ c. not (is_digit c)) rest ≡ true
no_digit [] h = refl
no_digit (c ∷ rest) h = ground arith

clear-ends : (rest : List ℕ) → heads clear rest ≡ true → heads ends rest ≡ true
clear-ends [] h = refl
clear-ends (c ∷ rest) h = ground arith

-- skip_atoi on the digits of an `int`.
number_read :
    (d : ℕ) (ds rest : List ℕ)
    → IsInt (d ∷ ds)
    → heads ends rest ≡ true
    → skip_atoi (d ∷ ds ++ rest) 0 ≡ (value 10 0 (d ∷ ds), rest)
number_read d ds rest ok h =
    skip_atoi_lem (d ∷ ds) rest 0 ok.all (no_digit rest h) (omega (arith, ok.small))

parse_width_lem :
    (ds rest : List ℕ) (args : List Arg) (flags : Flags)
    → IsInt ds
    → heads ends rest ≡ true
    → parse_width (ds ++ rest) args flags ≡ some (width_of ds, flags, rest, args)
unfolding parse_width
parse_width_lem [] [] args flags ok h = refl
parse_width_lem [] (c ∷ rest) args flags ok h =
    let digit : is_digit c ≡ false = ground arith in
    let star : (c == b'*') ≡ false = ground arith in rw (digit, star) refl
parse_width_lem (d ∷ ds) rest args flags ok h =
    rw (ok.all.0, number_read d ds rest ok h, int_of_lem (value 10 0 (d ∷ ds)) ok.small) refl

point_precision_lem :
    (ds rest : List ℕ) (args : List Arg)
    → IsInt ds
    → heads ends rest ≡ true
    → point_precision (ds ++ rest) args ≡ some (pos (value 10 0 ds), rest, args)
unfolding point_precision
point_precision_lem [] [] args ok h = refl
point_precision_lem [] (c ∷ rest) args ok h =
    let digit : is_digit c ≡ false = ground arith in
    let star : (c == b'*') ≡ false = ground arith in rw (digit, star) refl
point_precision_lem (d ∷ ds) rest args ok h =
    rw (ok.all.0, number_read d ds rest ok h, int_of_lem (value 10 0 (d ∷ ds)) ok.small) refl

parse_precision_lem :
    (point : Option (List ℕ)) (rest : List ℕ) (args : List Arg)
    → IsPoint point
    → heads clear rest ≡ true
    → parse_precision (point_text point rest) args ≡ some (precision_of point, rest, args)
unfolding parse_precision
parse_precision_lem none [] args ok h = refl
parse_precision_lem none (c ∷ rest) args ok h =
    let point : (c == b'.') ≡ false = ground arith in rw point refl
parse_precision_lem (some ds) rest args ok h =
    point_precision_lem ds rest args ok (clear-ends rest h)

-- No number and no flag goes on behind a width.
point_heads :
    (point : Option (List ℕ)) (rest : List ℕ)
    → heads clear rest ≡ true
    → heads no_flag rest ≡ true
    → (heads ends (point_text point rest) ≡ true) × (heads no_flag (point_text point rest) ≡ true)
point_heads none rest h hf = (clear-ends rest h, hf)
point_heads (some ds) rest h hf = (refl, refl)

width_heads :
    (ds rest : List ℕ)
    → IsInt ds
    → get_or ds 0 1 ≢ b'0'
    → heads no_flag rest ≡ true
    → heads no_flag (ds ++ rest) ≡ true
width_heads [] rest ok no_zero h = h
width_heads (d ∷ ds) rest ok no_zero h = let digit = ok.all.0 in ground arith

-- The parser reads a directive's text back as the directive, whatever the text and the arguments
-- behind it, and leaves the conversion's letter and that text. The width does not begin with a zero,
-- and the width and a precision are numbers below 2^31.
pub parse_directive_lem :
    (s : Spec) (rest : List ℕ) (args : List Arg)
    → IsSpec s
    → parse_directive (spec_text s rest) args ≡ some (directive_of s, kind_char s.kind ∷ rest, args)
unfolding parse_directive qualified
parse_directive_lem s rest args ok =
    let behind : List ℕ = qualified s.long s.kind rest in
    let (is_clear, unmarked) = clear_head s.long s.kind rest in
    let (ends, point_unmarked) = point_heads s.point behind is_clear unmarked in
    let start =
      width_heads s.width (point_text s.point behind) ok.width ok.no_zero point_unmarked in
    rw
      (
        parse_flags_lem s.marks (s.width ++ point_text s.point behind) no_flags start,
        parse_width_lem s.width (point_text s.point behind) args (put_marks s.marks no_flags)
            ok.width ends,
        parse_precision_lem s.point behind args ok.point is_clear,
        parse_qualifier_lem s.long s.kind rest,
      )
      refl

directive_lem :
    (s : Spec) (rest : List ℕ) (args : List Arg)
    → IsSpec s
    → directive (spec_text s rest) args ≡ (do
      (out, args') ← conversion (directive_of s) (kind_char s.kind) args
      some (out, rest, args'))
unfolding directive
directive_lem s rest args ok = rw (parse_directive_lem s rest args ok) refl

-- ee_vsprintf prints a format of literals and directives as they stand: each literal as itself,
-- each directive as its conversion of the arguments that those before it leave, and it fails where
-- one of them does. A literal is not `%`; a width does not begin with `0`, and widths and
-- precisions are below 2 ^ 31.
pub ee_vsprintf-items :
    (is : List Item) (args : List Arg)
    → AllItems is
    → ee_vsprintf (items_text is) args ≡ interpret is args
unfolding ee_vsprintf format
ee_vsprintf-items [] args ok = refl
ee_vsprintf-items (literal c ∷ is) args (ok, all) =
    ee_vsprintf-literal c (items_text is) args ok
    ∙ ap (Option.map (λ (out : List ℕ). c ∷ out)) (ee_vsprintf-items is args all)
ee_vsprintf-items (convert s ∷ is) args (ok, all) =
    elim (Option-cases (conversion (directive_of s) (kind_char s.kind) args)) [
      | inl e ↦ rw e (
          ee_vsprintf-none (spec_text s (items_text is)) args
            (directive_lem s (items_text is) args ok ∙ rw e refl))
      | inr ((out, args'), e) ↦ rw e (
          ee_vsprintf-directive (spec_text s (items_text is)) args out (items_text is) args'
            (directive_lem s (items_text is) args ok ∙ rw e refl)
          ∙ ap (Option.map (λ (rest : List ℕ). out ++ rest)) (ee_vsprintf-items is args' all))
    ]
