-- ===== src/Printf/Conversion.antt =====
-- The conversions of strings and of integers: a field with the string or with the number.
use mathlib.Core.Option
use rvcomp.Base.Int.{ℤ, to_nat, word_of}
use rvcomp.Base.{
  ℕ, zero, suc, ◌-◌, ◌^◌, ◌<◌, ◌≡◌, refl, ap, ◌∙◌, true, Option, none, some, List, [], ◌∷◌, arith,
  leb, if◌then◌else◌, take,
}
use rvcomp.Printf.Print.{null_text, shown, put_text, put_integer, conversion}
use rvcomp.Printf.Number.{sign_text, field, body_text, number_lem, prefix_text}
use rvcomp.Printf.Address.{in_field, framed_lem}
use rvcomp.Printf.Digits.{Numeral}
use rvcomp.Printf.{strnlen, Flags}
use rvcomp.Printf.Format.{Arg, word, text, octets, va_text, Directive}

take-strnlen : (s : List ℕ) (n : ℕ) → take (strnlen s n) s ≡ take n s
unfolding strnlen
take-strnlen [] zero = refl
take-strnlen [] (suc n) = refl
take-strnlen (c ∷ s) zero = refl
take-strnlen (c ∷ s) (suc n) = ap (λ (t : List ℕ). c ∷ t) (take-strnlen s n)

-- The text of a string argument.
abbrev pub text_of : Option (List ℕ) → List ℕ
text_of none = null_text
text_of (some s) = s

shown_lem :
    (precision : ℤ) (s : Option (List ℕ)) → shown precision s ≡ take (word_of precision) (text_of s)
shown_lem precision none = take-strnlen null_text (word_of precision)
shown_lem precision (some s) = take-strnlen s (word_of precision)

-- The conversion `s` prints its string, cut to the precision read as an unsigned word, in a field
-- of the given width; a null pointer prints as `<NULL>`. Any other argument, or none, fails.
pub conversion-text :
    (d : Directive) (args : List Arg)
    → conversion d b's' args
      ≡ Option.map
          (λ ((s, left) : Option (List ℕ) × List Arg). (
            in_field d.flags.left (to_nat d.field_width) (take (word_of d.precision) (text_of s)),
            left,
          ))
          (va_text args)
unfolding conversion put_text
conversion-text d [] = refl
conversion-text d (word w ∷ args) = refl
conversion-text d (octets addr ∷ args) = refl
conversion-text d (text s ∷ args) =
    ap (λ (out : List ℕ). some (out, args))
      (framed_lem d.flags.left d.field_width (shown d.precision s)
        ∙ ap (in_field d.flags.left (to_nat d.field_width)) (shown_lem d.precision s))

decimal_prefix : (flags : Flags) → prefix_text 10 flags ≡ []
decimal_prefix flags = ground arith

-- The conversions `d` and `i` of a 32-bit word print it as a signed number: in a field of the
-- given width, a minus sign or what the flags ask for, then the decimal digits of its absolute
-- value with zeros up to the precision, without a leading zero but for 0 itself.
pub conversion-signed :
    (d : Directive) (w : ℕ) (args : List Arg)
    → w < 2 ^ 32
    → let flags = record d.flags { sign = true } in
      (ds : List ℕ) × Numeral 10 (if leb (2 ^ 31) w then 2 ^ 32 - w else w) ds
      × (conversion d b'd' (word w ∷ args)
          ≡ some (
            field flags
                (to_nat d.field_width)
                (sign_text w flags)
                []
                (body_text (to_nat d.precision) ds),
            args,
          ))
      × (conversion d b'i' (word w ∷ args) ≡ conversion d b'd' (word w ∷ args))
unfolding conversion put_integer
conversion-signed d w args lt =
    let flags = record d.flags { sign = true } in
    let (ds, e, numeral) =
      number_lem w 10 d.field_width d.precision flags lt (omega arith) (omega arith) in
    (ds, numeral, rw (e, decimal_prefix flags) refl, refl)
