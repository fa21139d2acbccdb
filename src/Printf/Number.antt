-- ===== src/Printf/Number.antt =====
-- number: which characters it writes, for every width, precision and set of flags.
use native.Mathlib.Decide.{dec_lt}
use rvcomp.Base.Int.{ℤ, pos, negsuc, to_nat, minus, below, to_nat-minus}
use rvcomp.Base.{
  ℕ, zero, suc, ◌+◌, ◌-◌, ◌^◌, ◌≤◌, ◌<◌, ◌≡◌, refl, ap, ◌∙◌, Bool, true, false, not, ◌&&◌, ◌||◌,
  some, List, [], ◌∷◌, ◌++◌, append-nil, arith, ltb, leb, ◌==◌, if◌then◌else◌, ltb-true, ltb-false,
  length, replicate, length-append, length-replicate,
}
use rvcomp.Printf.Digits.{Numeral, digit_list-Numeral}
use rvcomp.Printf.{
  Flags, pad, sign_of, put_sign, put_prefix, prefix_size, zeros, layout, number, arrange,
}

-- The sign that the flags ask for: of a negative number, of any number, or a space.
abbrev pub sign_text : ℕ → Flags → List ℕ
sign_text num type =
    if not type.sign
    then []
    else (if leb (2 ^ 31) num
        then b'-' ∷ []
        else (if type.plus then b'+' ∷ [] else (if type.space then b' ' ∷ [] else [])))

abbrev pub prefix_text : ℕ → Flags → List ℕ
prefix_text base type =
    if not type.hex_prep
    then []
    else (if base == 8 then b'0' ∷ [] else (if base == 16 then b'0' ∷ b'x' ∷ [] else []))

abbrev pub magnitude : ℕ → Flags → ℕ
magnitude num type = if type.sign && leb (2 ^ 31) num then 2 ^ 32 - num else num

-- A field at least `width` wide: `sign`, `prefix` and `body` with spaces behind them or before
-- them, or zeros before the body.
abbrev pub field : Flags → ℕ → List ℕ → List ℕ → List ℕ → List ℕ
field type width sign prefix body =
    let fill = width - (length sign + length prefix + length body) in
    if type.left
    then sign ++ prefix ++ body ++ replicate fill b' '
    else (if type.zeropad
        then sign ++ prefix ++ replicate fill b'0' ++ body
        else replicate fill b' ' ++ sign ++ prefix ++ body)

-- The digits with zeros before them up to the precision.
abbrev pub body_text : ℕ → List ℕ → List ℕ
body_text precision ds = replicate (precision - length ds) b'0' ++ ds

zeros_lem : (i p : ℕ) → zeros i p ≡ replicate (p - i) b'0'
unfolding zeros
zeros_lem i zero = let n : 0 - i ≡ 0 = omega arith in rw n refl
zeros_lem i (suc p) = elim (dec_lt i (suc p)) [
  | yes lt ↦
      let n : suc p - i ≡ suc (p - i) = omega arith in
      rw (ltb-true i (suc p) lt, zeros) (rw (zeros_lem i p, n) refl)
  | no ge ↦
      let n : suc p - i ≡ 0 = omega arith in
      rw (ltb-false i (suc p) (omega arith), zeros) (rw n refl)
]

-- After a padding loop the next one writes nothing.
spent : (c : ℕ) (size : ℤ) → to_nat (pad c size).1 ≡ 0
spent c (pos zero) = refl
spent c (pos (suc n)) = ground arith
spent c (negsuc n) = refl

spent_twice : (c : ℕ) (size : ℤ) → to_nat (minus (pad c size).1 1) ≡ 0
spent_twice c size = omega (arith, to_nat-minus (pad c size).1 1, spent c size)

sign_lem :
    (num : ℕ) (size : ℤ) (type : Flags)
    → num < 2 ^ 32
    → let (sign, mag, size') = sign_of num size type in
      (put_sign sign ≡ sign_text num type)
      × (mag ≡ magnitude num type)
      × (to_nat size' ≡ to_nat size - length (sign_text num type))
unfolding sign_of
sign_lem num size type lt = ground (arith, to_nat-minus size 1)

prefix_lem :
    (base : ℕ) (size : ℤ) (type : Flags)
    → (put_prefix base type ≡ prefix_text base type)
      × (to_nat (prefix_size base size type) ≡ to_nat size - length (prefix_text base type))
unfolding put_prefix prefix_size
prefix_lem base size type = ground (arith, to_nat-minus size 1, to_nat-minus size 2)

length-body_text :
    (precision : ℕ) (ds : List ℕ)
    → length (body_text precision ds) ≡ (precision - length ds) + length ds
length-body_text precision ds = omega (
  arith,
  length-append (replicate (precision - length ds) b'0') ds,
  length-replicate {A = ℕ} (precision - length ds) b'0',
)

-- The larger of the precision and the number of digits.
larger : ℕ → ℤ → ℕ
larger i precision = if below i precision then to_nat precision else i

larger_lem :
    (i : ℕ) (precision : ℤ)
    → (larger i precision ≡ (to_nat precision - i) + i)
      × (larger i precision - i ≡ to_nat precision - i)
unfolding larger
larger_lem i precision = ground arith

-- The padding loops together fill what is left of the width once.
arrange_lem :
    (zeropad left : Bool) (size : ℤ) (sign prefix body : List ℕ)
    → arrange (zeropad && not left) left size sign prefix body ≡ (
        let fill = to_nat size in
        if left
        then sign ++ prefix ++ body ++ replicate fill b' '
        else (if zeropad
            then sign ++ prefix ++ replicate fill b'0' ++ body
            else replicate fill b' ' ++ sign ++ prefix ++ body))
unfolding arrange
arrange_lem true true size sign prefix body = simp (append-nil)
arrange_lem false true size sign prefix body = simp (append-nil)
arrange_lem true false size sign prefix body = simp (spent b'0' size, append-nil)
arrange_lem false false size sign prefix body =
    simp (spent b' ' size, spent_twice b' ' size, append-nil)

-- With the digits collected, the characters are a field.
layout_lem :
    (base sign : ℕ) (size precision : ℤ) (type : Flags) (signs prefix tmp : List ℕ) (width : ℕ)
    → put_sign sign ≡ signs
    → put_prefix base type ≡ prefix
    → to_nat size ≡ width - length signs - length prefix
    → layout base sign (type.zeropad && not type.left) size precision type tmp
      ≡ field type width signs prefix (body_text (to_nat precision) tmp)
unfolding layout larger
layout_lem base sign size precision type signs prefix tmp width es ep ew =
    let i : ℕ = length tmp in
    let p : ℕ = larger i precision in
    let rest : to_nat (minus size p)
        ≡ width - (length signs + length prefix + length (body_text (to_nat precision) tmp)) =
      omega (
        arith,
        to_nat-minus size p,
        ew,
        (larger_lem i precision).0,
        length-body_text (to_nat precision) tmp,
      ) in
    let inner : zeros i p ++ tmp ≡ body_text (to_nat precision) tmp =
      ap (λ (l : List ℕ). l ++ tmp)
        (zeros_lem i p ∙ ap (λ (n : ℕ). replicate n b'0') (larger_lem i precision).1) in
    rw (es, ep, inner)
      (arrange_lem type.zeropad type.left (minus size p) signs prefix
          (body_text (to_nat precision) tmp)
        ∙ ap
            (λ (fill : ℕ).
              if type.left
              then signs ++ prefix ++ body_text (to_nat precision) tmp ++ replicate fill b' '
              else (if type.zeropad
                  then signs ++ prefix ++ replicate fill b'0' ++ body_text (to_nat precision) tmp
                  else replicate fill b' ' ++ signs ++ prefix ++ body_text (to_nat precision) tmp))
            rest)

-- For a base from 2 to 36 number writes a field of the given width: the sign that the flags ask
-- for, their prefix, and the digits of the magnitude with zeros up to the precision. The digits
-- spell the magnitude in the base, without a leading zero but for 0 itself, and never more than
-- 32 of them, which the buffer of 66 holds.
pub number_lem :
    (num base : ℕ) (size precision : ℤ) (type : Flags)
    → num < 2 ^ 32
    → 2 ≤ base
    → base ≤ 36
    → (ds : List ℕ) × (number num base size precision type
        ≡ some (
            field type
              (to_nat size)
              (sign_text num type)
              (prefix_text base type)
              (body_text (to_nat precision) ds)))
      × Numeral base (magnitude num type) ds
unfolding number
number_lem num base size precision type lt two small =
    let size1 : ℤ = (sign_of num size type).2 in
    let (signs, mag_is, size1_is) = sign_lem num size type lt in
    let (prefix, size2_is) = prefix_lem base size1 type in
    let (ds, e, numeral) =
      digit_list-Numeral type.uppercase base (magnitude num type) two small (ground (arith, lt)) in
    let legal : (ltb base 2 || ltb 36 base) ≡ false = ground arith in
    (
      ds,
      rw (legal, mag_is, e)
          (ap some (
            layout_lem base (sign_of num size type).0 (prefix_size base size1 type) precision type
              (sign_text num type) (prefix_text base type) ds (to_nat size) signs prefix
              (size2_is ∙ ap (λ (n : ℕ). n - length (prefix_text base type)) size1_is))),
      numeral,
    )
