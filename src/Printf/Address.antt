-- ===== src/Printf/Address.antt =====
-- eaddr and iaddr, and the padding that they share with the conversions `s` and `c`.
use rvcomp.Base.Int.{ℤ, pos, negsuc, to_nat}
use rvcomp.Base.{
  ℕ, zero, suc, ◌+◌, ◌-◌, ◌*◌, ◌/◌, ◌%◌, ◌≤◌, ◌<◌, ◌≡◌, refl, ap, inl, inr, Bool, true, false, some,
  List, [], ◌∷◌, ◌++◌, append-nil, arith, leb, ◌==◌, if◌then◌else◌, Bool-cases, length, get_or,
  replicate, length-append,
}
use rvcomp.Printf.{Flags, is_digit, digits}
use rvcomp.Printf.Format.{pad_past, framed, pad_char, framed_char, octet, joined, iaddr}
use rvcomp.Printf.Digits.{value, AllDigits, digit_val, digits-IsTable}

-- A text in a field of the given width, filled with spaces behind it or before it.
abbrev pub in_field : Bool → ℕ → List ℕ → List ℕ
in_field left width text =
    let fill = replicate (width - length text) b' ' in if left then text ++ fill else fill ++ text

spent_past : (len : ℕ) (size : ℤ) → to_nat (pad_past len size).1 - len ≡ 0
spent_past len (pos n) = ground arith
spent_past len (negsuc n) = ground arith

pub framed_lem :
    (left : Bool) (size : ℤ) (tmp : List ℕ) → framed left size tmp ≡ in_field left (to_nat size) tmp
unfolding framed
framed_lem true size tmp = refl
framed_lem false size tmp = simp (spent_past (length tmp) size, append-nil)

spent_char : (size : ℤ) → to_nat (pad_char size).1 - 1 ≡ 0
spent_char (pos n) = ground arith
spent_char (negsuc n) = ground arith

framed_char_lem :
    (left : Bool) (size : ℤ) (c : ℕ)
    → framed_char left size c ≡ in_field left (to_nat size) (c % 256 ∷ [])
unfolding framed_char
framed_char_lem true size c = refl
framed_char_lem false size c = simp (spent_char size)

-- The decimal digits of a byte.
pub record IsOctet (n : ℕ) (ds : List ℕ) : Type 0 where
  pub all : AllDigits ds
  pub spells : value 10 0 ds ≡ n
  pub some_digit : 1 ≤ length ds
  pub fits : length ds ≤ 3

digit_lem :
    (n : ℕ) → n < 10 → (digit_val (get_or digits n 0) ≡ n) × (is_digit (get_or digits n 0) ≡ true)
digit_lem n lt =
    let table = digits-IsTable false in (table.digit n (omega arith), table.decimal n lt)

one : (n : ℕ) → n < 10 → IsOctet n (get_or digits n 0 ∷ [])
one n lt =
    let (val, dec) = digit_lem n lt in
    record {
      all = (dec, tt);
      spells = omega (arith, val);
      some_digit = omega arith;
      fits = omega arith;
    }

two :
    (m n : ℕ) → m < 10 → n < 10 → IsOctet (m * 10 + n) (get_or digits m 0 ∷ get_or digits n 0 ∷ [])
two m n ltm lt =
    let (valm, decm) = digit_lem m ltm in
    let (val, dec) = digit_lem n lt in
    record {
      all = (decm, (dec, tt));
      spells = omega (arith, val, valm);
      some_digit = omega arith;
      fits = omega arith;
    }

three :
    (k m n : ℕ)
    → k < 10
    → m < 10
    → n < 10
    → IsOctet
        ((k * 10 + m) * 10 + n)
        (get_or digits k 0 ∷ get_or digits m 0 ∷ get_or digits n 0 ∷ [])
three k m n ltk ltm lt =
    let (valk, deck) = digit_lem k ltk in
    let (valm, decm) = digit_lem m ltm in
    let (val, dec) = digit_lem n lt in
    record {
      all = (deck, (decm, (dec, tt)));
      spells = omega (arith, val, valm, valk);
      some_digit = omega arith;
      fits = omega arith;
    }

octet-IsOctet : (n : ℕ) → n < 256 → IsOctet n (octet n)
unfolding octet
octet-IsOctet zero lt = one 0 (omega arith)
octet-IsOctet (suc n) lt =
    let some_n : (suc n == 0) ≡ false = ground arith in
    elim (Bool-cases (leb 100 (suc n))) [
      | inl big ↦
          let back : (suc n / 100 * 10 + suc n % 100 / 10) * 10 + suc n % 100 % 10 ≡ suc n =
            omega arith in
          rw (some_n, big)
            (rw back at (
              three (suc n / 100) (suc n % 100 / 10) (suc n % 100 % 10) (omega arith) (omega arith)
                (omega arith)))
      | inr small ↦ elim (Bool-cases (leb 10 (suc n))) [
        | inl mid ↦
            let back : suc n / 10 * 10 + suc n % 10 ≡ suc n = omega arith in
            rw (some_n, small, mid)
              (rw back at (two (suc n / 10) (suc n % 10) (ground arith) (omega arith)))
        | inr few ↦ rw (some_n, small, few) (one (suc n) (ground arith))
      ]
    ]

-- Four texts with points between them.
abbrev pub dotted : List ℕ → List ℕ → List ℕ → List ℕ → List ℕ
dotted ta tb tc td = ta ++ (b'.' ∷ (tb ++ (b'.' ∷ (tc ++ (b'.' ∷ td)))))

joined_lem :
    (a b c d : ℕ)
    → joined b'.' octet 4 4 (a ∷ b ∷ c ∷ d ∷ [])
      ≡ some (dotted (octet a) (octet b) (octet c) (octet d))
unfolding joined
joined_lem a b c d =
    ap (λ (last : List ℕ). some (dotted (octet a) (octet b) (octet c) last)) (append-nil (octet d))

-- iaddr writes the four bytes of an address in decimal, with points between them, in a field of
-- the given width. It writes at most 15 characters to `tmp`, which holds 24.
pub iaddr_lem :
    (a b c d : ℕ) (size : ℤ) (type : Flags)
    → a < 256
    → b < 256
    → c < 256
    → d < 256
    → (ta tb tc td : List ℕ) × IsOctet a ta
      × IsOctet b tb
      × IsOctet c tc
      × IsOctet d td
      × let text = dotted ta tb tc td in
        (iaddr (a ∷ b ∷ c ∷ d ∷ []) size type ≡ some (in_field type.left (to_nat size) text))
        × (length text ≤ 15)
unfolding iaddr
iaddr_lem a b c d size type la lb lc ld =
    let oa = octet-IsOctet a la in
    let ob = octet-IsOctet b lb in
    let oc = octet-IsOctet c lc in
    let od = octet-IsOctet d ld in
    let text = dotted (octet a) (octet b) (octet c) (octet d) in
    (
      octet a,
      octet b,
      octet c,
      octet d,
      oa,
      ob,
      oc,
      od,
      (
        rw (joined_lem a b c d) (ap some (framed_lem type.left size text)),
        omega (
          arith,
          oa.fits,
          ob.fits,
          oc.fits,
          od.fits,
          length-append (octet a) (b'.' ∷ (octet b ++ (b'.' ∷ (octet c ++ (b'.' ∷ octet d))))),
          length-append (octet b) (b'.' ∷ (octet c ++ (b'.' ∷ octet d))),
          length-append (octet c) (b'.' ∷ octet d),
        ),
      ),
    )
