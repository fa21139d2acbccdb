-- ===== src/Printf/Print.antt =====
-- prog/coremark/riscv/ee_printf.c: the conversions of ee_vsprintf, its loop, and ee_printf.
use mathlib.Core.Option
use rvcomp.Base.Int.{ℤ, pos, negsuc, word_of}
use rvcomp.Base.{
  ℕ, zero, suc, Bool, true, false, ◌||◌, Option, none, some, List, [], ◌∷◌, ◌++◌, ltb, ◌==◌,
  if◌then◌else◌, ◌>>=◌, length, take,
}
use rvcomp.Printf.{strnlen, Flags, number}
use rvcomp.Printf.Format.{
  Arg, va_word, va_text, va_octets, framed, framed_char, eaddr, iaddr, Directive, parse_directive,
}

-- The cases of the switch on the conversion: the characters, and the arguments that are left.
unfoldable pub put_char : Directive → List Arg → Option (List ℕ × List Arg)
put_char d args = do
  (w, args') ← va_word args
  some (framed_char d.flags.left d.field_width w, args')

-- The characters of `s` that are printed, those of `<NULL>` for a null pointer.
abbrev pub null_text : List ℕ
null_text = b'<' ∷ b'N' ∷ b'U' ∷ b'L' ∷ b'L' ∷ b'>' ∷ []

abbrev pub shown : ℤ → Option (List ℕ) → List ℕ
shown precision none = take (strnlen null_text (word_of precision)) null_text
shown precision (some s) = take (strnlen s (word_of precision)) s

unfoldable pub put_text : Directive → List Arg → Option (List ℕ × List Arg)
put_text d args = do
  (s, args') ← va_text args
  some (framed d.flags.left d.field_width (shown d.precision s), args')

unfoldable pub put_pointer : Directive → List Arg → Option (List ℕ × List Arg)
put_pointer d args = do
  (w, args') ← va_word args
  out ← elim d.field_width [
    | negsuc zero ↦ number w 16 (pos 8) d.precision (record d.flags { zeropad = true })
    | _ ↦ number w 16 d.field_width d.precision d.flags
  ]
  some (out, args')

unfoldable pub put_address : Bool → Directive → List Arg → Option (List ℕ × List Arg)
put_address upper d args = do
  let flags = if upper then record d.flags { uppercase = true } else d.flags
  (addr, args') ← va_octets args
  out ← if d.long then eaddr addr d.field_width flags else iaddr addr d.field_width flags
  some (out, args')

-- From the choice of `num` on. `long`, `int` and `unsigned` have one width, 32 bits.
unfoldable pub put_integer : ℕ → Flags → Directive → List Arg → Option (List ℕ × List Arg)
put_integer base flags d args = do
  (w, args') ← va_word args
  out ← number w base d.field_width d.precision flags
  some (out, args')

-- The switch on the conversion `c`.
unfoldable pub conversion : Directive → ℕ → List Arg → Option (List ℕ × List Arg)
conversion d c args =
    if c == b'c'
    then put_char d args
    else (if c == b's'
        then put_text d args
        else (if c == b'p'
            then put_pointer d args
            else (if c == b'A'
                then put_address true d args
                else (if c == b'a'
                    then put_address false d args
                    else (if c == b'o'
                        then put_integer 8 d.flags d args
                        else (if c == b'X'
                            then put_integer 16 (record d.flags { uppercase = true }) d args
                            else (if c == b'x'
                                then put_integer 16 d.flags d args
                                else (if c == b'd' || c == b'i'
                                    then put_integer 10 (record d.flags { sign = true }) d args
                                    else (if c == b'u'
                                        then put_integer 10 d.flags d args
                                        else some (
                                          if c == b'%' then c ∷ [] else b'%' ∷ c ∷ [],
                                          args,
                                        ))))))))))

-- The characters of the directive behind a `%`, and the text and the arguments behind it.
unfoldable pub directive : List ℕ → List Arg → Option (List ℕ × List ℕ × List Arg)
directive fmt args = do
  (d, fmt', args') ← parse_directive fmt args
  elim fmt' [
    | [] ↦ some (b'%' ∷ [], [], args')
    | c ∷ fmt'' ↦ do (out, args'') ← conversion d c args'; some (out, fmt'', args'')
  ]

-- The loop of `ee_vsprintf`, on fuel: each turn takes a character of `fmt`.
unfoldable pub format : ℕ → List ℕ → List Arg → Option (List ℕ)
format fuel [] args = some []
format zero (c ∷ fmt) args = none
format (suc fuel) (c ∷ fmt) args = elim (c == b'%') [
  | false ↦ Option.map (λ (out : List ℕ). c ∷ out) (format fuel fmt args)
  | true ↦ do
    (out, fmt', args') ← directive fmt args
    rest ← format fuel fmt' args'
    some (out ++ rest)
]

-- The characters before the terminating zero that it writes.
unfoldable pub ee_vsprintf : List ℕ → List Arg → Option (List ℕ)
ee_vsprintf fmt args = format (length fmt) fmt args

-- `while (*p)`: the characters that are sent, the ones before the first zero.
unfoldable pub before_zero : List ℕ → List ℕ
before_zero [] = []
before_zero (zero ∷ s) = []
before_zero (suc c ∷ s) = suc c ∷ before_zero s

-- `ee_printf`: the characters that it sends and their number. The code does not test the length: a
-- text that does not fit into `buf[1024]` with its terminating zero runs over it, which C leaves
-- undefined, and which is `none` here.
unfoldable pub ee_printf : List ℕ → List Arg → Option (List ℕ × ℕ)
ee_printf fmt args = do
  out ← ee_vsprintf fmt args
  if ltb (length out) 1024 then some (before_zero out, length (before_zero out)) else none
