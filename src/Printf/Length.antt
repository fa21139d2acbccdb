-- ===== src/Printf/Length.antt =====
-- The loop of ee_vsprintf: each directive takes some of the text, so that the fuel is enough.
use mathlib.Core.Option
use rvcomp.Base.Int.{ℤ}
use rvcomp.Base.{
  ℕ, ◌+◌, ◌-◌, ◌*◌, ◌≤◌, inl, inr, Option, none, some, List, [], ◌∷◌, arith, ◌==◌, Bool-cases,
  Option-cases, ◌>>=◌, length, u32,
}
use rvcomp.Printf.Print.{conversion, directive}
use rvcomp.Printf.{Flags, is_digit, skip_atoi}
use rvcomp.Printf.Format.{
  Arg, va_word, set_flag, parse_flags, parse_width, parse_qualifier, Directive, no_flags,
  point_precision, parse_precision, parse_directive,
}

skip_atoi-length : (s : List ℕ) (i : ℕ) → length (skip_atoi s i).1 ≤ length s
unfolding skip_atoi
skip_atoi-length [] i = omega arith
skip_atoi-length (c ∷ s) i = elim (Bool-cases (is_digit c)) [
  | inl e ↦ rw (e, length) (omega (arith, skip_atoi-length s (u32 (i * 10 + c - b'0'))))
  | inr e ↦ rw (e, length) (omega arith)
]

parse_flags-length : (fmt : List ℕ) (flags : Flags) → length (parse_flags fmt flags).1 ≤ length fmt
unfolding parse_flags
parse_flags-length [] flags = omega arith
parse_flags-length (c ∷ fmt) flags = elim (Option-cases (set_flag c flags)) [
  | inl e ↦ rw (e, length) (omega arith)
  | inr (flags', e) ↦ rw (e, length) (omega (arith, parse_flags-length fmt flags'))
]

parse_qualifier-length : (fmt : List ℕ) → length (parse_qualifier fmt).1 ≤ length fmt
unfolding parse_qualifier
parse_qualifier-length [] = omega arith
parse_qualifier-length (c ∷ fmt) = ground arith

-- What a step that may fail promises of its result.
abbrev pub Always {ℓ} : {A : Type ℓ} → (A → Type 0) → Option A → Type 0
Always P none = Unit {0}
Always P (some a) = P a

Always-weaken {ℓ} :
    {A : Type ℓ} (P Q : A → Type 0) (o : Option A) → Always P o → ((a : A) → P a → Q a) → Always Q o
Always-weaken P Q none h k = tt
Always-weaken P Q (some a) h k = k a h

Always-anything {ℓ} : {A : Type ℓ} (o : Option A) → Always (λ (_ : A). Unit {0}) o
Always-anything none = tt
Always-anything (some a) = tt

Always-map {ℓ κ} :
    {A : Type ℓ} {B : Type κ} {f : A → B} (P : B → Type 0) (o : Option A)
    → ((a : A) → P (f a))
    → Always P (Option.map f o)
Always-map P none h = tt
Always-map P (some a) h = h a

pub Always-bind {ℓ κ} :
    {A : Type ℓ} {B : Type κ} (f : A → Option B) (P : A → Type 0) (Q : B → Type 0) (o : Option A)
    → Always P o
    → ((a : A) → P a → Always Q (f a))
    → Always Q (o >>= f)
Always-bind f P Q none h k = tt
Always-bind f P Q (some a) h k = k a h

parse_width-length :
    (fmt : List ℕ) (args : List Arg) (flags : Flags)
    → Always
        (λ ((width, flags', rest, args') : ℤ × Flags × List ℕ × List Arg). length rest ≤ length fmt)
        (parse_width fmt args flags)
unfolding parse_width
parse_width-length [] args flags = omega arith
parse_width-length (c ∷ fmt) args flags = elim (Bool-cases (is_digit c)) [
  | inl e ↦ rw e (skip_atoi-length (c ∷ fmt) 0)
  | inr e ↦ rw e (elim (Bool-cases (c == b'*')) [
    | inl star ↦ rw star (Always-map _ (va_word args) (λ _. omega arith))
    | inr other ↦ rw other (omega arith)
  ])
]

abbrev Behind : List ℕ → ℤ × List ℕ × List Arg → Type 0
Behind fmt (precision, rest, args) = length rest ≤ length fmt

point_precision-length :
    (fmt : List ℕ) (args : List Arg) → Always (Behind fmt) (point_precision fmt args)
unfolding point_precision
point_precision-length [] args = omega arith
point_precision-length (c ∷ fmt) args = elim (Bool-cases (is_digit c)) [
  | inl e ↦ rw e (skip_atoi-length (c ∷ fmt) 0)
  | inr e ↦ rw e (elim (Bool-cases (c == b'*')) [
    | inl star ↦ rw star (Always-map (Behind (c ∷ fmt)) (va_word args) (λ _. omega arith))
    | inr other ↦ rw other (omega arith)
  ])
]

parse_precision-length :
    (fmt : List ℕ) (args : List Arg) → Always (Behind fmt) (parse_precision fmt args)
unfolding parse_precision
parse_precision-length [] args = omega arith
parse_precision-length (c ∷ fmt) args = elim (Bool-cases (c == b'.')) [
  | inl e ↦ rw e (
      Always-weaken (Behind fmt) (Behind (c ∷ fmt)) (point_precision fmt args)
        (point_precision-length fmt args) (λ _ le. omega (arith, le)))
  | inr e ↦ rw e (omega arith)
]

abbrev Parsed : List ℕ → Directive × List ℕ × List Arg → Type 0
Parsed fmt (d, rest, args) = length rest ≤ length fmt

parse_directive-length :
    (fmt : List ℕ) (args : List Arg) → Always (Parsed fmt) (parse_directive fmt args)
unfolding parse_directive
parse_directive-length fmt args =
    let le1 : length (parse_flags fmt no_flags).1 ≤ length fmt = parse_flags-length fmt no_flags in
    Always-bind _ _ (Parsed fmt)
      (parse_width (parse_flags fmt no_flags).1 args (parse_flags fmt no_flags).0)
      (parse_width-length (parse_flags fmt no_flags).1 args (parse_flags fmt no_flags).0)
      (λ (width, flags', fmt2, args1) le2.
        Always-bind _ (Behind fmt2) (Parsed fmt) (parse_precision fmt2 args1)
          (parse_precision-length fmt2 args1)
          (λ (precision, fmt3, args2) le3.
            omega (arith, parse_qualifier-length fmt3, le1, le2, le3)))

abbrev pub Taken : List ℕ → List ℕ × List ℕ × List Arg → Type 0
Taken fmt (out, rest, args) = length rest ≤ length fmt

pub directive-length : (fmt : List ℕ) (args : List Arg) → Always (Taken fmt) (directive fmt args)
unfolding directive
directive-length fmt args =
    Always-bind _ (Parsed fmt) (Taken fmt) (parse_directive fmt args)
      (parse_directive-length fmt args) (λ (d, fmt', args') le. after d fmt' args' le)
  where
    after :
        (d : Directive) (fmt' : List ℕ) (args' : List Arg)
        → length fmt' ≤ length fmt
        → Always (Taken fmt) (elim fmt' [
          | [] ↦ some (b'%' ∷ [], [], args')
          | c ∷ fmt'' ↦ do (out, args'') ← conversion d c args'; some (out, fmt'', args'')
        ])
    after d [] args' le = omega arith
    after d (c ∷ fmt'') args' le =
        Always-bind _ (λ _. Unit {0}) (Taken fmt) (conversion d c args')
          (Always-anything (conversion d c args')) (λ _ _. omega (arith, le))
