-- ===== src/Printf/Loop.antt =====
-- The loop of ee_vsprintf on literal text and on directives, whatever the fuel.
use mathlib.Core.Option
use rvcomp.Base.{
  ℕ, zero, suc, ◌≤◌, ◌≡◌, refl, ap, ◌≢◌, inl, inr, false, Option, none, some, List, [], ◌∷◌, ◌++◌,
  arith, ◌==◌, Bool-cases, ◌>>=◌, length,
}
use rvcomp.Printf.Print.{directive, format, ee_vsprintf}
use rvcomp.Printf.Length.{Always, Taken, directive-length}
use rvcomp.Printf.Format.{Arg}

-- The rest of a turn of the loop, whose recursive calls agree on shorter texts.
after :
    (f g : List ℕ → List Arg → Option (List ℕ)) (fmt : List ℕ)
    (o : Option (List ℕ × List ℕ × List Arg))
    → Always (Taken fmt) o
    → ((rest : List ℕ) (args : List Arg) → length rest ≤ length fmt → f rest args ≡ g rest args)
    → (do (out, fmt', args') ← o; rest ← f fmt' args'; some (out ++ rest))
      ≡ (do (out, fmt', args') ← o; rest ← g fmt' args'; some (out ++ rest))
after f g fmt none le h = refl
after f g fmt (some (out, fmt', args')) le h =
    ap (λ (o : Option (List ℕ)). do rest ← o; some (out ++ rest)) (h fmt' args' le)

same :
    (n m : ℕ) (fmt : List ℕ) (args : List Arg)
    → length fmt ≤ n
    → length fmt ≤ m
    → format n fmt args ≡ format m fmt args
unfolding format
same n m [] args hn hm = refl
same zero m (c ∷ fmt) args hn hm = absurd (omega arith)
same (suc n) zero (c ∷ fmt) args hn hm = absurd (omega arith)
same (suc n) (suc m) (c ∷ fmt) args hn hm = elim (Bool-cases (c == b'%')) [
  | inl e ↦
      rw (e, format)
        (after (format n) (format m) fmt (directive fmt args) (directive-length fmt args)
          (λ rest left le. same n m rest left (omega arith) (omega arith)))
  | inr e ↦
      rw (e, format)
        (ap (Option.map (λ (out : List ℕ). c ∷ out))
          (same n m fmt args (omega arith) (omega arith)))
]

pub ee_vsprintf-literal :
    (c : ℕ) (fmt : List ℕ) (args : List Arg)
    → c ≢ b'%'
    → ee_vsprintf (c ∷ fmt) args ≡ Option.map (λ (out : List ℕ). c ∷ out) (ee_vsprintf fmt args)
unfolding ee_vsprintf format
ee_vsprintf-literal c fmt args h = let e : (c == b'%') ≡ false = ground arith in rw (e, format) refl

bind-map {ℓ κ} :
    {A : Type ℓ} {B : Type κ} (f : A → B) (o : Option A) → (do a ← o; some (f a)) ≡ Option.map f o
bind-map f none = refl
bind-map f (some a) = refl

pub ee_vsprintf-directive :
    (fmt : List ℕ) (args : List Arg) (out rest : List ℕ) (left : List Arg)
    → directive fmt args ≡ some (out, rest, left)
    → ee_vsprintf (b'%' ∷ fmt) args
      ≡ Option.map (λ (tail : List ℕ). out ++ tail) (ee_vsprintf rest left)
unfolding ee_vsprintf format
ee_vsprintf-directive fmt args out rest left e =
    let taken : Always (Taken fmt) (some (out, rest, left)) = rw e at (directive-length fmt args) in
    rw (e, format, same (length fmt) (length rest) rest left taken (omega arith))
      (bind-map (λ (tail : List ℕ). out ++ tail) (format (length rest) rest left))

pub ee_vsprintf-none :
    (fmt : List ℕ) (args : List Arg)
    → directive fmt args ≡ none
    → ee_vsprintf (b'%' ∷ fmt) args ≡ none
unfolding ee_vsprintf format
ee_vsprintf-none fmt args e = rw (e, format) refl
