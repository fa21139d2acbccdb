-- ===== src/Paging/Console/Text.antt =====
-- What the host gets to read.
use rvcomp.Printf.Digits.{value}
use rvcomp.Base.{
  ℕ, zero, suc, ◌+◌, ◌/◌, ◌%◌, ◌^◌, ◌<◌, bit_or, ◌≡◌, refl, sym, ap, ◌∙◌, inl, inr, true, ◌&&◌,
  Option, none, some, List, [], ◌∷◌, ◌++◌, append-nil, append_assoc, arith, ◌==◌, if◌then◌else◌,
  ==_iff, Bool-cases, u8,
}
use rvcomp.Paging.Console.{Htif, wait_tohost, do_tohost, cputchar, cputstring, terminate}
use rvcomp.Bits.{bit_or_above}

-- The host takes a command with device 1 and command 1 for a character of the console.
abbrev pub host_text : List ℕ → List ℕ
host_text [] = []
host_text (value ∷ values) =
    let rest = host_text values in if value / 2 ^ 48 == 0x101 then value % 2 ^ 48 ∷ rest else rest

-- And one with device 0 and an odd payload for the end of the test, with the exit code above it.
abbrev pub exit_code : ℕ → Option ℕ
exit_code value = if value / 2 ^ 48 == 0 && value % 2 == 1 then some (value / 2) else none

-- The host takes a word within `fuel` reads, whenever it is asked.
abbrev pub Answers : (ℕ → ℕ) → ℕ → Type 0
Answers tohost fuel = (i : ℕ) → (j : ℕ) × (j < fuel) × (tohost (i + j) ≡ 0)

abbrev pub AllBytes : List ℕ → Type 0
AllBytes [] = Unit {0}
AllBytes (ch ∷ str) = (ch < 256) × AllBytes str

host_text-append : (xs ys : List ℕ) → host_text (xs ++ ys) ≡ host_text xs ++ host_text ys
host_text-append [] ys = refl
host_text-append (x ∷ xs) ys = elim (Bool-cases (x / 2 ^ 48 == 0x101)) [
  | inl e ↦ rw e (ap (λ (l : List ℕ). x % 2 ^ 48 ∷ l) (host_text-append xs ys))
  | inr e ↦ rw e (host_text-append xs ys)
]

module _ (tohost : ℕ → ℕ) where
  wait_tohost_lem :
      (fuel j : ℕ) (h : Htif)
      → j < fuel
      → tohost (h.polls + j) ≡ 0
      → (h' : Htif) × (wait_tohost tohost fuel h ≡ some h') × (h'.commands ≡ h.commands)
  unfolding wait_tohost
  wait_tohost_lem zero j h lt z = absurd (omega arith)
  wait_tohost_lem (suc fuel) zero h lt z =
      let at : h.polls + 0 ≡ h.polls = omega arith in
      let now : (tohost h.polls == 0) ≡ true =
        (==_iff (tohost h.polls) 0).1 (ap tohost (sym at) ∙ z) in
      (record h { polls = h.polls + 1 }, rw (now, wait_tohost) refl, refl)
  wait_tohost_lem (suc fuel) (suc j) h lt z = elim (Bool-cases (tohost h.polls == 0)) [
    | inl e ↦ (record h { polls = h.polls + 1 }, rw (e, wait_tohost) refl, refl)
    | inr e ↦
        let at : h.polls + suc j ≡ h.polls + 1 + j = omega arith in
        let (h', run, same) =
          wait_tohost_lem fuel j (record h { fromhost = 0; polls = h.polls + 1 }) (omega arith)
            (rw at at z) in
        (h', rw (e, wait_tohost) run, same)
  ]

  do_tohost_lem :
      (fuel value : ℕ) (h : Htif)
      → Answers tohost fuel
      → (h' : Htif) × (do_tohost tohost fuel value h ≡ some h')
        × (h'.commands ≡ h.commands ++ value ∷ [])
  unfolding do_tohost
  do_tohost_lem fuel value h answers =
      let (j, lt, z) = answers h.polls in
      let (ready, run, same) = wait_tohost_lem fuel j h lt z in
      (
        record ready { commands = ready.commands ++ value ∷ [] },
        rw run refl,
        ap (λ (l : List ℕ). l ++ value ∷ []) same,
      )

  console_word : (ch : ℕ) → ch < 256 → host_text (bit_or (u8 ch) 0x0101000000000000 ∷ []) ≡ ch ∷ []
  console_word ch lt =
      let byte : u8 ch ≡ ch = omega arith in
      let sum : bit_or (u8 ch) 0x0101000000000000 ≡ ch + 0x0101000000000000 =
        rw byte (bit_or_above 48 ch 0x101 (omega arith)) in
      let device : ((ch + 0x0101000000000000) / 2 ^ 48 == 0x101) ≡ true = ground arith in
      let payload : (ch + 0x0101000000000000) % 2 ^ 48 ≡ ch = omega arith in
      rw (sum, device, payload) refl

  -- A string of bytes comes to the host's console in its order, behind what was written before,
  -- where the host takes each word within `fuel` reads.
  pub cputstring_lem :
      (fuel : ℕ) (str : List ℕ) (h : Htif)
      → Answers tohost fuel
      → AllBytes str
      → (h' : Htif) × (cputstring tohost fuel str h ≡ some h')
        × (host_text h'.commands ≡ host_text h.commands ++ str)
  unfolding cputstring cputchar
  cputstring_lem fuel [] h answers small = (h, refl, sym (append-nil (host_text h.commands)))
  cputstring_lem fuel (ch ∷ str) h answers (byte, small) =
      let (next, put, sent) = do_tohost_lem fuel (bit_or (u8 ch) 0x0101000000000000) h answers in
      let (h', run, text) = cputstring_lem fuel str next answers small in
      (
        h',
        rw put run,
        text
            ∙ (ap (λ (l : List ℕ). host_text l ++ str) sent
                ∙ (ap (λ (l : List ℕ). l ++ str)
                      (host_text-append h.commands (bit_or (u8 ch) 0x0101000000000000 ∷ [])
                        ∙ ap (λ (l : List ℕ). host_text h.commands ++ l) (console_word ch byte))
                    ∙ append_assoc (host_text h.commands) (ch ∷ []) str)),
      )

  -- Each way to end the test sends the host, after any text, a word whose exit code is half the
  -- code that `terminate` gets, which is odd.
  pub terminate_lem :
      (fuel code : ℕ) (h : Htif)
      → Answers tohost fuel
      → code < 2 ^ 31
      → code % 2 ≡ 1
      → (h' : Htif) × (value : ℕ) × (terminate tohost fuel code h ≡ some h')
        × (h'.commands ≡ h.commands ++ value ∷ [])
        × (exit_code value ≡ some (code / 2))
  unfolding terminate
  terminate_lem fuel code h answers small odd =
      let (h', run, sent) = do_tohost_lem fuel code h answers in
      let device : (code / 2 ^ 48 == 0 && code % 2 == 1) ≡ true = ground arith in
      (h', code, run, sent, rw device refl)
