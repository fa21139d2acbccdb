-- ===== src/Paging/Console.antt =====
-- What vm.c says to the host: the words written to `tohost`, and the text on the console. `tohost i`
-- is what read number `i` of that word gives.
pub mod Text
use rvcomp.Base.{
  ℕ, zero, suc, ◌+◌, bit_or, true, false, Option, none, some, List, [], ◌∷◌, ◌++◌, ◌==◌, ◌>>=◌, u8,
}
use rvcomp.Paging.{printhex}

-- The words written to `tohost` in their order, the last one written to `fromhost`, and the reads
-- of `tohost` so far.
pub record Htif : Type 0 where
  pub commands : List ℕ
  pub fromhost : ℕ
  pub polls : ℕ

module _ (tohost : ℕ → ℕ) where
  -- The wait of `do_tohost`, on fuel.
  unfoldable pub wait_tohost : ℕ → Htif → Option Htif
  wait_tohost zero h = none
  wait_tohost (suc fuel) h = elim (tohost h.polls == 0) [
    | true ↦ some (record h { polls = h.polls + 1 })
    | false ↦ wait_tohost fuel (record h { fromhost = 0; polls = h.polls + 1 })
  ]

  -- `do_tohost`
  unfoldable pub do_tohost : ℕ → ℕ → Htif → Option Htif
  do_tohost fuel value h = do
    ready ← wait_tohost fuel h
    some (record ready { commands = ready.commands ++ value ∷ [] })

  -- `cputchar`
  unfoldable pub cputchar : ℕ → ℕ → Htif → Option Htif
  cputchar fuel x h = do_tohost fuel (bit_or (u8 x) 0x0101000000000000) h

  -- `cputstring` of the characters before the terminating zero.
  unfoldable pub cputstring : ℕ → List ℕ → Htif → Option Htif
  cputstring fuel [] h = some h
  cputstring fuel (ch ∷ str) h = do next ← cputchar fuel ch h; cputstring fuel str next

  -- `terminate`, up to the loop at its end.
  unfoldable pub terminate : ℕ → ℕ → Htif → Option Htif
  terminate fuel code h = do_tohost fuel code h

  -- `wtf`
  unfoldable pub wtf : ℕ → Htif → Option Htif
  wtf fuel h = terminate fuel 841 h

  -- The end of the test that `assert` brings, with the text of the condition that fails.
  unfoldable pub assertion_failed : ℕ → List ℕ → Htif → Option Htif
  assertion_failed fuel condition h = do
    announced ←
        cputstring fuel
          (b'A' ∷ b's' ∷ b's' ∷ b'e' ∷ b'r' ∷ b't' ∷ b'i' ∷ b'o' ∷ b'n' ∷ 32 ∷ b'f' ∷ b'a' ∷ b'i'
            ∷ b'l' ∷ b'e' ∷ b'd' ∷ b':' ∷ 32 ∷ [])
          h
    shown ← cputstring fuel condition announced
    ended ← cputstring fuel (10 ∷ []) shown
    terminate fuel 3 ended

  -- `printhex`, with its output.
  unfoldable pub print_hex : ℕ → ℕ → Htif → Option Htif
  print_hex fuel x h = cputstring fuel (printhex x) h
