-- ===== src/BlockDriver/Flushing.antt =====
-- mmc_wait_flush_done and mmc_flush: when a flush succeeds, and what it writes.
use native.Mathlib.Nat.{add-zero}
use rvcomp.Base.{
  ℕ, zero, suc, ◌+◌, ◌<◌, bit_and, ◌≡◌, refl, ◌∙◌, ◌≢◌, ◌⊎◌, inl, inr, true, false, ◌∷◌, arith,
  ◌==◌, Bool-cases,
}
use rvcomp.BlockDriver.{
  mmc_csr_flush, mmc_csr_flush_done_clr, write_reg, Mmc, wait_flush_done, flush_loops,
}

-- The done bit is set in the value that the read number `k` of the register gives.
abbrev pub DoneAt : (ℕ → ℕ) → ℕ → Type 0
DoneAt poll k = bit_and (poll k) 1 ≢ 0

-- Some read from number `i` on, of `loops` many, shows the done bit; or none does.
abbrev pub DoneWithin : ℕ → (ℕ → ℕ) → ℕ → Type 0
DoneWithin loops poll i = (j : ℕ) × (j < loops) × DoneAt poll (i + j)

abbrev pub NeverWithin : ℕ → (ℕ → ℕ) → ℕ → Type 0
NeverWithin loops poll i = (j : ℕ) → j < loops → bit_and (poll (i + j)) 1 ≡ 0

wait_hit :
    (loops : ℕ) (poll : ℕ → ℕ) (i : ℕ)
    → (bit_and (poll i) 1 == 0) ≡ false
    → wait_flush_done (suc loops) poll i ≡ 0
unfolding wait_flush_done
wait_hit loops poll i f = rw (f, wait_flush_done) refl

wait_miss :
    (loops : ℕ) (poll : ℕ → ℕ) (i : ℕ)
    → (bit_and (poll i) 1 == 0) ≡ true
    → wait_flush_done (suc loops) poll i ≡ wait_flush_done loops poll (i + 1)
unfolding wait_flush_done
wait_miss loops poll i t = rw (t, wait_flush_done) refl

NeverWithin-suc :
    (loops : ℕ) (poll : ℕ → ℕ) (i : ℕ)
    → bit_and (poll i) 1 ≡ 0
    → NeverWithin loops poll (i + 1)
    → NeverWithin (suc loops) poll i
NeverWithin-suc loops poll i now later zero lt = rw (add-zero i) now
NeverWithin-suc loops poll i now later (suc j) lt =
    let e : i + suc j ≡ i + 1 + j = omega arith in rw e (later j (omega arith))

-- The busy-wait gives 0 exactly when one of its reads shows the done bit, and -ETIMEDOUT
-- otherwise.
pub wait_flush_done_lem :
    (loops : ℕ) (poll : ℕ → ℕ) (i : ℕ)
    → (DoneWithin loops poll i × (wait_flush_done loops poll i ≡ 0))
      ⊎ (NeverWithin loops poll i × (wait_flush_done loops poll i ≡ 110))
unfolding wait_flush_done
wait_flush_done_lem zero poll i = inr ((λ j lt. absurd (omega arith)), refl)
wait_flush_done_lem (suc loops) poll i = elim (Bool-cases (bit_and (poll i) 1 == 0)) [
  | inr f ↦
      let now : DoneAt poll (i + 0) = rw (add-zero i) (ground arith) in
      inl ((0, omega arith, now), wait_hit loops poll i f)
  | inl t ↦
      let step = wait_miss loops poll i t in
      elim (wait_flush_done_lem loops poll (i + 1)) [
        | inl (done, r) ↦
            let e : i + suc done.0 ≡ i + 1 + done.0 = omega arith in
            inl ((suc done.0, omega (arith, done.1), rw e done.2), step ∙ r)
        | inr (never, r) ↦ inr (NeverWithin-suc loops poll i (ground arith) never, step ∙ r)
      ]
]

-- A flush asks the controller, and returns 0 and clears the latch exactly when the done bit
-- shows within the given number of reads. Otherwise it returns -ETIMEDOUT and leaves the latch.
pub flush_loops_lem :
    (loops : ℕ) (poll : ℕ → ℕ) (mmc : Mmc)
    → (DoneWithin loops poll 0
        × ((flush_loops loops poll mmc).0 ≡ 0)
        × ((flush_loops loops poll mmc).1.log
            ≡ write_reg mmc_csr_flush_done_clr 1 ∷ write_reg mmc_csr_flush 1 ∷ mmc.log))
      ⊎ (NeverWithin loops poll 0
          × ((flush_loops loops poll mmc).0 ≡ 110)
          × ((flush_loops loops poll mmc).1.log ≡ write_reg mmc_csr_flush 1 ∷ mmc.log))
unfolding flush_loops
flush_loops_lem loops poll mmc = elim (wait_flush_done_lem loops poll 0) [
  | inl (done, r) ↦ rw r (inl (done, refl, refl))
  | inr (never, r) ↦ rw r (inr (never, refl, refl))
]
