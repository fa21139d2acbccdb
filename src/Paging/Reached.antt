-- ===== src/Paging/Reached.antt =====
-- Every sequence of page faults from the boot on.
use rvcomp.Base.{ℕ, ◌+◌, ◌*◌, ◌<◌, ◌≡◌, ap, Memory}
use rvcomp.Paging.Invariant.{IsPaged}
use rvcomp.Paging.{
  Vm, Outcome, running, terminated, pgsize, dram_base, vm_boot, no_filter, handle_fault, stuck,
}

module _ (frame : ℕ → ℕ) (entropy : ℕ) (m : Memory) where
  -- The states between vm_boot and the end of the test, after any page faults.
  pub data Reached : Vm → Type 0 where
    booted : Reached (vm_boot entropy m)
    faulted :
        (s s' : Vm) (addr cause : ℕ)
        → Reached s
        → handle_fault no_filter frame addr cause s ≡ running s'
        → Reached s'

  -- What holds in each of them: the page table is well formed, and the test's image intact.
  abbrev pub IsSound : Vm → Type 0
  IsSound s = ((n : ℕ) × IsPaged n s) × ((a : ℕ) → a < dram_base + 64 * pgsize → s.mem a ≡ m a)

  pub same_running : (s s' : Vm) → running s ≡ running s' → s ≡ s'
  same_running s s' e = ap (λ (o : Outcome). elim o [ running t ↦ t | _ ↦ s ]) e

  abbrev has_ended : Outcome → ℕ
  has_ended (running s) = 0
  has_ended (terminated code) = 1
  has_ended stuck = 1
