-- ===== src/Paging/Walk.antt =====
-- The program of a test under the page table: what the page-table walk of mmu/ptw.v refuses, an
-- access that is repeated when the trap handler has served its fault, and whole programs, next to
-- the same programs on a flat memory.
use rvcomp.Base.{
  ℕ, zero, suc, ◌+◌, ◌*◌, ◌/◌, ◌%◌, ◌^◌, ◌≤◌, ◌<◌, Bool, false, not, ◌&&◌, ◌||◌, Option, none, some,
  ◌==◌, if◌then◌else◌, Memory, update,
}
use rvcomp.Paging.{
  Vm, Outcome, running, stuck, terminated, and_then, pgsize, handle_trap, no_filter,
}

pub data Access : Type 0 where
  fetch : Access
  load : Access
  store : Access

-- The causes of page faults, as the privileged architecture numbers them.
abbrev pub fault_cause : Access → ℕ
fault_cause fetch = 0xc
fault_cause load = 0xd
fault_cause store = 0xf

abbrev pub flag : ℕ → ℕ → Bool
flag pte k = pte / 2 ^ k % 2 == 1

-- The walk at the lowest level, in user mode, with MXR clear.
abbrev pub walk_faults : Access → ℕ → Bool
walk_faults access pte =
    let readable = flag pte 1 in
    let writable = flag pte 2 in
    let executable = flag pte 3 in
    let refused : Bool = elim access [
      | fetch ↦ not executable
      | load ↦ not readable
      | store ↦ not writable || not (flag pte 7)
    ] in
    not (flag pte 0)
    || (not readable && writable)
    || not (readable || executable)
    || not (flag pte 6)
    || refused
    || not (flag pte 4)

-- A program that comes to an end whatever bytes it reads: it fetches, loads and stores bytes, goes
-- on as the bytes tell it, and ends with the call that gives its exit code.
pub data Program : Type 0 where
  ecall : ℕ → Program
  fetching : ℕ → (ℕ → Program) → Program
  loading : ℕ → (ℕ → Program) → Program
  storing : ℕ → ℕ → Program → Program

-- The same program on a flat memory: its exit code and what it leaves.
unfoldable pub flat_run : Program → Memory → ℕ × Memory
flat_run (ecall code) flat = (code, flat)
flat_run (fetching addr rest) flat = flat_run (rest (flat addr)) flat
flat_run (loading addr rest) flat = flat_run (rest (flat addr)) flat
flat_run (storing addr v rest) flat = flat_run rest (update flat addr v)

-- Its accesses stay on the pages of the test, and it stores bytes.
unfoldable pub IsWithin : Program → Type 0
IsWithin (ecall code) = Unit
IsWithin (fetching addr rest) =
    (pgsize ≤ addr) × (addr < 63 * pgsize) × ((v : ℕ) → IsWithin (rest v))
IsWithin (loading addr rest) =
    (pgsize ≤ addr) × (addr < 63 * pgsize) × ((v : ℕ) → IsWithin (rest v))
IsWithin (storing addr v rest) = (pgsize ≤ addr) × (addr < 63 * pgsize) × (v < 256) × IsWithin rest

module _ (frame : ℕ → ℕ) where
  -- An access of the program, tried at most `fuel` times with a page fault after each.
  unfoldable pub attempt : ℕ → Access → ℕ → Vm → Outcome
  attempt zero access addr s = stuck
  attempt (suc fuel) access addr s =
      if walk_faults access (s.user_llpt (addr / pgsize))
      then and_then (handle_trap no_filter frame false (fault_cause access) addr 0 0 false s)
          (attempt fuel access addr)
      else running s

  -- The byte that an address of the program stands for.
  abbrev pub physical : Vm → ℕ → ℕ
  physical s addr = frame (s.user_llpt (addr / pgsize)) + addr % pgsize

  abbrev pub served : Outcome → Option Vm
  served (running s) = some s
  served (terminated code) = none
  served stuck = none

  -- A program under the page table, up to its last call: its exit code and the state.
  unfoldable pub paged_run : Program → Vm → Option (ℕ × Vm)
  paged_run (ecall code) s = some (code, s)
  paged_run (fetching addr rest) s = elim (served (attempt 4 fetch addr s)) [
    | none ↦ none
    | some t ↦ paged_run (rest (t.mem (physical t addr))) t
  ]
  paged_run (loading addr rest) s = elim (served (attempt 4 load addr s)) [
    | none ↦ none
    | some t ↦ paged_run (rest (t.mem (physical t addr))) t
  ]
  paged_run (storing addr v rest) s = elim (served (attempt 4 store addr s)) [
    | none ↦ none
    | some t ↦ paged_run rest (record t { mem = update t.mem (physical t addr) v })
  ]
