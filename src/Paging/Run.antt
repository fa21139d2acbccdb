-- ===== src/Paging/Run.antt =====
-- The run of a program up to its last call.
use rvcomp.Base.{
  ℕ, ◌*◌, ◌/◌, ◌%◌, ◌≤◌, ◌<◌, ◌≡◌, refl, ap, ◌∙◌, inl, inr, false, Option, some, ◌==◌, ==_iff,
  ==_ne, Bool-cases, Memory, update,
}
use rvcomp.Paging.Fault.{IsWalk}
use rvcomp.Paging.Served.{IsServed}
use rvcomp.Paging.Attempt.{attempt_lem}
use rvcomp.Paging.Refine.{granted, IsSettled, read_lem, store_lem}
use rvcomp.Paging.Walk.{
  store, Access, fetch, load, walk_faults, Program, ecall, fetching, loading, storing, flat_run,
  IsWithin, attempt, paged_run, physical,
}
use rvcomp.Paging.{Vm, running, pgsize}

module _ (frame : ℕ → ℕ) (walk : IsWalk frame) where
  -- Between two accesses.
  abbrev pub IsRunning : Memory → Vm → Type 0
  IsRunning flat s = ((n : ℕ) × IsServed flat n s) × IsSettled s

  attempt-IsRunning :
      (access : Access) (flat : Memory) (addr : ℕ) (s : Vm)
      → IsRunning flat s
      → pgsize ≤ addr
      → addr < 63 * pgsize
      → (t : Vm) × (attempt frame 4 access addr s ≡ running t)
        × IsRunning flat t
        × (walk_faults access (t.user_llpt (addr / pgsize)) ≡ false)
  attempt-IsRunning access flat addr s ((n, h), settled) above below =
      let (t, run, (is_served, fine, rest)) =
        attempt_lem frame walk flat addr above below access n s h settled in
      let (ne, a, d) = granted access (t.user_llpt (addr / pgsize)) fine in
      (
        t,
        run,
        (
          is_served,
          λ q set. elim (Bool-cases (addr / pgsize == q)) [
            | inl e ↦ rw ((==_iff (addr / pgsize) q).0 e) at a
            | inr e ↦
                let same = rest q (==_ne (addr / pgsize) q e) in
                ap (λ (k : ℕ). k / 64 % 2) same ∙ settled q (λ z. set (same ∙ z))
          ],
        ),
        fine,
      )

  -- One access of a run.
  run_fetching :
      (addr : ℕ) (rest : ℕ → Program) (s t : Vm) (byte : ℕ) (r : Option (ℕ × Vm))
      → attempt frame 4 fetch addr s ≡ running t
      → t.mem (physical frame t addr) ≡ byte
      → paged_run frame (rest byte) t ≡ r
      → paged_run frame (fetching addr rest) s ≡ r
  unfolding paged_run
  run_fetching addr rest s t byte r run read on = rw (run, paged_run, read) on

  run_loading :
      (addr : ℕ) (rest : ℕ → Program) (s t : Vm) (byte : ℕ) (r : Option (ℕ × Vm))
      → attempt frame 4 load addr s ≡ running t
      → t.mem (physical frame t addr) ≡ byte
      → paged_run frame (rest byte) t ≡ r
      → paged_run frame (loading addr rest) s ≡ r
  unfolding paged_run
  run_loading addr rest s t byte r run read on = rw (run, paged_run, read) on

  run_storing :
      (addr v : ℕ) (rest : Program) (s t : Vm) (r : Option (ℕ × Vm))
      → attempt frame 4 store addr s ≡ running t
      → paged_run frame rest (record t { mem = update t.mem (physical frame t addr) v }) ≡ r
      → paged_run frame (storing addr v rest) s ≡ r
  unfolding paged_run
  run_storing addr v rest s t r run on = rw (run, paged_run) on

  abbrev pub Ran : Program → Memory → Vm → Type 0
  Ran p flat s =
      (t : Vm) × (paged_run frame p s ≡ some ((flat_run p flat).0, t))
      × IsRunning ((flat_run p flat).1) t

  -- Every program comes to its end, with the exit code and the memory of the flat run.
  pub paged_run_lem :
      (p : Program) (flat : Memory) (s : Vm) → IsRunning flat s → IsWithin p → Ran p flat s
  unfolding paged_run flat_run IsWithin
  paged_run_lem (ecall code) flat s h within = (s, refl, h)
  paged_run_lem (fetching addr rest) flat s h (above, below, within) =
      let (t, run, h', fine) = attempt-IsRunning fetch flat addr s h above below in
      let ((n, is_served), settled) = h' in
      let (u, run', h'') = paged_run_lem (rest (flat addr)) flat t h' (within (flat addr)) in
      (
        u,
        run_fetching addr rest s t (flat addr) _ run
            (read_lem frame walk flat n fetch addr t is_served fine) run',
        h'',
      )
  paged_run_lem (loading addr rest) flat s h (above, below, within) =
      let (t, run, h', fine) = attempt-IsRunning load flat addr s h above below in
      let ((n, is_served), settled) = h' in
      let (u, run', h'') = paged_run_lem (rest (flat addr)) flat t h' (within (flat addr)) in
      (
        u,
        run_loading addr rest s t (flat addr) _ run
            (read_lem frame walk flat n load addr t is_served fine) run',
        h'',
      )
  paged_run_lem (storing addr v rest) flat s h (above, below, byte, within) =
      let (t, run, h', fine) = attempt-IsRunning store flat addr s h above below in
      let ((n, is_served), settled) = h' in
      let next = store_lem frame walk flat n addr v t is_served above below byte fine in
      let (u, run', h'') =
        paged_run_lem rest (update flat addr v)
          (record t { mem = update t.mem (physical frame t addr) v }) ((n, next), settled) within in
      (u, run_storing addr v rest s t _ run run', h'')
