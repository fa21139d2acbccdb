-- ===== src/Paging/Whole.antt =====
-- A test from the boot to its exit code.
use mathlib.Core.Path.{subst}
use rvcomp.Strings.Comparing.{IsBytes}
use rvcomp.Base.{
  ℕ, zero, suc, ◌+◌, ◌-◌, ◌*◌, ◌/◌, ◌%◌, ◌≤◌, ◌<◌, bit_and, ◌≡◌, refl, ap, ◌∙◌, ◌≢◌, inl, inr, Bool,
  false, some, arith, ◌==◌, ==_iff, ==_ne, Bool-cases, Memory,
}
use rvcomp.Bits.Flags.{and_64, and_128}
use rvcomp.Paging.Walk.{Program, flat_run, IsWithin, paged_run}
use rvcomp.Paging.Fault.{IsWalk}
use rvcomp.Paging.Served.{vm_boot-IsServed}
use rvcomp.Paging.Run.{IsRunning, paged_run_lem}
use rvcomp.Paging.Finish.{IsBack, IsDue, evict_one, evict_others}
use rvcomp.Paging.Refine.{frame_lem}
use rvcomp.Paging.{
  Vm, running, terminated, pgsize, dram_base, vm_boot, no_filter, evict_all, handle_trap, pte_a,
  pte_d, evict,
}

set_64 : (p : ℕ) → p / 64 % 2 ≡ 1 → bit_and p pte_a ≢ 0
set_64 p one z = omega (arith, and_64 p, z)

unset_128 : (p : ℕ) → bit_and p pte_d ≡ 0 → p / 128 % 2 ≡ 0
unset_128 p z = omega (arith, and_128 p, z)

module _ (frame : ℕ → ℕ) (walk : IsWalk frame) (flat : Memory) where
  IsDue-at : (page q : ℕ) (t : Vm) → page ≡ q → IsDue frame flat t page → IsDue frame flat t q
  IsDue-at page q t e due = subst (λ k. IsDue frame flat t k) e due

  freed_at :
      (page q : ℕ) (t : Vm)
      → page ≡ q
      → (t.user_mapping page).addr ≡ 0
      → (t.user_mapping q).addr ≡ 0
  freed_at page q t e z = subst (λ k. (t.user_mapping k).addr ≡ 0) e z

  -- The eviction of one page, next to all the others.
  evict_step :
      (s : Vm) (page : ℕ)
      → 1 ≤ page
      → page ≤ 62
      → IsBytes s.mem
      → ((q : ℕ) → 1 ≤ q → q ≤ 62 → IsDue frame flat s q)
      → (t : Vm) × (evict no_filter frame (page * pgsize) s ≡ running t)
        × ((q : ℕ) → 1 ≤ q → q ≤ 62 → IsDue frame flat t q)
        × ((t.user_mapping page).addr ≡ 0)
        × ((q : ℕ) → (s.user_mapping q).addr ≡ 0 → (t.user_mapping q).addr ≡ 0)
        × IsBytes t.mem
  evict_step s page least most bytes due =
      let e = evict_one frame flat s page least most bytes (due page least most) in
      let (t, run, (now, addrs, llpt), back, low, high, small) = e in
      (
        t,
        run,
        (λ q one last. elim (Bool-cases (page == q)) [
          | inl same ↦ IsDue-at page q t ((==_iff page q).0 same) (inl (now, back))
          | inr other ↦
              evict_others frame flat s page least most bytes e q last (==_ne page q other)
                (due q one last)
        ]),
        now,
        (λ q z. elim (Bool-cases (page == q)) [
          | inl same ↦ freed_at page q t ((==_iff page q).0 same) now
          | inr other ↦ addrs q (==_ne page q other) ∙ z
        ]),
        small,
      )

  -- The eviction of the last `left` pages, the ones before them already free.
  evict_all_lem :
      (left : ℕ) (s : Vm)
      → left ≤ 62
      → IsBytes s.mem
      → ((q : ℕ) → 1 ≤ q → q ≤ 62 → IsDue frame flat s q)
      → ((q : ℕ) → 1 ≤ q → q + left < 63 → (s.user_mapping q).addr ≡ 0)
      → (t : Vm) × (evict_all no_filter frame left s ≡ running t)
        × ((q : ℕ) → 1 ≤ q → q ≤ 62 → IsBack frame flat t q)
  unfolding evict_all
  evict_all_lem zero s few bytes due freed =
      (s, refl, λ q least most. settled q (freed q least (omega arith)) (due q least most))
    where
      settled : (q : ℕ) → (s.user_mapping q).addr ≡ 0 → IsDue frame flat s q → IsBack frame flat s q
      settled q z (inl (z', back)) = back
      settled q z (inr (used, accessed, low, high, has, clean)) = absurd (used z)
  evict_all_lem (suc left) s few bytes due freed =
      let page : ℕ = 63 - suc left in
      let least : 1 ≤ page = omega arith in
      let most : page ≤ 62 = omega arith in
      let (t, run, due_next, now, kept, small) = evict_step s page least most bytes due in
      let freed_next : (q : ℕ) → 1 ≤ q → q + left < 63 → (t.user_mapping q).addr ≡ 0 = λ q one few'.
        elim (Bool-cases (page == q)) [
          | inl same ↦ freed_at page q t ((==_iff page q).0 same) now
          | inr other ↦ let ne = ==_ne page q other in kept q (freed q one (omega arith))
        ] in
      let (u, run', done) = evict_all_lem left t (omega arith) small due_next freed_next in
      (u, rw run run', done)

  -- Between two accesses every page can be evicted.
  IsRunning-IsDue :
      (s : Vm) (q : ℕ) → IsRunning frame walk flat s → 1 ≤ q → q ≤ 62 → IsDue frame flat s q
  IsRunning-IsDue s q ((n, h), settled) least most = elim (Bool-cases (s.user_llpt q == 0)) [
    | inl e ↦
        let z = (==_iff (s.user_llpt q) 0).0 e in
        inl (h.paged.unmapped q z, λ j lt. h.clean q j most lt (omega (arith, z)))
    | inr e ↦
        let ne = ==_ne (s.user_llpt q) 0 e in
        let a = settled q ne in
        let (at, aligned, low, high) = frame_lem frame walk n s q h.paged ne in
        inr (
          (λ z. omega (arith, low, z)),
          set_64 (s.user_llpt q) a,
          omega (arith, at, low),
          omega (arith, at, high),
          (λ j lt. ap (λ (k : ℕ). s.mem (k + j)) at ∙ h.contents q j lt ne),
          λ z j lt. h.clean q j most lt (unset_128 (s.user_llpt q) z),
        )
  ]

-- A program of the test that stays on the test's pages runs under the page table as it runs on a
-- flat memory that begins with the test's image, whatever the entropy: each access is served after
-- at most three page faults, each byte it reads is the flat memory's, and it comes to its last call
-- with the same exit code. The trap handler then ends the test with that code, after its evictions
-- have brought every page of the image to what the flat run leaves.
pub program_refines :
    (frame : ℕ → ℕ) (entropy : ℕ) (m : Memory) (p : Program)
    → IsWalk frame
    → IsBytes m
    → IsWithin p
    → let (code, flat) = flat_run p (λ a. m (dram_base + a)) in
      (s : Vm) × (paged_run frame p (vm_boot entropy m) ≡ some (code, s))
      × ((badvaddr epc : ℕ) (is_fssr : Bool)
          → handle_trap no_filter frame false 0x8 badvaddr code epc is_fssr s ≡ terminated code)
      × (t : Vm) × (evict_all no_filter frame 62 s ≡ running t)
      × ((a : ℕ) → pgsize ≤ a → a < 63 * pgsize → t.mem (dram_base + a) ≡ flat a)
unfolding handle_trap vm_boot
program_refines frame entropy m p walk bytes within =
    let start : Memory = λ a. m (dram_base + a) in
    let flat : Memory = (flat_run p start).1 in
    let (s, run, is_running) =
      paged_run_lem frame walk p start (vm_boot entropy m)
        ((0, vm_boot-IsServed entropy m bytes), λ q ne. absurd (ne refl)) within in
    let ((n, h), settled) = is_running in
    let (t, evicted, back) =
      evict_all_lem frame walk flat 62 s (omega arith) h.bytes
        (λ q least most. IsRunning-IsDue frame walk flat s q is_running least most)
        (λ q least few. absurd (omega arith)) in
    (
      s,
      run,
      (λ badvaddr epc is_fssr. rw evicted refl),
      t,
      evicted,
      λ a above below.
          let whole : dram_base + a / pgsize * pgsize + a % pgsize ≡ dram_base + a = omega arith in
          let whole' : a / pgsize * pgsize + a % pgsize ≡ a = omega arith in
          rw (whole, whole') at
            (back (a / pgsize) (omega arith) (omega arith) (a % pgsize) (omega arith)),
    )
