-- ===== src/Paging/Attempt.antt =====
-- An access of the program is served after at most three page faults.
use rvcomp.Base.{
  ℕ, suc, ◌+◌, ◌*◌, ◌/◌, ◌%◌, ◌≤◌, ◌<◌, ◌≡◌, refl, sym, ◌∙◌, ◌≢◌, inl, inr, true, false, not, ◌||◌,
  arith, ◌==◌, ==_iff, ==_ne, Bool-cases, Memory, update_self, update_ne,
}
use rvcomp.Paging.Invariant.{IsPaged}
use rvcomp.Paging.Access.{with_entry, room_64, room_128, access_lem}
use rvcomp.Paging.Mapping.{new_at, same_at}
use rvcomp.Paging.Fault.{IsWalk, entry, with_page, map_page_lem}
use rvcomp.Paging.Served.{IsServed, with_page-IsServed, with_entry-IsServed}
use rvcomp.Paging.Walk.{store, Access, fetch, load, fault_cause, flag, walk_faults, attempt}
use rvcomp.Paging.{Vm, running, pgsize, no_filter, handle_fault, handle_trap, max_test_pages}

module _ (frame : ℕ → ℕ) (walk : IsWalk frame) (flat : Memory) where
  -- The access can go on, and only the entry of its page is another.
  abbrev pub IsReady : Access → ℕ → Vm → Vm → Type 0
  IsReady access page s t =
      ((n : ℕ) × IsServed flat n t)
      × (walk_faults access (t.user_llpt page) ≡ false)
      × ((q : ℕ) → page ≢ q → t.user_llpt q ≡ s.user_llpt q)

  -- The walk of an entry that handle_fault has made.
  walk_user :
      (access : Access) (pte : ℕ)
      → pte % 32 ≡ 31
      → walk_faults access pte
        ≡ not (flag pte 6) || elim access [ store ↦ not (flag pte 7) | _ ↦ false ]
  walk_user fetch pte e = ground arith
  walk_user load pte e = ground arith
  walk_user store pte e = ground arith

  store_fault :
      (pte : ℕ)
      → pte % 32 ≡ 31
      → pte / 64 % 2 ≡ 1
      → walk_faults store pte ≡ true
      → pte / 128 % 2 ≡ 0
  store_fault pte low a faults = let e = sym (walk_user store pte low) ∙ faults in ground arith

  store_fine :
      (pte : ℕ)
      → pte % 32 ≡ 31
      → pte / 64 % 2 ≡ 1
      → pte / 128 % 2 ≡ 1
      → walk_faults store pte ≡ false
  store_fine pte low a d = walk_user store pte low ∙ ground arith

  fine_fetch : (pte : ℕ) → pte % 32 ≡ 31 → pte / 64 % 2 ≡ 1 → walk_faults fetch pte ≡ true → ⊥
  fine_fetch pte low a faults = let e = sym (walk_user fetch pte low) ∙ faults in ground arith

  fine_load : (pte : ℕ) → pte % 32 ≡ 31 → pte / 64 % 2 ≡ 1 → walk_faults load pte ≡ true → ⊥
  fine_load pte low a faults = let e = sym (walk_user load pte low) ∙ faults in ground arith

  -- One round of `attempt` that meets a fault.
  attempt-fault :
      (fuel : ℕ) (access : Access) (addr : ℕ) (s t : Vm)
      → walk_faults access (s.user_llpt (addr / pgsize)) ≡ true
      → handle_fault no_filter frame addr (fault_cause access) s ≡ running t
      → attempt frame (suc fuel) access addr s ≡ attempt frame fuel access addr t
  unfolding attempt handle_trap
  attempt-fault fuel fetch addr s t faults run = rw (faults, run) refl
  attempt-fault fuel load addr s t faults run = rw (faults, run) refl
  attempt-fault fuel store addr s t faults run = rw (faults, run) refl

  attempt-done :
      (fuel : ℕ) (access : Access) (addr : ℕ) (s : Vm)
      → walk_faults access (s.user_llpt (addr / pgsize)) ≡ false
      → attempt frame (suc fuel) access addr s ≡ running s
  unfolding attempt
  attempt-done fuel access addr s fine = rw fine refl

  module _ (addr : ℕ) (above : pgsize ≤ addr) (below : addr < max_test_pages * pgsize) where
    -- The two faults on a page that has an entry.
    fault_accessed :
        (n cause : ℕ) (s : Vm)
        → IsPaged n s
        → s.user_llpt (addr / pgsize) ≢ 0
        → s.user_llpt (addr / pgsize) / 64 % 2 ≡ 0
        → handle_fault no_filter frame addr cause s
          ≡ running (with_entry (addr / pgsize) (s.user_llpt (addr / pgsize) + 64) s)
    fault_accessed n cause s h ne z =
        let a : (s.user_llpt (addr / pgsize) / 64 % 2 == 0) ≡ true =
          (==_iff (s.user_llpt (addr / pgsize) / 64 % 2) 0).1 z in
        rw a at ((access_lem frame n s addr cause h above below ne).0)

    fault_dirty :
        (n : ℕ) (s : Vm)
        → IsPaged n s
        → s.user_llpt (addr / pgsize) ≢ 0
        → s.user_llpt (addr / pgsize) / 64 % 2 ≡ 1
        → s.user_llpt (addr / pgsize) / 128 % 2 ≡ 0
        → handle_fault no_filter frame addr 0xf s
          ≡ running (with_entry (addr / pgsize) (s.user_llpt (addr / pgsize) + 128) s)
    fault_dirty n s h ne one z =
        let a : (s.user_llpt (addr / pgsize) / 64 % 2 == 0) ≡ false = ground arith in
        let d : (s.user_llpt (addr / pgsize) / 128 % 2 == 0) ≡ true =
          (==_iff (s.user_llpt (addr / pgsize) / 128 % 2) 0).1 z in
        rw (a, d) at ((access_lem frame n s addr 0xf h above below ne).0)

    abbrev Attempted : ℕ → Access → Vm → Type 0
    Attempted fuel access s =
        (t : Vm) × (attempt frame fuel access addr s ≡ running t)
        × IsReady access (addr / pgsize) s t

    later :
        (fuel : ℕ) (access : Access) (s t : Vm)
        → walk_faults access (s.user_llpt (addr / pgsize)) ≡ true
        → handle_fault no_filter frame addr (fault_cause access) s ≡ running t
        → ((q : ℕ) → addr / pgsize ≢ q → t.user_llpt q ≡ s.user_llpt q)
        → Attempted fuel access t
        → Attempted (suc fuel) access s
    later fuel access s t faults run same (u, run', (is_served, fine, rest)) = (
      u,
      attempt-fault fuel access addr s t faults run ∙ run',
      (is_served, fine, λ q ne. rest q ne ∙ same q ne),
    )

    entry_now :
        (s : Vm) (pte : ℕ) → (with_entry (addr / pgsize) pte s).user_llpt (addr / pgsize) ≡ pte
    entry_now s pte = update_self s.user_llpt (addr / pgsize) pte

    entry_rest :
        (s : Vm) (pte q : ℕ)
        → addr / pgsize ≢ q
        → (with_entry (addr / pgsize) pte s).user_llpt q ≡ s.user_llpt q
    entry_rest s pte q ne = update_ne s.user_llpt (addr / pgsize) pte q ne

    -- An accessed page: a store to a clean one has one more fault.
    accessed_page :
        (k : ℕ) (access : Access) (n : ℕ) (s : Vm)
        → IsServed flat n s
        → s.user_llpt (addr / pgsize) ≢ 0
        → s.user_llpt (addr / pgsize) / 64 % 2 ≡ 1
        → Attempted (suc (suc k)) access s
    accessed_page k access n s h ne a =
        elim (Bool-cases (walk_faults access (s.user_llpt (addr / pgsize)))) [
          | inr fine ↦ (s, attempt-done (suc k) access addr s fine, ((n, h), fine, λ q other. refl))
          | inl faults ↦ go access faults
        ]
      where
        go :
            (access : Access)
            → walk_faults access (s.user_llpt (addr / pgsize)) ≡ true
            → Attempted (suc (suc k)) access s
        go fetch faults =
            absurd (fine_fetch (s.user_llpt (addr / pgsize)) (h.flags (addr / pgsize) ne) a faults)
        go load faults =
            absurd (fine_load (s.user_llpt (addr / pgsize)) (h.flags (addr / pgsize) ne) a faults)
        go store faults =
            let pte : ℕ = s.user_llpt (addr / pgsize) in
            let low = h.flags (addr / pgsize) ne in
            let unset = store_fault pte low a faults in
            let t : Vm = with_entry (addr / pgsize) (pte + 128) s in
            let now : t.user_llpt (addr / pgsize) ≡ pte + 128 = entry_now s (pte + 128) in
            let fine : walk_faults store (t.user_llpt (addr / pgsize)) ≡ false =
              store_fine (t.user_llpt (addr / pgsize)) (omega (arith, now, low))
                (omega (arith, now, a)) (omega (arith, now, unset)) in
            later (suc k) store s t faults (fault_dirty n s h.paged ne a unset)
              (entry_rest s (pte + 128))
              (
                t,
                attempt-done k store addr t fine,
                (
                  (
                    n,
                    with_entry-IsServed flat n s h (addr / pgsize) (omega arith) (omega arith) 128
                        ne (λ flags k small e. room_128 flags k pte small e unset) (omega arith)
                        (λ z. omega arith),
                  ),
                  fine,
                  λ q other. refl,
                ),
              )

    -- A page with an entry: one fault more, where it has not been accessed.
    present_page :
        (access : Access) (n : ℕ) (s : Vm)
        → IsServed flat n s
        → s.user_llpt (addr / pgsize) ≢ 0
        → s.user_llpt (addr / pgsize) / 64 % 2 ≡ 0
        → Attempted 3 access s
    present_page access n s h ne unset =
        let pte : ℕ = s.user_llpt (addr / pgsize) in
        let low = h.flags (addr / pgsize) ne in
        let t : Vm = with_entry (addr / pgsize) (pte + 64) s in
        let now : t.user_llpt (addr / pgsize) ≡ pte + 64 = entry_now s (pte + 64) in
        later 2 access s t (walk_user access pte low ∙ ground arith)
          (fault_accessed n (fault_cause access) s h.paged ne unset) (entry_rest s (pte + 64))
          (accessed_page 0 access n t
            (with_entry-IsServed flat n s h (addr / pgsize) (omega arith) (omega arith) 64 ne
              (λ flags k small e. room_64 flags k pte small e unset) (omega arith)
              (λ z. omega arith))
            (λ z. omega (arith, now, z)) (omega (arith, now)))

    -- A page without an entry is brought in first.
    absent_page :
        (access : Access) (n : ℕ) (s : Vm)
        → IsServed flat n s
        → s.user_llpt (addr / pgsize) ≡ 0
        → Attempted 4 access s
    absent_page access n s h none_yet =
        let page : ℕ = addr / pgsize in
        let least : 1 ≤ page = omega arith in
        let most : page ≤ 62 = omega arith in
        let t : Vm = with_page page n s in
        let now : t.user_llpt page ≡ entry (s.freelist_nodes n).addr =
          new_at n s h.paged page least most none_yet page refl in
        later 3 access s t (rw none_yet (nothing access))
          (map_page_lem frame walk n s h.paged addr above below none_yet (fault_cause access))
          (same_at n s h.paged page least most none_yet)
          (present_page access (suc n) t (with_page-IsServed flat n s h page least most none_yet)
            (λ z. omega (arith, now, z)) (omega (arith, now)))
      where
        nothing : (access : Access) → walk_faults access 0 ≡ true
        nothing fetch = refl
        nothing load = refl
        nothing store = refl

    -- Any access, where each page that has an entry is accessed.
    pub attempt_lem :
        (access : Access) (n : ℕ) (s : Vm)
        → IsServed flat n s
        → ((q : ℕ) → s.user_llpt q ≢ 0 → s.user_llpt q / 64 % 2 ≡ 1)
        → Attempted 4 access s
    attempt_lem access n s h settled = elim (Bool-cases (s.user_llpt (addr / pgsize) == 0)) [
      | inl absent ↦ absent_page access n s h ((==_iff (s.user_llpt (addr / pgsize)) 0).0 absent)
      | inr present ↦
          let ne = ==_ne (s.user_llpt (addr / pgsize)) 0 present in
          accessed_page 2 access n s h ne (settled (addr / pgsize) ne)
    ]
