-- ===== src/Paging/Mapping.antt =====
-- A page fault keeps what holds of the page table, and brings the page's contents.
use rvcomp.Base.{
  ℕ, suc, ◌+◌, ◌-◌, ◌*◌, ◌/◌, ◌%◌, ◌≤◌, ◌<◌, ◌≡◌, refl, sym, ap, ◌∙◌, ◌≢◌, inl, inr, true, false,
  ◌&&◌, arith, ltb, leb, ◌==◌, ==_iff, ==_ne, Bool-cases, Memory, blit,
}
use rvcomp.Paging.Fault.{entry, with_page, IsWalk, map_page_lem}
use rvcomp.Paging.Invariant.{entries, IsMapped, IsPaged, entries-room, entries-twice, nth_link}
use rvcomp.Paging.{
  Vm, Node, pte_user, running, max_test_pages, pgsize, dram_base, no_filter, handle_fault,
}

-- A copy of one page leaves the bytes of another one alone.
pub blit_apart :
    (m : Memory) (d t a j : ℕ)
    → d % pgsize ≡ 0
    → a % pgsize ≡ 0
    → a ≢ d
    → j < pgsize
    → blit m d m t pgsize (a + j) ≡ m (a + j)
blit_apart m d t a j hd ha ne lt =
    let outside : (leb d (a + j) && ltb (a + j) (d + pgsize)) ≡ false = ground arith in
    rw outside refl

pub blit_at : (m : Memory) (d t j : ℕ) → j < pgsize → blit m d m t pgsize (d + j) ≡ m (t + j)
blit_at m d t j lt =
    let inside : (leb d (d + j) && ltb (d + j) (d + pgsize)) ≡ true = ground arith in
    let back : d + j - d ≡ j = omega arith in rw (inside, back) refl

module _ (n : ℕ) (s : Vm) (h : IsPaged n s) (page : ℕ) (least : 1 ≤ page) (most : page ≤ 62)
    (no_entry : s.user_llpt page ≡ 0) where
  room_left : n < 63
  room_left = omega (arith, entries-room s.user_llpt 62 page least most no_entry, h.taken)

  pub new_at :
      (q : ℕ) → page ≡ q → (with_page page n s).user_llpt q ≡ entry (s.freelist_nodes n).addr
  new_at q same = let here : (page == q) ≡ true = (==_iff page q).1 same in rw here refl

  pub same_at : (q : ℕ) → page ≢ q → (with_page page n s).user_llpt q ≡ s.user_llpt q
  same_at q ne = ground arith

  pub mapping_at : (q : ℕ) → page ≡ q → (with_page page n s).user_mapping q ≡ s.freelist_nodes n
  mapping_at q same = let here : (page == q) ≡ true = (==_iff page q).1 same in rw here refl

  mapping_same : (q : ℕ) → page ≢ q → (with_page page n s).user_mapping q ≡ s.user_mapping q
  mapping_same q ne = let other : (page == q) ≡ false = ground arith in rw other refl

  taken_next : entries (with_page page n s).user_llpt 62 ≡ suc n
  taken_next =
      let a = (s.freelist_nodes n).addr in
      entries-twice s.user_llpt 62 page (entry a + 64 + 128) (entry a) least most (omega arith)
        (omega arith) no_entry
      ∙ ap suc h.taken

  -- Each page is the one that is new, or one that had its entry.
  next-IsMapped :
      (q : ℕ) → (with_page page n s).user_llpt q ≢ 0 → IsMapped (suc n) (with_page page n s) q
  next-IsMapped q ne = elim (Bool-cases (page == q)) [
    | inl e ↦
        let here : page ≡ q = (==_iff page q).0 e in
        let a = (s.freelist_nodes n).addr in
        (n, omega arith, ap Node.addr (mapping_at q here), (pte_user, omega arith, new_at q here))
    | inr e ↦
        let ne' : page ≢ q = ==_ne page q e in
        let (i, lt, at, (flags, small, pte)) = h.mapped q (λ z. ne (same_at q ne' ∙ z)) in
        (
          i,
          omega arith,
          ap Node.addr (mapping_same q ne') ∙ at,
          (flags, small, same_at q ne' ∙ pte),
        )
  ]

  -- The node that is taken is none that a page has.
  fresh : (q : ℕ) → s.user_llpt q ≢ 0 → (s.user_mapping q).addr ≢ (s.freelist_nodes n).addr
  fresh q ne same =
      let (i, lt, at, e) = h.mapped q ne in h.pool.differ i n lt room_left (sym at ∙ same)

  apart_next :
      (p q : ℕ)
      → p ≢ q
      → (with_page page n s).user_llpt p ≢ 0
      → (with_page page n s).user_llpt q ≢ 0
      → ((with_page page n s).user_mapping p).addr ≢ ((with_page page n s).user_mapping q).addr
  apart_next p q ne np nq = elim (Bool-cases (page == p)) [
    | inl e ↦
        let here : page ≡ p = (==_iff page p).0 e in
        let other : page ≢ q = λ same. ne (sym here ∙ same) in
        λ same.
          fresh q (λ z. nq (same_at q other ∙ z))
            (sym (ap Node.addr (mapping_same q other))
              ∙ (sym same ∙ ap Node.addr (mapping_at p here)))
    | inr e ↦
        let ne' = ==_ne page p e in
        elim (Bool-cases (page == q)) [
          | inl e' ↦
              let here : page ≡ q = (==_iff page q).0 e' in
              λ same.
                fresh p (λ z. np (same_at p ne' ∙ z))
                  (sym (ap Node.addr (mapping_same p ne'))
                    ∙ (same ∙ ap Node.addr (mapping_at q here)))
          | inr e' ↦
              let other = ==_ne page q e' in
              λ same.
                h.apart p q ne (λ z. np (same_at p ne' ∙ z)) (λ z. nq (same_at q other ∙ z))
                  (sym (ap Node.addr (mapping_same p ne'))
                    ∙ (same ∙ ap Node.addr (mapping_same q other)))
        ]
  ]

  unmapped_next :
      (q : ℕ)
      → (with_page page n s).user_llpt q ≡ 0
      → ((with_page page n s).user_mapping q).addr ≡ 0
  unmapped_next q z = elim (Bool-cases (page == q)) [
    | inl e ↦
        let here : page ≡ q = (==_iff page q).0 e in
        let written = new_at q here in absurd (omega arith)
    | inr e ↦
        let ne' = ==_ne page q e in
        ap Node.addr (mapping_same q ne') ∙ h.unmapped q (sym (same_at q ne') ∙ z)
  ]

  pub with_page-IsPaged : IsPaged (suc n) (with_page page n s)
  with_page-IsPaged = record {
    pool = h.pool;
    taken = taken_next;
    head = h.pool.linked n room_left ∙ ap nth_link (omega arith);
    unmapped = unmapped_next;
    mapped = next-IsMapped;
    apart = apart_next;
  }

  -- Pages that begin at different multiples of the page size do not overlap.
  kept :
      (q j : ℕ)
      → s.user_llpt q ≢ 0
      → j < pgsize
      → blit s.mem
          (s.freelist_nodes n).addr
          s.mem
          (dram_base + page * pgsize)
          pgsize
          ((s.user_mapping q).addr + j)
        ≡ s.mem ((s.user_mapping q).addr + j)
  kept q j ne lt =
      let (i, less, at, e) = h.mapped q ne in
      blit_apart s.mem (s.freelist_nodes n).addr (dram_base + page * pgsize) (s.user_mapping q).addr
        j (h.pool.aligned n room_left)
        (ap (λ (a : ℕ). a % pgsize) at ∙ h.pool.aligned i (omega (arith, room_left))) (fresh q ne)
        lt

  has_entry : (with_page page n s).user_llpt page ≢ 0
  has_entry z = let e = new_at page refl in absurd (omega (arith, e, z))

  pub arrived :
      (j : ℕ)
      → j < pgsize
      → (with_page page n s).mem (((with_page page n s).user_mapping page).addr + j)
        ≡ s.mem (dram_base + page * pgsize + j)
  arrived j lt =
      ap (λ (node : Node). (with_page page n s).mem (node.addr + j)) (mapping_at page refl)
      ∙ blit_at s.mem (s.freelist_nodes n).addr (dram_base + page * pgsize) j lt

  pub others :
      (q j : ℕ)
      → page ≢ q
      → s.user_llpt q ≢ 0
      → j < pgsize
      → (with_page page n s).mem (((with_page page n s).user_mapping q).addr + j)
        ≡ s.mem ((s.user_mapping q).addr + j)
  others q j ne mapped lt =
      ap (λ (node : Node). (with_page page n s).mem (node.addr + j)) (mapping_same q ne)
      ∙ kept q j mapped lt

  pub image_kept : (a : ℕ) → a < dram_base + 64 * pgsize → (with_page page n s).mem a ≡ s.mem a
  image_kept a lt =
      let low = h.pool.low n room_left in
      let outside : (leb (s.freelist_nodes n).addr a && ltb a ((s.freelist_nodes n).addr + pgsize))
          ≡ false =
        ground arith in
      rw outside refl

-- A page fault on a page without an entry, between pages 1 and 62, always finds a free page: the
-- page gets it, with the contents that the test's image has for it, and what holds of the page
-- table holds on. No other page of the test loses its entry's page or its contents, and the image
-- stays as it is. The list is as vm_boot left it but for the pages taken so far.
pub handle_fault_lem :
    (frame : ℕ → ℕ) (n : ℕ) (s : Vm) (addr cause : ℕ)
    → IsWalk frame
    → IsPaged n s
    → pgsize ≤ addr
    → addr < max_test_pages * pgsize
    → s.user_llpt (addr / pgsize) ≡ 0
    → let page = addr / pgsize in
      (s' : Vm) × (handle_fault no_filter frame addr cause s ≡ running s')
      × IsPaged (suc n) s'
      × (s'.user_llpt page ≢ 0)
      × ((j : ℕ)
          → j < pgsize
          → s'.mem ((s'.user_mapping page).addr + j) ≡ s.mem (dram_base + page * pgsize + j))
      × ((q j : ℕ)
          → page ≢ q
          → s.user_llpt q ≢ 0
          → j < pgsize
          → s'.mem ((s'.user_mapping q).addr + j) ≡ s.mem ((s.user_mapping q).addr + j))
      × ((a : ℕ) → a < dram_base + 64 * pgsize → s'.mem a ≡ s.mem a)
handle_fault_lem frame n s addr cause walk h above below no_entry =
    let page : ℕ = addr / pgsize in
    let least : 1 ≤ page = omega arith in
    let most : page ≤ 62 = omega arith in
    (
      with_page page n s,
      map_page_lem frame walk n s h addr above below no_entry cause,
      with_page-IsPaged n s h page least most no_entry,
      has_entry n s h page least most no_entry,
      arrived n s h page least most no_entry,
      others n s h page least most no_entry,
      image_kept n s h page least most no_entry,
    )
