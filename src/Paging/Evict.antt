-- ===== src/Paging/Evict.antt =====
-- The eviction of a page: a dirty page is written back to the image, a clean one is left.
use rvcomp.Strings.Comparing.{IsBytes}
use rvcomp.Base.{
  ℕ, ◌+◌, ◌*◌, ◌/◌, ◌^◌, ◌≤◌, ◌<◌, bit_and, ◌≡◌, refl, ap, ◌∙◌, ◌≢◌, inl, inr, true, false, ◌&&◌,
  Option, arith, ltb, leb, ◌==◌, ==_iff, Bool-cases, Memory, blit,
}
use rvcomp.Paging.Back.{dirty_back, clean_back, lost_back}
use rvcomp.Paging.Invariant.{nonzero_test}
use rvcomp.Paging.{
  Vm, running, pgsize, dram_base, pte_d, null, free_node, mapped_node, terminated, free_last, Link,
  max_test_pages, pte_a, set_node, evict,
}

-- The end of evict goes on, and changes no address and no byte.
free_last_lem :
    (pf_filter : ℕ → Option ℕ) (frame : ℕ → ℕ) (page : ℕ) (s : Vm)
    → (t : Vm) × (free_last pf_filter frame page s ≡ running t)
      × ((q : ℕ) → (t.user_mapping q).addr ≡ (s.user_mapping q).addr)
      × (t.user_llpt ≡ s.user_llpt)
      × (t.mem ≡ s.mem)
unfolding free_last
free_last_lem pf_filter frame page s = go s.freelist_tail refl
  where
    kept_addr :
        (i q : ℕ)
        → (set_node s.user_mapping i (record (s.user_mapping i) { next = mapped_node page }) q).addr
          ≡ (s.user_mapping q).addr
    kept_addr i q = elim (Bool-cases (i == q)) [
      | inl same ↦ rw same (ap (λ (k : ℕ). (s.user_mapping k).addr) ((==_iff i q).0 same))
      | inr other ↦ rw other refl
    ]

    go :
        (l : Link)
        → s.freelist_tail ≡ l
        → (t : Vm) × (free_last pf_filter frame page s ≡ running t)
          × ((q : ℕ) → (t.user_mapping q).addr ≡ (s.user_mapping q).addr)
          × (t.user_llpt ≡ s.user_llpt)
          × (t.mem ≡ s.mem)
    go null e = (
      record s { freelist_head = mapped_node page; freelist_tail = mapped_node page },
      rw e refl,
      λ q. refl,
      refl,
      refl,
    )
    go (free_node i) e = (
      record s {
        freelist_nodes =
            set_node s.freelist_nodes i (record (s.freelist_nodes i) { next = mapped_node page });
        freelist_tail = mapped_node page;
      },
      rw e refl,
      λ q. refl,
      refl,
      refl,
    )
    go (mapped_node i) e = (
      record s {
        user_mapping =
            set_node s.user_mapping i (record (s.user_mapping i) { next = mapped_node page });
        freelist_tail = mapped_node page;
      },
      rw e refl,
      kept_addr i,
      refl,
      refl,
    )

-- The mapping of the page is free, and that of every other page and the page table are as before.
abbrev pub IsFreed : ℕ → Vm → Vm → Type 0
IsFreed page s t =
    ((t.user_mapping page).addr ≡ 0)
    × ((q : ℕ) → page ≢ q → (t.user_mapping q).addr ≡ (s.user_mapping q).addr)
    × (t.user_llpt ≡ s.user_llpt)

-- With its page accessed and its mapping in use, evict of a page of the test brings the image up
-- to date when the entry's dirty bit is set: every byte of the page is then in the image, every
-- other byte as before, and the mapping is free, all other mappings and the page table as they were. Without that bit it does the same with no change
-- of the memory when page and image are equal, and ends the test with the code 3 when a byte
-- differs. The page's frame is behind the image and ends before the last word of the address space.
pub evict_lem :
    (pf_filter : ℕ → Option ℕ) (frame : ℕ → ℕ) (s : Vm) (page : ℕ)
    → 1 ≤ page
    → page ≤ 62
    → IsBytes s.mem
    → dram_base + 63 * pgsize ≤ frame (s.user_llpt page)
    → frame (s.user_llpt page) + pgsize + 4 < 2 ^ 32
    → bit_and (s.user_llpt page) pte_a ≢ 0
    → (s.user_mapping page).addr ≢ 0
    → let src = frame (s.user_llpt page) in
      let dest = dram_base + page * pgsize in
      let result = evict pf_filter frame (page * pgsize) s in
      (bit_and (s.user_llpt page) pte_d ≢ 0
        → (t : Vm) × (result ≡ running t)
          × IsFreed page s t
          × ((q : ℕ) → t.mem q ≡ blit s.mem dest s.mem src pgsize q))
      × (bit_and (s.user_llpt page) pte_d ≡ 0
          → ((j : ℕ) → j < pgsize → s.mem (src + j) ≡ s.mem (dest + j))
          → (t : Vm) × (result ≡ running t) × IsFreed page s t × (t.mem ≡ s.mem))
      × ((j : ℕ)
          → bit_and (s.user_llpt page) pte_d ≡ 0
          → j < pgsize
          → s.mem (src + j) ≢ s.mem (dest + j)
          → result ≡ terminated 3)
unfolding evict
evict_lem pf_filter frame s page least most bytes behind ends accessed in_use =
    let guard : (leb pgsize (page * pgsize) && ltb (page * pgsize) (max_test_pages * pgsize))
        ≡ true =
      ground arith in
    let a = nonzero_test (bit_and (s.user_llpt page) pte_a) accessed in
    let used = nonzero_test (s.user_mapping page).addr in_use in
    let page_is : page * pgsize / pgsize ≡ page = omega arith in
    let freed : Memory → Vm = λ m. record s {
      mem = m;
      user_mapping = set_node s.user_mapping page (record (s.user_mapping page) { addr = 0 });
    } in
    let zeroed : (page == page) ≡ true = (==_iff page page).1 refl in
    let rest : (q : ℕ)
        → page ≢ q
        → (set_node s.user_mapping page (record (s.user_mapping page) { addr = 0 }) q).addr
          ≡ (s.user_mapping q).addr =
      λ q ne. let other : (page == q) ≡ false = ground arith in rw other refl in
    (
      λ dirty.
          let (m, back, bytes') =
            dirty_back pf_filter frame s page least most bytes behind ends dirty in
          let (t, run, addr, llpt, mem) = free_last_lem pf_filter frame page (freed m) in
          (
            t,
            rw (page_is, guard, used, a, back) run,
            (addr page ∙ rw zeroed refl, λ q ne. addr q ∙ rest q ne, llpt),
            λ q. ap (λ (x : Memory). x q) mem ∙ bytes' q,
          ),
      (λ clean same.
          let back = clean_back pf_filter frame s page least most bytes behind ends clean same in
          let (t, run, addr, llpt, mem) = free_last_lem pf_filter frame page (freed s.mem) in
          (
            t,
            rw (page_is, guard, used, a, back) run,
            (addr page ∙ rw zeroed refl, λ q ne. addr q ∙ rest q ne, llpt),
            mem,
          )),
      λ j clean lt ne.
          let back = lost_back pf_filter frame s page least most bytes behind ends j clean lt ne in
          rw (page_is, guard, used, a, back) refl,
    )
