-- ===== src/Paging/Finish.antt =====
-- The end of a test: every page is back in the image.
use rvcomp.Strings.Comparing.{IsBytes}
use rvcomp.Base.{
  ℕ, ◌+◌, ◌*◌, ◌/◌, ◌≤◌, ◌<◌, bit_and, ◌≡◌, refl, sym, ap, ◌∙◌, ◌≢◌, ◌⊎◌, inl, inr, true, false,
  ◌&&◌, arith, ltb, leb, ◌==◌, ==_iff, ==_ne, Bool-cases, Memory, blit,
}
use rvcomp.Paging.Served.{blit-IsBytes}
use rvcomp.Paging.Evict.{IsFreed, evict_lem}
use rvcomp.Paging.Mapping.{blit_at}
use rvcomp.Paging.{Vm, running, max_test_pages, pgsize, dram_base, pte_a, pte_d, no_filter, evict}

module _ (frame : ℕ → ℕ) (flat : Memory) where
  -- The image has the page as the flat memory has it.
  abbrev pub IsBack : Vm → ℕ → Type 0
  IsBack s q = (j : ℕ) → j < pgsize → s.mem (dram_base + q * pgsize + j) ≡ flat (q * pgsize + j)

  -- A page that is in the image, or whose frame has it: accessed, and dirty where the image differs.
  abbrev pub IsHeld : Vm → ℕ → Type 0
  IsHeld s q =
      ((s.user_mapping q).addr ≢ 0)
      × (bit_and (s.user_llpt q) pte_a ≢ 0)
      × (dram_base + 64 * pgsize ≤ frame (s.user_llpt q))
      × (frame (s.user_llpt q) ≤ dram_base + 126 * pgsize)
      × ((j : ℕ) → j < pgsize → s.mem (frame (s.user_llpt q) + j) ≡ flat (q * pgsize + j))
      × (bit_and (s.user_llpt q) pte_d ≡ 0 → IsBack s q)

  abbrev pub IsDue : Vm → ℕ → Type 0
  IsDue s q = ((s.user_mapping q).addr ≡ 0) × IsBack s q ⊎ IsHeld s q

  evict_free :
      (s : Vm) (page : ℕ)
      → 1 ≤ page
      → page ≤ 62
      → (s.user_mapping page).addr ≡ 0
      → evict no_filter frame (page * pgsize) s ≡ running s
  unfolding evict
  evict_free s page least most z =
      let guard : (leb pgsize (page * pgsize) && ltb (page * pgsize) (max_test_pages * pgsize))
          ≡ true =
        ground arith in
      let page_is : page * pgsize / pgsize ≡ page = omega arith in
      let unused : ((s.user_mapping page).addr == 0) ≡ true =
        (==_iff (s.user_mapping page).addr 0).1 z in
      rw (page_is, guard, unused) refl

  -- One page brought back.
  abbrev Evicted : Vm → ℕ → Type 0
  Evicted s page =
      (t : Vm) × (evict no_filter frame (page * pgsize) s ≡ running t)
      × IsFreed page s t
      × IsBack t page
      × ((a : ℕ) → a < dram_base + page * pgsize → t.mem a ≡ s.mem a)
      × ((a : ℕ) → dram_base + page * pgsize + pgsize ≤ a → t.mem a ≡ s.mem a)
      × IsBytes t.mem

  module _ (s : Vm) (page : ℕ) (least : 1 ≤ page) (most : page ≤ 62) (bytes : IsBytes s.mem) where
    evict_held : IsHeld s page → Evicted s page
    evict_held (used, accessed, low, high, here, clean) =
        let (dirty_case, clean_case, lost_case) =
          evict_lem no_filter frame s page least most bytes (omega arith) (omega arith) accessed
            used in
        elim (Bool-cases (bit_and (s.user_llpt page) pte_d == 0)) [
          | inl e ↦
              let unset = (==_iff (bit_and (s.user_llpt page) pte_d) 0).0 e in
              let (t, run, freed, mem) =
                clean_case unset (λ j lt. here j lt ∙ sym (clean unset j lt)) in
              let at : (a : ℕ) → t.mem a ≡ s.mem a = λ a. ap (λ (m : Memory). m a) mem in
              (
                t,
                run,
                freed,
                (λ j lt. at (dram_base + page * pgsize + j) ∙ clean unset j lt),
                (λ a lt. at a),
                (λ a lt. at a),
                λ a. rw (at a) (bytes a),
              )
          | inr e ↦
              let set = ==_ne (bit_and (s.user_llpt page) pte_d) 0 e in
              let (t, run, freed, mem) = dirty_case set in
              (
                t,
                run,
                freed,
                (λ j lt.
                    mem (dram_base + page * pgsize + j)
                    ∙ (blit_at s.mem (dram_base + page * pgsize) (frame (s.user_llpt page)) j lt
                        ∙ here j lt)),
                (λ a lt. mem a ∙ before a lt),
                (λ a le. mem a ∙ behind a le),
                λ a. rw (mem a) (
                    blit-IsBytes s.mem (dram_base + page * pgsize) (frame (s.user_llpt page)) pgsize
                      bytes a),
              )
        ]
      where
        before :
            (a : ℕ)
            → a < dram_base + page * pgsize
            → blit s.mem (dram_base + page * pgsize) s.mem (frame (s.user_llpt page)) pgsize a
              ≡ s.mem a
        before a lt =
            let out : leb (dram_base + page * pgsize) a ≡ false = ground arith in rw out refl

        behind :
            (a : ℕ)
            → dram_base + page * pgsize + pgsize ≤ a
            → blit s.mem (dram_base + page * pgsize) s.mem (frame (s.user_llpt page)) pgsize a
              ≡ s.mem a
        behind a le =
            let out : (leb (dram_base + page * pgsize) a
                  && ltb a (dram_base + page * pgsize + pgsize))
                ≡ false =
              ground arith in
            rw out refl

    pub evict_one : IsDue s page → Evicted s page
    evict_one (inr held) = evict_held held
    evict_one (inl (z, back)) = (
      s,
      evict_free s page least most z,
      (z, (λ q ne. refl), refl),
      back,
      (λ a lt. refl),
      (λ a le. refl),
      bytes,
    )

    -- No other page loses what it has.
    pub evict_others : (e : Evicted s page) (q : ℕ) → q ≤ 62 → page ≢ q → IsDue s q → IsDue e.0 q
    evict_others (t, run, (freed, addrs, llpt), here, low_same, high_same, small) q le ne due =
        go due
      where
        entry_kept : t.user_llpt q ≡ s.user_llpt q
        entry_kept = ap (λ (f : ℕ → ℕ). f q) llpt

        image_same : IsBack s q → IsBack t q
        image_same back j lt = elim (Bool-cases (ltb q page)) [
          | inl e ↦ low_same (dram_base + q * pgsize + j) (ground arith) ∙ back j lt
          | inr e ↦
              high_same (dram_base + q * pgsize + j)
                (let above : page < q = ground arith in omega arith)
              ∙ back j lt
        ]

        go : IsDue s q → IsDue t q
        go (inl (z, back)) = inl (addrs q ne ∙ z, image_same back)
        go (inr (used, accessed, low, high, has, clean)) = inr (
            rw (addrs q ne, entry_kept)
              (
                used,
                accessed,
                low,
                high,
                (λ j lt. high_same (frame (s.user_llpt q) + j) (omega arith) ∙ has j lt),
                λ z. image_same (clean z),
              ))
