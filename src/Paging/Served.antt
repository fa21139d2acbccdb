-- ===== src/Paging/Served.antt =====
-- What holds between two page faults: the pages are those of a flat memory, in their frames where
-- they have an entry and in the image where they have none or are clean.
use rvcomp.Strings.Comparing.{IsBytes}
use rvcomp.Base.{
  ℕ, suc, ◌+◌, ◌-◌, ◌*◌, ◌/◌, ◌%◌, ◌≤◌, ◌<◌, ◌≡◌, refl, sym, ap, ◌∙◌, ◌≢◌, inl, inr, true, ◌&&◌,
  arith, ltb, leb, ◌==◌, ==_iff, ==_ne, Bool-cases, Memory, update_ne, blit,
}
use rvcomp.Paging.Fault.{with_page}
use rvcomp.Paging.Invariant.{IsPaged, vm_boot-IsPaged}
use rvcomp.Paging.Mapping.{with_page-IsPaged, new_at, same_at, image_kept, arrived, others}
use rvcomp.Paging.Access.{with_entry, with_entry-IsPaged}
use rvcomp.Paging.{Vm, pgsize, dram_base, vm_boot}

pub record IsServed (flat : Memory) (n : ℕ) (s : Vm) : Type 0 where
  pub paged : IsPaged n s
  pub bytes : IsBytes s.mem
  pub flags : (q : ℕ) → s.user_llpt q ≢ 0 → s.user_llpt q % 32 ≡ 31
  pub contents :
      (q j : ℕ)
      → j < pgsize
      → s.user_llpt q ≢ 0
      → s.mem ((s.user_mapping q).addr + j) ≡ flat (q * pgsize + j)
  pub clean :
      (q j : ℕ)
      → q ≤ 62
      → j < pgsize
      → s.user_llpt q / 128 % 2 ≡ 0
      → s.mem (dram_base + q * pgsize + j) ≡ flat (q * pgsize + j)

-- At the boot the pages are those of the image.
pub vm_boot-IsServed :
    (entropy : ℕ) (m : Memory) → IsBytes m → IsServed (λ a. m (dram_base + a)) 0 (vm_boot entropy m)
unfolding vm_boot
vm_boot-IsServed entropy m small = record {
  paged = vm_boot-IsPaged entropy m;
  bytes = small;
  flags = λ q ne. absurd (ne refl);
  contents = λ q j lt ne. absurd (ne refl);
  clean = λ q j most lt z. ap m (omega arith);
}

pub blit-IsBytes : (m : Memory) (a b n : ℕ) → IsBytes m → IsBytes (blit m a m b n)
blit-IsBytes m a b n small q = elim (Bool-cases (leb a q && ltb q (a + n))) [
  | inl e ↦ rw e (small (b + (q - a)))
  | inr e ↦ rw e (small q)
]

module _ (flat : Memory) (n : ℕ) (s : Vm) (h : IsServed flat n s) (page : ℕ) (least : 1 ≤ page)
    (most : page ≤ 62) where
  module _ (no_entry : s.user_llpt page ≡ 0) where
    page_flags :
        (q : ℕ) → (with_page page n s).user_llpt q ≢ 0 → (with_page page n s).user_llpt q % 32 ≡ 31
    page_flags q ne = elim (Bool-cases (page == q)) [
      | inl e ↦
          let written = new_at n s h.paged page least most no_entry q ((==_iff page q).0 e) in
          omega (arith, written)
      | inr e ↦
          let kept = same_at n s h.paged page least most no_entry q (==_ne page q e) in
          let rest = h.flags q (λ z. ne (kept ∙ z)) in omega (arith, kept, rest)
    ]

    page_clean :
        (q j : ℕ)
        → q ≤ 62
        → j < pgsize
        → (with_page page n s).user_llpt q / 128 % 2 ≡ 0
        → (with_page page n s).mem (dram_base + q * pgsize + j) ≡ flat (q * pgsize + j)
    page_clean q j low lt z =
        image_kept n s h.paged page least most no_entry (dram_base + q * pgsize + j) (omega arith)
        ∙ h.clean q j low lt (elim (Bool-cases (page == q)) [
          | inl e ↦
              let empty : s.user_llpt q ≡ 0 =
                sym (ap s.user_llpt ((==_iff page q).0 e)) ∙ no_entry in
              omega (arith, empty)
          | inr e ↦
              let kept = same_at n s h.paged page least most no_entry q (==_ne page q e) in
              rw kept at z
        ])

    page_contents :
        (q j : ℕ)
        → j < pgsize
        → (with_page page n s).user_llpt q ≢ 0
        → (with_page page n s).mem (((with_page page n s).user_mapping q).addr + j)
          ≡ flat (q * pgsize + j)
    page_contents q j lt ne = elim (Bool-cases (page == q)) [
      | inl e ↦
          let here : page ≡ q = (==_iff page q).0 e in
          let unset : s.user_llpt page / 128 % 2 ≡ 0 = omega (arith, no_entry) in
          sym (
            ap
              (λ (k : ℕ). (with_page page n s).mem (((with_page page n s).user_mapping k).addr + j))
              here)
          ∙ (arrived n s h.paged page least most no_entry j lt
              ∙ (h.clean page j most lt unset ∙ ap (λ (k : ℕ). flat (k * pgsize + j)) here))
      | inr e ↦
          let other = ==_ne page q e in
          let old : s.user_llpt q ≢ 0 =
            λ z. ne (same_at n s h.paged page least most no_entry q other ∙ z) in
          others n s h.paged page least most no_entry q j other old lt ∙ h.contents q j lt old
    ]

    -- A page that is brought in has what the image has.
    pub with_page-IsServed : IsServed flat (suc n) (with_page page n s)
    with_page-IsServed = record {
      paged = with_page-IsPaged n s h.paged page least most no_entry;
      bytes =
          blit-IsBytes s.mem (s.freelist_nodes n).addr (dram_base + page * pgsize) pgsize h.bytes;
      flags = page_flags;
      contents = page_contents;
      clean = page_clean;
    }

  module _ (bit : ℕ) (ne : s.user_llpt page ≢ 0)
      (fits : (flags k : ℕ)
        → flags < 1024
        → s.user_llpt page ≡ flags + k * 1024
        → flags + bit < 1024)
      (above : bit % 32 ≡ 0)
      (only_set : (s.user_llpt page + bit) / 128 % 2 ≡ 0 → s.user_llpt page / 128 % 2 ≡ 0) where
    entry_at :
        (q : ℕ)
        → page ≡ q
        → (with_entry page (s.user_llpt page + bit) s).user_llpt q ≡ s.user_llpt q + bit
    entry_at q same =
        let here : (page == q) ≡ true = (==_iff page q).1 same in
        rw here (ap (λ (k : ℕ). s.user_llpt k + bit) same)

    entry_same :
        (q : ℕ)
        → page ≢ q
        → (with_entry page (s.user_llpt page + bit) s).user_llpt q ≡ s.user_llpt q
    entry_same q other = update_ne s.user_llpt page (s.user_llpt page + bit) q other

    had_entry :
        (q : ℕ) → (with_entry page (s.user_llpt page + bit) s).user_llpt q ≢ 0 → s.user_llpt q ≢ 0
    had_entry q set = elim (Bool-cases (page == q)) [
      | inl e ↦ λ z. ne (ap s.user_llpt ((==_iff page q).0 e) ∙ z)
      | inr e ↦ λ z. set (entry_same q (==_ne page q e) ∙ z)
    ]

    entry_flags :
        (q : ℕ)
        → (with_entry page (s.user_llpt page + bit) s).user_llpt q ≢ 0
        → (with_entry page (s.user_llpt page + bit) s).user_llpt q % 32 ≡ 31
    entry_flags q set =
        let old = h.flags q (had_entry q set) in
        elim (Bool-cases (page == q)) [
          | inl e ↦ let now = entry_at q ((==_iff page q).0 e) in omega (arith, now, old)
          | inr e ↦ let now = entry_same q (==_ne page q e) in omega (arith, now, old)
        ]

    entry_clean :
        (q : ℕ)
        → (with_entry page (s.user_llpt page + bit) s).user_llpt q / 128 % 2 ≡ 0
        → s.user_llpt q / 128 % 2 ≡ 0
    entry_clean q z = elim (Bool-cases (page == q)) [
      | inl e ↦
          let same = (==_iff page q).0 e in
          let now : s.user_llpt page + bit
              ≡ (with_entry page (s.user_llpt page + bit) s).user_llpt q =
            rw e refl in
          rw same at (only_set (ap (λ (k : ℕ). k / 128 % 2) now ∙ z))
      | inr e ↦ rw (entry_same q (==_ne page q e)) at z
    ]

    -- A flag that is set leaves every page as it is.
    pub with_entry-IsServed : IsServed flat n (with_entry page (s.user_llpt page + bit) s)
    with_entry-IsServed = record {
      paged = with_entry-IsPaged n s page bit h.paged least most ne fits;
      bytes = h.bytes;
      flags = entry_flags;
      contents = λ q j lt set. h.contents q j lt (had_entry q set);
      clean = λ q j low lt z. h.clean q j low lt (entry_clean q z);
    }
