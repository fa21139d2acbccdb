-- ===== src/Paging/Access.antt =====
-- Page faults on pages that have an entry, and every sequence of faults from the boot on.
use rvcomp.Base.{
  ℕ, ◌+◌, ◌*◌, ◌/◌, ◌%◌, ◌≤◌, ◌<◌, bit_and, ◌≡◌, refl, ap, ◌∙◌, ◌≢◌, inl, inr, true, ◌&&◌, ◌||◌,
  arith, ltb, leb, ◌==◌, if◌then◌else◌, ==_iff, Bool-cases, update,
}
use rvcomp.Bits.Flags.{or_64, or_128, and_64, and_128}
use rvcomp.Paging.Invariant.{IsPaged, entries-update, nonzero_test, IsMapped}
use rvcomp.Paging.{
  Vm, running, terminated, max_test_pages, pgsize, cause_store_page_fault, no_filter, handle_fault,
}

abbrev pub with_entry : ℕ → ℕ → Vm → Vm
with_entry page pte s = record s { user_llpt = update s.user_llpt page pte }

module _ (n : ℕ) (s : Vm) (page bit : ℕ) (h : IsPaged n s) (least : 1 ≤ page) (most : page ≤ 62)
    (ne : s.user_llpt page ≢ 0)
    (fits : (flags k : ℕ)
      → flags < 1024
      → s.user_llpt page ≡ flags + k * 1024
      → flags + bit < 1024) where
  still : (q : ℕ) → s.user_llpt q ≡ 0 → update s.user_llpt page (s.user_llpt page + bit) q ≡ 0
  still q z = elim (Bool-cases (page == q)) [
    | inl e ↦ absurd (ne (ap s.user_llpt ((==_iff page q).0 e) ∙ z))
    | inr e ↦ rw e z
  ]

  unset : (q : ℕ) → update s.user_llpt page (s.user_llpt page + bit) q ≡ 0 → s.user_llpt q ≡ 0
  unset q z = elim (Bool-cases (page == q)) [
    | inl e ↦ let zero_sum : s.user_llpt page + bit ≡ 0 = rw e at z in absurd (ne (omega arith))
    | inr e ↦ rw e at z
  ]

  same_page :
      (q : ℕ) → s.user_llpt q ≢ 0 → IsMapped n (with_entry page (s.user_llpt page + bit) s) q
  same_page q set =
      let (i, lt, at, (flags, small, pte)) = h.mapped q set in
      (
        i,
        lt,
        at,
        elim (Bool-cases (page == q)) [
          | inl e ↦
              let here : page ≡ q = (==_iff page q).0 e in
              let pte' : s.user_llpt page ≡ flags + (s.freelist_nodes i).addr / pgsize * 1024 =
                ap s.user_llpt here ∙ pte in
              rw e (
                flags + bit,
                fits flags ((s.freelist_nodes i).addr / pgsize) small pte',
                omega (arith, pte'),
              )
          | inr e ↦ rw e (flags, small, pte)
        ],
      )

  -- More flags in an entry change nothing of what holds of the page table.
  pub with_entry-IsPaged : IsPaged n (with_entry page (s.user_llpt page + bit) s)
  with_entry-IsPaged = record {
    pool = h.pool;
    taken =
        entries-update s.user_llpt 62 page (s.user_llpt page + bit) least most
          (λ z. ne (omega arith))
        ∙ rw (nonzero_test (s.user_llpt page) ne) (omega (arith, h.taken));
    head = h.head;
    unmapped = λ q z. h.unmapped q (unset q z);
    mapped = λ q set. same_page q (λ z. set (still q z));
    apart = λ p q differ np nq. h.apart p q differ (λ z. np (still p z)) (λ z. nq (still q z));
  }

pub test_64 : (p : ℕ) → (bit_and p 64 == 0) ≡ (p / 64 % 2 == 0)
test_64 p = ground (arith, and_64 p)

pub test_128 : (p : ℕ) → (bit_and p 128 == 0) ≡ (p / 128 % 2 == 0)
test_128 p = ground (arith, and_128 p)

pub room_64 :
    (flags k pte : ℕ) → flags < 1024 → pte ≡ flags + k * 1024 → pte / 64 % 2 ≡ 0 → flags + 64 < 1024
room_64 flags k pte small e z = omega arith

pub room_128 :
    (flags k pte : ℕ)
    → flags < 1024
    → pte ≡ flags + k * 1024
    → pte / 128 % 2 ≡ 0
    → flags + 128 < 1024
room_128 flags k pte small e z = omega arith

-- A page fault on a page that has an entry sets the entry's accessed bit, where it is clear;
-- otherwise it sets the dirty bit, for a store where that bit is clear; and otherwise it ends the
-- test with the code 3. Nothing else changes, and what holds of the page table holds on.
pub access_lem :
    (frame : ℕ → ℕ) (n : ℕ) (s : Vm) (addr cause : ℕ)
    → IsPaged n s
    → pgsize ≤ addr
    → addr < max_test_pages * pgsize
    → s.user_llpt (addr / pgsize) ≢ 0
    → let page = addr / pgsize in
      let pte = s.user_llpt page in
      let after =
        if pte / 64 % 2 == 0 then with_entry page (pte + 64) s else with_entry page (pte + 128) s in
      let goes_on = pte / 64 % 2 == 0 || pte / 128 % 2 == 0 && cause == cause_store_page_fault in
      (handle_fault no_filter frame addr cause s
        ≡ (if goes_on then running after else terminated 3))
      × (goes_on ≡ true → IsPaged n after)
unfolding handle_fault
access_lem frame n s addr cause h above below ne =
    let page : ℕ = addr / pgsize in
    let pte : ℕ = s.user_llpt page in
    let guard : (leb pgsize addr && ltb addr (max_test_pages * pgsize)) ≡ true = ground arith in
    let present = nonzero_test (s.user_llpt (addr / pgsize)) ne in
    let least : 1 ≤ page = omega arith in
    let most : page ≤ 62 = omega arith in
    elim (Bool-cases (s.user_llpt (addr / pgsize) / 64 % 2 == 0)) [
      | inl a ↦
          let clear_bit = (==_iff (s.user_llpt (addr / pgsize) / 64 % 2) 0).0 a in
          rw
            (
              guard,
              present,
              test_64 (s.user_llpt (addr / pgsize)),
              a,
              or_64 (s.user_llpt (addr / pgsize)) clear_bit,
            )
            (
              refl,
              λ _.
                  with_entry-IsPaged n s page 64 h least most ne
                    (λ flags k small e. room_64 flags k pte small e clear_bit),
            )
      | inr a ↦ elim (Bool-cases (s.user_llpt (addr / pgsize) / 128 % 2 == 0)) [
        | inl d ↦
            let clear_bit = (==_iff (s.user_llpt (addr / pgsize) / 128 % 2) 0).0 d in
            rw
              (
                guard,
                present,
                test_64 (s.user_llpt (addr / pgsize)),
                a,
                test_128 (s.user_llpt (addr / pgsize)),
                d,
                or_128 (s.user_llpt (addr / pgsize)) clear_bit,
              )
              (
                refl,
                λ _.
                    with_entry-IsPaged n s page 128 h least most ne
                      (λ flags k small e. room_128 flags k pte small e clear_bit),
              )
        | inr d ↦
            rw
              (
                guard,
                present,
                test_64 (s.user_llpt (addr / pgsize)),
                a,
                test_128 (s.user_llpt (addr / pgsize)),
                d,
              )
              (refl, λ no. absurd (ground arith))
      ]
    ]
