-- ===== src/Paging/Back.antt =====
-- The write-back of a page: what the comparison tells and what the copy leaves.
use rvcomp.Strings.Comparing.{IsBytes, Compared, memcmp_lem}
use rvcomp.Strings.Copying.{memcpy_lem}
use rvcomp.Strings.{memcpy, memcmp}
use rvcomp.Base.Int.{ℤ, pos, minus}
use rvcomp.Base.{
  ℕ, zero, suc, ◌+◌, ◌-◌, ◌*◌, ◌/◌, ◌^◌, ◌≤◌, ◌<◌, bit_and, ◌≡◌, refl, sym, ap, ◌∙◌, ◌≢◌, inl, inr,
  true, false, ◌&&◌, Option, some, arith, ltb, leb, ◌==◌, ==_iff, Bool-cases, Memory, blit,
}
use rvcomp.Paging.Fault.{copy_page_lem}
use rvcomp.Paging.Invariant.{nonzero_test}
use rvcomp.Paging.{Vm, running, pgsize, dram_base, pte_d, write_back, is_zero, terminated}

zero-minus : (a b : ℕ) → is_zero (minus (pos a) b) ≡ true → a ≡ b
zero-minus a b h = elim (Bool-cases (leb b a)) [
  | inl e ↦ gap (a - b) (ground arith) (rw e at h)
  | inr e ↦ absurd (ground arith)
]
  where
    gap : (d : ℕ) → a ≡ b + d → is_zero (pos d) ≡ true → a ≡ b
    gap zero e z = omega arith
    gap (suc d) e z = absurd (ground arith)

-- The comparison gives 0 just when the bytes are equal.
Compared-zero :
    (n s1 s2 : ℕ) (m : Memory) (r : ℤ)
    → Compared n s1 s2 m r
    → is_zero r ≡ true
    → (j : ℕ) → j < n
    → m (s1 + j) ≡ m (s2 + j)
Compared-zero n s1 s2 m r (inl (same, e)) z = same
Compared-zero n s1 s2 m r (inr (i, lt, same, ne, e)) z =
    absurd (ne (zero-minus (m (s1 + i)) (m (s2 + i)) (rw e at z)))

Compared-differ :
    (n s1 s2 : ℕ) (m : Memory) (r : ℤ) (j : ℕ)
    → Compared n s1 s2 m r
    → j < n
    → m (s1 + j) ≢ m (s2 + j)
    → is_zero r ≡ false
Compared-differ n s1 s2 m r j (inl (same, e)) lt differs = absurd (differs (same j lt))
Compared-differ n s1 s2 m r j (inr (i, less, same, ne, e)) lt differs =
    elim (Bool-cases (is_zero r)) [
      | inl z ↦ absurd (ne (zero-minus (m (s1 + i)) (m (s2 + i)) (rw e at z)))
      | inr z ↦ z
    ]

Compared-same :
    (n s1 s2 : ℕ) (m : Memory) (r : ℤ)
    → Compared n s1 s2 m r
    → ((j : ℕ) → j < n → m (s1 + j) ≡ m (s2 + j))
    → is_zero r ≡ true
Compared-same n s1 s2 m r (inl (same, e)) all = rw e refl
Compared-same n s1 s2 m r (inr (i, less, same, ne, e)) all = absurd (ne (all i less))

module _ (pf_filter : ℕ → Option ℕ) (frame : ℕ → ℕ) (s : Vm) (page : ℕ) (least : 1 ≤ page)
    (most : page ≤ 62) (bytes : IsBytes s.mem)
    (behind : dram_base + 63 * pgsize ≤ frame (s.user_llpt page))
    (ends : frame (s.user_llpt page) + pgsize + 4 < 2 ^ 32) where
  -- The page's contents as the image is to have them.
  abbrev pub written : Memory
  written = blit s.mem (dram_base + page * pgsize) s.mem (frame (s.user_llpt page)) pgsize

  compared :
      Compared pgsize
        (frame (s.user_llpt page))
        (dram_base + page * pgsize)
        s.mem
        (memcmp (frame (s.user_llpt page)) (dram_base + page * pgsize) pgsize s.mem)
  compared = memcmp_lem (frame (s.user_llpt page)) (dram_base + page * pgsize) pgsize s.mem bytes

  -- A copy of equal bytes changes nothing.
  written_same :
      ((j : ℕ)
        → j < pgsize
        → s.mem (frame (s.user_llpt page) + j) ≡ s.mem (dram_base + page * pgsize + j))
      → (q : ℕ) → s.mem q ≡ written q
  written_same same q =
      elim (Bool-cases
        (leb (dram_base + page * pgsize) q && ltb q (dram_base + page * pgsize + pgsize))) [
          | inl e ↦
              let at : dram_base + page * pgsize + (q - (dram_base + page * pgsize)) ≡ q =
                ground arith in
              rw e (sym (ap s.mem at) ∙ sym (same (q - (dram_base + page * pgsize)) (ground arith)))
          | inr e ↦ rw e refl
        ]

  copied_back :
      memcpy (dram_base + page * pgsize) (frame (s.user_llpt page)) pgsize s.mem ≡ some written
  copied_back =
      memcpy_lem (dram_base + page * pgsize) (frame (s.user_llpt page)) pgsize s.mem
        (inl (omega arith)) (omega arith) ends

  page_of : page * pgsize / pgsize ≡ page
  page_of = omega arith

  pub dirty_back :
      bit_and (s.user_llpt page) pte_d ≢ 0
      → (m : Memory) × (write_back pf_filter frame (page * pgsize) s
          ≡ running (record s { mem = m }))
        × ((q : ℕ) → m q ≡ written q)
  unfolding write_back
  dirty_back dirty =
      let set : (bit_and (s.user_llpt page) pte_d == 0) ≡ false =
        nonzero_test (bit_and (s.user_llpt page) pte_d) dirty in
      elim (Bool-cases
        (is_zero (memcmp (frame (s.user_llpt page)) (dram_base + page * pgsize) pgsize s.mem))) [
          | inl z ↦
              (s.mem, rw (page_of, z) refl, written_same (Compared-zero _ _ _ s.mem _ compared z))
          | inr z ↦ (
            written,
            rw (page_of, z, set)
                (copy_page_lem (dram_base + page * pgsize) (frame (s.user_llpt page)) s written
                  copied_back),
            λ q. refl,
          )
        ]

  pub clean_back :
      bit_and (s.user_llpt page) pte_d ≡ 0
      → ((j : ℕ)
          → j < pgsize
          → s.mem (frame (s.user_llpt page) + j) ≡ s.mem (dram_base + page * pgsize + j))
      → write_back pf_filter frame (page * pgsize) s ≡ running s
  unfolding write_back
  clean_back clean same = rw (page_of, Compared-same _ _ _ s.mem _ compared same) refl

  pub lost_back :
      (j : ℕ)
      → bit_and (s.user_llpt page) pte_d ≡ 0
      → j < pgsize
      → s.mem (frame (s.user_llpt page) + j) ≢ s.mem (dram_base + page * pgsize + j)
      → write_back pf_filter frame (page * pgsize) s ≡ terminated 3
  unfolding write_back
  lost_back j clean lt ne =
      let unset : (bit_and (s.user_llpt page) pte_d == 0) ≡ true =
        (==_iff (bit_and (s.user_llpt page) pte_d) 0).1 clean in
      rw (page_of, Compared-differ _ _ _ s.mem _ j compared lt ne, unset) refl
