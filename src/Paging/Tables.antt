-- ===== src/Paging/Tables.antt =====
-- The page tables that vm_boot sets up, and the walk of mmu/ptw.v through both of their levels.
use rvcomp.Base.{
  ℕ, ◌+◌, ◌-◌, ◌*◌, ◌/◌, ◌%◌, ◌^◌, ◌≤◌, ◌<◌, bit_or, ◌≡◌, refl, ap, ◌∙◌, Bool, true, false, not,
  ◌&&◌, ◌||◌, arith, ◌==◌, if◌then◌else◌, sub32, ◌<<<◌,
}
use rvcomp.Bits.{bit_or_above}
use rvcomp.Paging.Walk.{flag}
use rvcomp.Paging.{pgsize, dram_base}

abbrev pub ptes_per_pt : ℕ
ptes_per_pt = 1024

abbrev pub megapage_size : ℕ
megapage_size = ptes_per_pt * pgsize

-- PTE_V | PTE_R | PTE_W | PTE_X | PTE_A | PTE_D
abbrev pub pte_kernel : ℕ
pte_kernel = 0xcf

-- What vm_boot writes into `l1pt`, with the address of `user_l2pt`: the user's pages are in the
-- lowermost megapage, the kernel's in the uppermost.
unfoldable pub root_entry : ℕ → ℕ → ℕ
root_entry user_l2pt i =
    if i == ptes_per_pt - 1
    then bit_or pte_kernel ((dram_base / pgsize) <<< 10)
    else (if i == 0 then bit_or 1 ((user_l2pt / pgsize) <<< 10) else 0)

-- `satp_value`, with the address of `l1pt`, and with the mode Sv32.
unfoldable pub satp_value : ℕ → ℕ
satp_value l1pt = bit_or (l1pt / pgsize) (1 * 0x80000000)

-- `pa2kva` and `uva2kva`
abbrev pub pa2kva : ℕ → ℕ
pa2kva pa = sub32 (sub32 pa dram_base) megapage_size

abbrev pub uva2kva : ℕ → ℕ
uva2kva va = sub32 va megapage_size

-- The entry that the walk ends at, and whether it is one of the root's; `refused` where it finds no
-- valid entry. What the entry then allows is another matter.
pub data Walked : Type 0 where
  refused : Walked
  leaf : ℕ → Bool → Walked

-- An entry that the walk refuses at any level, and one that ends it.
abbrev pub malformed : ℕ → Bool
malformed pte = not (flag pte 0) || (not (flag pte 1) && flag pte 2)

abbrev pub is_leaf : ℕ → Bool
is_leaf pte = flag pte 1 || flag pte 3

unfoldable pub walk_tables : (ℕ → ℕ) → ℕ → ℕ → Walked
walk_tables words satp va =
    let root = words (satp % 2 ^ 22 * pgsize + va / 2 ^ 22 % 1024 * 4) in
    let next = words (root / 1024 % 2 ^ 22 * pgsize + va / 2 ^ 12 % 1024 * 4) in
    if malformed root then refused else (if is_leaf root then leaf root true else leaf next false)

-- `paddr_d`: a leaf of the root takes the middle bits from the virtual address.
unfoldable pub walk_paddr : ℕ → Bool → ℕ → ℕ
walk_paddr pte mega va =
    let middle = if mega then va / 2 ^ 12 % 1024 else pte / 2 ^ 10 % 1024 in
    pte / 2 ^ 20 * 2 ^ 22 + middle * 2 ^ 12 + va % 2 ^ 12

module _ (words : ℕ → ℕ) (l1pt user_l2pt : ℕ) (user_llpt : ℕ → ℕ) (l1_page : l1pt % pgsize ≡ 0)
    (l1_word : l1pt < 2 ^ 32) (l2_page : user_l2pt % pgsize ≡ 0) (l2_word : user_l2pt < 2 ^ 32)
    (root : (i : ℕ) → i < 1024 → words (l1pt + i * 4) ≡ root_entry user_l2pt i)
    (last : (i : ℕ) → i < 1024 → words (user_l2pt + i * 4) ≡ user_llpt i) where
  root_at :
      (va : ℕ)
      → va < 2 ^ 32
      → words (satp_value l1pt % 2 ^ 22 * pgsize + va / 2 ^ 22 % 1024 * 4)
        ≡ root_entry user_l2pt (va / 2 ^ 22)
  unfolding satp_value
  root_at va lt =
      let mode = bit_or_above 31 (l1pt / pgsize) 1 (omega arith) in
      let at : satp_value l1pt % 2 ^ 22 * pgsize + va / 2 ^ 22 % 1024 * 4 ≡ l1pt + va / 2 ^ 22 * 4 =
        omega (arith, mode) in
      ap words at ∙ root (va / 2 ^ 22) (omega arith)

  -- A page of the test: the walk goes through the entry of the last level.
  user_walk :
      (va : ℕ)
      → va < megapage_size
      → walk_tables words (satp_value l1pt) va ≡ leaf (user_llpt (va / pgsize)) false
  unfolding walk_tables root_entry
  user_walk va lt =
      let pointer : bit_or 1 ((user_l2pt / pgsize) <<< 10) ≡ 1 + user_l2pt / pgsize * 1024 =
        bit_or_above 10 1 (user_l2pt / pgsize) (omega arith) in
      let page : va / 2 ^ 22 ≡ 0 = omega arith in
      let at = root_at va (omega arith) in
      let first : words (satp_value l1pt % 2 ^ 22 * pgsize + va / 2 ^ 22 % 1024 * 4)
          ≡ 1 + user_l2pt / pgsize * 1024 =
        at ∙ (ap (λ (i : ℕ). root_entry user_l2pt i) page ∙ pointer) in
      let next : (1 + user_l2pt / pgsize * 1024) / 1024 % 2 ^ 22 * pgsize + va / 2 ^ 12 % 1024 * 4
          ≡ user_l2pt + va / pgsize * 4 =
        omega arith in
      let formed : malformed (1 + user_l2pt / pgsize * 1024) ≡ false = ground arith in
      let inner : is_leaf (1 + user_l2pt / pgsize * 1024) ≡ false = ground arith in
      rw (first, formed, inner, next, last (va / pgsize) (omega arith)) refl

  -- The kernel's view of the memory: a leaf of the root.
  kernel_walk :
      (pa : ℕ)
      → dram_base ≤ pa
      → pa < dram_base + megapage_size
      → walk_tables words (satp_value l1pt) (pa2kva pa)
        ≡ leaf (pte_kernel + dram_base / pgsize * 1024) true
  unfolding walk_tables root_entry
  kernel_walk pa low high =
      let uppermost : pa2kva pa / 2 ^ 22 ≡ 1023 = omega arith in
      let at = root_at (pa2kva pa) (omega arith) in
      let first : words (satp_value l1pt % 2 ^ 22 * pgsize + pa2kva pa / 2 ^ 22 % 1024 * 4)
          ≡ pte_kernel + dram_base / pgsize * 1024 =
        at
        ∙ (ap (λ (i : ℕ). root_entry user_l2pt i) uppermost
            ∙ bit_or_above 10 pte_kernel (dram_base / pgsize) (omega arith)) in
      rw first refl

  -- With the tables of vm_boot at their page-aligned addresses, and the words of the last level
  -- below 2^32, the walk takes an address of the lowermost megapage to the test's own entry for its
  -- page, and to the frame that the entry's upper bits give. An address of the main memory's first
  -- megapage is reached at its pa2kva, through a leaf of the root that is aligned to a megapage;
  -- and uva2kva of a page of the test is where its image is reached.
  pub tables_lem :
      ((i : ℕ) → i < 1024 → user_llpt i < 2 ^ 32)
      → ((va : ℕ)
          → va < megapage_size
          → let pte = user_llpt (va / pgsize) in
            (walk_tables words (satp_value l1pt) va ≡ leaf pte false)
            × (walk_paddr pte false va ≡ pte / 1024 * pgsize + va % pgsize))
        × ((pa : ℕ)
            → dram_base ≤ pa
            → pa < dram_base + megapage_size
            → (pte : ℕ) × (walk_tables words (satp_value l1pt) (pa2kva pa) ≡ leaf pte true)
              × (pte / 2 ^ 10 % 1024 ≡ 0)
              × (walk_paddr pte true (pa2kva pa) ≡ pa))
        × ((va : ℕ) → va < megapage_size → uva2kva va ≡ pa2kva (dram_base + va))
  unfolding walk_paddr
  tables_lem small = (
    (λ va lt.
        (user_walk va lt, let fits = small (va / pgsize) (omega arith) in omega (arith, fits))),
    (λ pa low high. (
      pte_kernel + dram_base / pgsize * 1024,
      kernel_walk pa low high,
      omega arith,
      omega arith,
    )),
    (λ va lt. omega arith),
  )
