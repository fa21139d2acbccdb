-- ===== src/Paging/Invariant.antt =====
-- What holds of the page table and of the free list between two page faults.
use rvcomp.Base.{
  ℕ, zero, suc, ◌+◌, ◌*◌, ◌/◌, ◌%◌, ◌≤◌, ◌<◌, ◌≡◌, refl, sym, ap, ◌∙◌, ◌≢◌, inl, inr, true, false,
  arith, ◌==◌, if◌then◌else◌, ==_iff, Bool-cases, Memory, update, update_self,
}
use rvcomp.Paging.Pages.{vm_boot_lem}
use rvcomp.Paging.{Link, null, free_node, Node, Vm, pgsize, dram_base, vm_boot}

-- The `n`th node of the list that vm_boot builds, null behind the last one.
abbrev pub nth_link : ℕ → Link
nth_link n = if n == 63 then null else free_node n

-- The nodes of that list: linked in their order, with pages behind those of the test, all
-- different.
pub record IsPool (nodes : ℕ → Node) : Type 0 where
  pub linked : (i : ℕ) → i < 63 → (nodes i).next ≡ nth_link (i + 1)
  pub aligned : (i : ℕ) → i < 63 → (nodes i).addr % pgsize ≡ 0
  pub low : (i : ℕ) → i < 63 → dram_base + 64 * pgsize ≤ (nodes i).addr
  pub high : (i : ℕ) → i < 63 → (nodes i).addr ≤ dram_base + 126 * pgsize
  pub differ : (i j : ℕ) → i < j → j < 63 → (nodes i).addr ≢ (nodes j).addr

-- A page table entry with its flags in the low ten bits.
abbrev pub IsEntry : ℕ → ℕ → Type 0
IsEntry pte addr = (flags : ℕ) × (flags < 1024) × (pte ≡ flags + addr / pgsize * 1024)

-- How many of the pages 1 to `n` have an entry.
abbrev pub entries : (ℕ → ℕ) → ℕ → ℕ
entries llpt zero = 0
entries llpt (suc n) = entries llpt n + (if llpt (suc n) == 0 then 0 else 1)

-- A page that has an entry: the entry leads to the page of a node before the `n`th, which the
-- mapping names.
abbrev pub IsMapped : ℕ → Vm → ℕ → Type 0
IsMapped n s page =
    (i : ℕ) × (i < n)
    × ((s.user_mapping page).addr ≡ (s.freelist_nodes i).addr)
    × IsEntry (s.user_llpt page) (s.freelist_nodes i).addr

-- With `n` nodes taken, each for a page of its own.
pub record IsPaged (n : ℕ) (s : Vm) : Type 0 where
  pub pool : IsPool s.freelist_nodes
  pub taken : entries s.user_llpt 62 ≡ n
  pub head : s.freelist_head ≡ nth_link n
  pub unmapped : (page : ℕ) → s.user_llpt page ≡ 0 → (s.user_mapping page).addr ≡ 0
  pub mapped : (page : ℕ) → s.user_llpt page ≢ 0 → IsMapped n s page
  pub apart :
      (p q : ℕ)
      → p ≢ q
      → s.user_llpt p ≢ 0
      → s.user_llpt q ≢ 0
      → (s.user_mapping p).addr ≢ (s.user_mapping q).addr

pub entries_le : (llpt : ℕ → ℕ) (n : ℕ) → entries llpt n ≤ n
entries_le llpt zero = omega arith
entries_le llpt (suc n) = ground (arith, entries_le llpt n)

-- A page without an entry leaves one to count.
pub entries-room :
    (llpt : ℕ → ℕ) (n page : ℕ) → 1 ≤ page → page ≤ n → llpt page ≡ 0 → entries llpt n < n
entries-room llpt zero page least most e = absurd (omega arith)
entries-room llpt (suc n) page least most e = elim (Bool-cases (page == suc n)) [
  | inl here ↦
      let same : (llpt (suc n) == 0) ≡ true =
        (==_iff (llpt (suc n)) 0).1 (sym (ap llpt ((==_iff page (suc n)).0 here)) ∙ e) in
      rw same (omega (arith, entries_le llpt n))
  | inr there ↦ let rest = entries-room llpt n page least (ground arith) e in ground arith
]

entries-above :
    (llpt : ℕ → ℕ) (n page v : ℕ) → n < page → entries (update llpt page v) n ≡ entries llpt n
entries-above llpt zero page v lt = refl
entries-above llpt (suc n) page v lt =
    let other : (page == suc n) ≡ false = ground arith in
    rw other (
      ap (λ (k : ℕ). k + (if llpt (suc n) == 0 then 0 else 1))
        (entries-above llpt n page v (omega arith)))

-- A new entry is counted.
pub entries-update :
    (llpt : ℕ → ℕ) (n page v : ℕ)
    → 1 ≤ page
    → page ≤ n
    → v ≢ 0
    → entries (update llpt page v) n ≡ entries llpt n + (if llpt page == 0 then 1 else 0)
entries-update llpt zero page v least most ne = absurd (omega arith)
entries-update llpt (suc n) page v least most ne = elim (Bool-cases (page == suc n)) [
  | inl here ↦
      let same : page ≡ suc n = (==_iff page (suc n)).0 here in
      let below = entries-above llpt n page v (omega arith) in
      let nonzero : (v == 0) ≡ false = ground arith in
      rw (here, nonzero) (rw same (ground (arith, rw same at below)))
  | inr there ↦
      let rest = entries-update llpt n page v least (ground arith) ne in
      rw there (omega (arith, rest))
]

pub nonzero_test : (v : ℕ) → v ≢ 0 → (v == 0) ≡ false
nonzero_test v ne = ground arith

-- An entry that is written twice is counted once.
pub entries-twice :
    (llpt : ℕ → ℕ) (n page v w : ℕ)
    → 1 ≤ page
    → page ≤ n
    → v ≢ 0
    → w ≢ 0
    → llpt page ≡ 0
    → entries (update (update llpt page v) page w) n ≡ suc (entries llpt n)
entries-twice llpt n page v w least most nv nw e =
    let first = entries-update llpt n page v least most nv in
    let second = entries-update (update llpt page v) n page w least most nw in
    let empty : (llpt page == 0) ≡ true = (==_iff (llpt page) 0).1 e in
    let full : (update llpt page v page == 0) ≡ false =
      rw (update_self llpt page v) (nonzero_test v nv) in
    omega (arith, rw full at second, rw empty at first)

pub vm_boot-IsPaged : (entropy : ℕ) (m : Memory) → IsPaged 0 (vm_boot entropy m)
unfolding vm_boot
vm_boot-IsPaged entropy m =
    let step : (i : ℕ) → i < 63 → (if i == 62 then null else free_node (i + 1)) ≡ nth_link (i + 1) =
      λ i lt. ground arith in
    record {
      pool = record {
        linked = λ i lt. (vm_boot_lem entropy m i lt).0 ∙ step i lt;
        aligned =
            λ i lt. let (next, addr, low, high, differ) = vm_boot_lem entropy m i lt in omega arith;
        low =
            λ i lt. let (next, addr, low, high, differ) = vm_boot_lem entropy m i lt in omega arith;
        high =
            λ i lt. let (next, addr, low, high, differ) = vm_boot_lem entropy m i lt in omega arith;
        differ = λ i j less lt.
            let (next, addr, low, high, differ) = vm_boot_lem entropy m i (omega arith) in
            differ j less lt;
      };
      taken = refl;
      head = refl;
      unmapped = λ page e. refl;
      mapped = λ page ne. absurd (ne refl);
      apart = λ p q ne ep eq. absurd (ep refl);
    }
