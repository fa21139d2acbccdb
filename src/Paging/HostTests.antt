-- ===== src/Paging/HostTests.antt =====
-- The theorems on the console, on the page tables and on the other harts, at concrete values.
use rvcomp.Base.{
  ℕ, ◌+◌, ◌-◌, ◌*◌, ◌/◌, ◌%◌, ◌^◌, ◌≤◌, ◌<◌, ◌≡◌, refl, ◌⊎◌, Bool, true, false, some, List, [],
  arith, ltb, if◌then◌else◌, sub32,
}
use rvcomp.Paging.Walk.{flag}
use rvcomp.Paging.Setup.{
  Csr, satp, medeleg, torture, starts, vm_boot_all, written_to, IsDelegated, vm_boot_all_lem,
}
use rvcomp.Paging.Tables.{
  megapage_size, root_entry, satp_value, leaf, walk_paddr, tables_lem, walk_tables, pa2kva, uva2kva,
}
use rvcomp.Paging.Console.{Htif}
use rvcomp.Paging.{
  pgsize, dram_base, Vm, terminated, max_test_pages, vm_boot, and_then, no_filter, handle_fault,
  evict_all, handle_trap,
}

-- A host that takes a word at every other read.
abbrev slow_host : ℕ → ℕ
slow_host i = i % 2

abbrev quiet_host : Htif
quiet_host = record { commands = []; fromhost = 0; polls = 0 }

-- The tables in two pages, one behind the other, and entries for every page.
abbrev table_words : ℕ → ℕ
table_words a =
    if ltb a 0x80011000 then root_entry 0x80011000 ((a - 0x80010000) / 4) else 0x200100df

table_root : (i : ℕ) → i < 1024 → table_words (0x80010000 + i * 4) ≡ root_entry 0x80011000 i
table_root i lt =
    let below : ltb (0x80010000 + i * 4) 0x80011000 ≡ true = ground arith in
    let at : (0x80010000 + i * 4 - 0x80010000) / 4 ≡ i = omega arith in rw (below, at) refl

table_last : (i : ℕ) → i < 1024 → table_words (0x80011000 + i * 4) ≡ 0x200100df
table_last i lt =
    let above : ltb (0x80011000 + i * 4) 0x80011000 ≡ false = ground arith in rw above refl

tables_lem_example :
    ((va : ℕ)
      → va < megapage_size
      → (walk_tables table_words (satp_value 0x80010000) va ≡ leaf 0x200100df false)
        × (walk_paddr 0x200100df false va ≡ 0x200100df / 1024 * pgsize + va % pgsize))
    × ((pa : ℕ)
        → dram_base ≤ pa
        → pa < dram_base + megapage_size
        → (pte : ℕ) × (walk_tables table_words (satp_value 0x80010000) (pa2kva pa) ≡ leaf pte true)
          × (pte / 2 ^ 10 % 1024 ≡ 0)
          × (walk_paddr pte true (pa2kva pa) ≡ pa))
    × ((va : ℕ) → va < megapage_size → uva2kva va ≡ pa2kva (dram_base + va))
tables_lem_example =
    tables_lem table_words 0x80010000 0x80011000 (λ i. 0x200100df) (omega arith) (omega arith)
      (omega arith) (omega arith) table_root table_last (λ i lt. omega arith)

abbrev first_hart : ℕ
first_hart = 0

abbrev page_frame : ℕ → ℕ
page_frame pte = pte / 1024 * pgsize

vm_boot_all_lem_example :
    let booted =
      vm_boot_all first_hart (λ v. v) 0x80010000 0x80000100 0x80000200 0x80002000 5 (λ a. 0) in
    (0 < first_hart → booted ≡ torture)
    × (first_hart ≡ 0
        → (writes : List (Csr × ℕ)) × (causes : ℕ) × (booted
            ≡ starts writes (vm_boot 5 (λ a. 0)) (sub32 0x80002000 dram_base))
          × (written_to satp writes ≡ some (satp_value 0x80010000))
          × (written_to medeleg writes ≡ some causes)
          × ((c : ℕ) → flag causes c ≡ true → IsDelegated c)
          × ((c : ℕ) → IsDelegated c → flag causes c ≡ true)
          × ((c badvaddr a0 epc : ℕ) (is_fssr : Bool) (s : Vm)
              → flag causes c ≡ true
              → (c ≡ 8)
                  × (handle_trap no_filter page_frame false c badvaddr a0 epc is_fssr s
                      ≡ and_then
                          (evict_all no_filter page_frame (max_test_pages - 1) s)
                          (λ t. terminated a0))
                ⊎ (handle_trap no_filter page_frame false c badvaddr a0 epc is_fssr s
                    ≡ handle_fault no_filter page_frame badvaddr c s)))
vm_boot_all_lem_example =
    vm_boot_all_lem page_frame first_hart (λ v. v) 0x80010000 0x80000100 0x80000200 0x80002000 5
      (λ a. 0) refl
