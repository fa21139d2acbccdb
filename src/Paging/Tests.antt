-- ===== src/Paging/Tests.antt =====
-- The theorems on the virtual-memory environment at concrete states: the boot with one entropy and
-- a memory of zeros, and faults and evictions of page 2.
use rvcomp.Strings.Comparing.{IsBytes}
use rvcomp.Base.{
  ℕ, ◌+◌, ◌-◌, ◌*◌, ◌/◌, ◌%◌, ◌≤◌, ◌<◌, bit_and, ◌≡◌, refl, ◌≢◌, Bool, true, false, ◌&&◌, ◌||◌,
  some, [], ◌∷◌, arith, ◌==◌, if◌then◌else◌, Memory, blit,
}
use rvcomp.Paging.Walk.{Program, ecall, fetching, loading, storing, flat_run, IsWithin, paged_run}
use rvcomp.Paging.Whole.{program_refines}
use rvcomp.Paging.Fault.{IsWalk, with_page}
use rvcomp.Paging.Evict.{evict_lem, IsFreed}
use rvcomp.Paging.Pages.{vm_boot_lem}
use rvcomp.Paging.Invariant.{IsPaged, vm_boot-IsPaged}
use rvcomp.Paging.Access.{with_entry, access_lem}
use rvcomp.Paging.Mapping.{with_page-IsPaged}
use rvcomp.Paging.{
  null, Vm, running, terminated, pgsize, dram_base, cause_store_page_fault, printhex_loop, printhex,
  vm_boot, no_filter, handle_fault, evict, pte_d, evict_all, handle_trap,
}

abbrev zeros_mem : Memory
zeros_mem a = 0

-- The walk of Sv32.
abbrev sv32 : ℕ → ℕ
sv32 pte = pte / 1024 * 4096

sv32-IsWalk : IsWalk sv32
sv32-IsWalk flags k lt = omega arith

abbrev start : Vm
start = vm_boot 5 zeros_mem

no_entries : start.user_llpt 2 ≡ 0
unfolding vm_boot
no_entries = refl

printhex_run :
    printhex 0x80001a2b
    ≡ b'0' ∷ b'0' ∷ b'0' ∷ b'0' ∷ b'0' ∷ b'0' ∷ b'0' ∷ b'0' ∷ b'8' ∷ b'0' ∷ b'0' ∷ b'0' ∷ b'1'
      ∷ b'a' ∷ b'2' ∷ b'b' ∷ []
unfolding printhex printhex_loop
printhex_run = refl

vm_boot_lem_example :
    let nodes = start.freelist_nodes in
    let page = ((nodes 62).addr - dram_base) / pgsize in
    ((nodes 62).next ≡ null)
    × ((nodes 62).addr ≡ dram_base + page * pgsize)
    × (64 ≤ page)
    × (page ≤ 126)
    × ((j : ℕ) → 62 < j → j < 63 → (nodes 62).addr ≢ (nodes j).addr)
vm_boot_lem_example = vm_boot_lem 5 zeros_mem 62 (omega arith)

-- The state after one fault on page 2.
abbrev one_page : Vm
one_page = with_page 2 0 start

one_page-IsPaged : IsPaged 1 one_page
one_page-IsPaged =
    with_page-IsPaged 0 start (vm_boot-IsPaged 5 zeros_mem) 2 (omega arith) (omega arith) no_entries

one_page_set : one_page.user_llpt 2 ≢ 0
one_page_set e = absurd (omega arith)

access_lem_example :
    let pte = one_page.user_llpt 2 in
    let after =
      if pte / 64 % 2 == 0
      then with_entry 2 (pte + 64) one_page
      else with_entry 2 (pte + 128) one_page in
    let goes_on = pte / 64 % 2 == 0 || pte / 128 % 2 == 0 && 0xf == cause_store_page_fault in
    (handle_fault no_filter sv32 8200 0xf one_page
      ≡ (if goes_on then running after else terminated 3))
    × (goes_on ≡ true → IsPaged 1 after)
access_lem_example =
    access_lem sv32 1 one_page 8200 0xf one_page-IsPaged (omega arith) (omega arith) one_page_set

-- Page 2 in the 64th page, accessed and dirty, with other contents than its image.
abbrev dirty_mem : Memory
dirty_mem a = if a == 0x80040000 then 7 else 0

abbrev dirty_page : Vm
dirty_page = record start {
  user_llpt = λ page. 0x200100df;
  user_mapping = λ page. record { addr = 0x80040000; next = null };
  mem = dirty_mem;
}

dirty_mem-IsBytes : IsBytes dirty_mem
dirty_mem-IsBytes a = ground arith

evict_lem_example :
    let src : ℕ = 0x80040000 in
    let dest : ℕ = 0x80002000 in
    let result = evict no_filter sv32 (2 * pgsize) dirty_page in
    (bit_and 0x200100df pte_d ≢ 0
      → (t : Vm) × (result ≡ running t)
        × IsFreed 2 dirty_page t
        × ((q : ℕ) → t.mem q ≡ blit dirty_mem dest dirty_mem src pgsize q))
    × (bit_and 0x200100df pte_d ≡ 0
        → ((j : ℕ) → j < pgsize → dirty_mem (src + j) ≡ dirty_mem (dest + j))
        → (t : Vm) × (result ≡ running t) × IsFreed 2 dirty_page t × (t.mem ≡ dirty_mem))
    × ((j : ℕ)
        → bit_and 0x200100df pte_d ≡ 0
        → j < pgsize
        → dirty_mem (src + j) ≢ dirty_mem (dest + j)
        → result ≡ terminated 3)
evict_lem_example =
    evict_lem no_filter sv32 dirty_page 2 (omega arith) (omega arith) dirty_mem-IsBytes
      (omega arith) (omega arith) (λ e. absurd (omega arith)) (λ e. absurd (omega arith))

-- A program that stores a byte, reads it back, and ends with it.
abbrev store_and_load : Program
store_and_load = storing 8200 7 (loading 8200 (λ v. fetching 4096 (λ w. ecall (v + w))))

store_and_load-IsWithin : IsWithin store_and_load
unfolding IsWithin
store_and_load-IsWithin = (
  omega arith,
  omega arith,
  omega arith,
  (omega arith, omega arith, λ v. (omega arith, omega arith, λ w. tt)),
)

store_and_load_run : (flat_run store_and_load zeros_mem).0 ≡ 7
unfolding flat_run
store_and_load_run = refl

program_refines_example :
    let (code, flat) = flat_run store_and_load (λ a. zeros_mem (dram_base + a)) in
    (s : Vm) × (paged_run sv32 store_and_load (vm_boot 5 zeros_mem) ≡ some (code, s))
    × ((badvaddr epc : ℕ) (is_fssr : Bool)
        → handle_trap no_filter sv32 false 0x8 badvaddr code epc is_fssr s ≡ terminated code)
    × (t : Vm) × (evict_all no_filter sv32 62 s ≡ running t)
    × ((a : ℕ) → pgsize ≤ a → a < 63 * pgsize → t.mem (dram_base + a) ≡ flat a)
program_refines_example =
    program_refines sv32 5 zeros_mem store_and_load sv32-IsWalk (λ a. omega arith)
      store_and_load-IsWithin
