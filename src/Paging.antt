-- ===== src/Paging.antt =====
-- prog/riscv-tests/env/v/vm.c, the supervisor of the virtual-memory tests, for one page table of
-- 4-byte entries (Sv32): its list of free pages, the page faults and the eviction. A parameter
-- stands for the test's hook `pf_filter` (the entry's flags, where it gives them) and for the
-- frame that the hardware's walk takes from an entry.
pub mod Pages
pub mod Hex
pub mod Invariant
pub mod Fault
pub mod Mapping
pub mod Access
pub mod Reached
pub mod Back
pub mod Evict
pub mod Walk
pub mod Served
pub mod Attempt
pub mod Refine
pub mod Run
pub mod Finish
pub mod Whole
pub mod Console
pub mod Torture
pub mod Tables
pub mod Setup
mod Tests
mod HostTests
use rvcomp.Base.Int.{ℤ, pos, negsuc}
use rvcomp.Base.{
  ℕ, zero, suc, ◌+◌, ◌-◌, ◌*◌, ◌/◌, ◌%◌, ◌^◌, bit_and, bit_or, bit_xor, Bool, true, false, not,
  ◌&&◌, ◌||◌, Option, none, some, List, [], ◌∷◌, ltb, leb, ◌==◌, if◌then◌else◌, Memory, update,
  ◌<<<◌,
}
use rvcomp.Strings.{memcpy, memcmp}

-- A pointer to a node: null, `&freelist_nodes[i]` or `&user_mapping[i]`.
pub data Link : Type 0 where
  null : Link
  free_node : ℕ → Link
  mapped_node : ℕ → Link

-- `freelist_t`
pub record Node : Type 0 where
  pub addr : ℕ
  pub next : Link

-- The variables of vm.c that change, and the physical memory.
pub record Vm : Type 0 where
  pub user_mapping : ℕ → Node
  pub freelist_nodes : ℕ → Node
  pub freelist_head : Link
  pub freelist_tail : Link
  pub user_llpt : ℕ → ℕ
  pub mem : Memory

-- A routine returns or ends the test with a code; `stuck` is a null pointer that is followed, or a
-- copy that does not end.
pub data Outcome : Type 0 where
  running : Vm → Outcome
  terminated : ℕ → Outcome
  stuck : Outcome

abbrev pub max_test_pages : ℕ
max_test_pages = 63

abbrev pub pgsize : ℕ
pgsize = 2 ^ 12

abbrev pub dram_base : ℕ
dram_base = 0x80000000

abbrev pub pte_a : ℕ
pte_a = 2 ^ 6

abbrev pub pte_d : ℕ
pte_d = 2 ^ 7

-- PTE_V | PTE_U | PTE_R | PTE_W | PTE_X
abbrev pub pte_user : ℕ
pte_user = 0x1f

abbrev pub cause_store_page_fault : ℕ
cause_store_page_fault = 0xf

-- `assert`, with the exit code of its `terminate(3)`.
abbrev pub assert : Bool → Outcome → Outcome
assert test rest = if test then rest else terminated 3

unfoldable pub printhex_loop : ℕ → ℕ → List ℕ → List ℕ
printhex_loop zero x str = str
printhex_loop (suc k) x str =
    let d = bit_and x 0xf in
    printhex_loop k (x / 16) ((d + (if ltb d 10 then b'0' else b'a' - 10)) ∷ str)

-- The characters that `printhex` puts out.
unfoldable pub printhex : ℕ → List ℕ
printhex x = printhex_loop 16 x []

-- `LFSR_NEXT`
unfoldable pub lfsr_next : ℕ → ℕ
lfsr_next x = bit_or (bit_and (bit_xor x (x / 2)) 1 <<< 5) (x / 2)

abbrev pub set_node : (ℕ → Node) → ℕ → Node → ℕ → Node
set_node nodes i node = λ j. if i == j then node else nodes j

-- The loop of `vm_boot` over the last `left` nodes, from the `i`th one on.
unfoldable pub link_nodes : ℕ → ℕ → ℕ → (ℕ → Node) → ℕ → Node
link_nodes zero i random nodes = nodes
link_nodes (suc left) i random nodes = link_nodes left (suc i) (lfsr_next random) (
    set_node nodes i
      (record { addr = dram_base + (max_test_pages + random) * pgsize; next = free_node (i + 1) }))

-- What `vm_boot` leaves in the variables, before the first user instruction.
unfoldable pub vm_boot : ℕ → Memory → Vm
vm_boot entropy m =
    let none_yet : ℕ → Node = λ _. record { addr = 0; next = null } in
    let nodes = link_nodes max_test_pages 0 (1 + entropy % max_test_pages) none_yet in
    let last = nodes (max_test_pages - 1) in
    record {
      user_mapping = none_yet;
      freelist_nodes = set_node nodes (max_test_pages - 1) (record last { next = null });
      freelist_head = free_node 0;
      freelist_tail = free_node (max_test_pages - 1);
      user_llpt = λ _. 0;
      mem = m;
    }

abbrev pub same_link : Link → Link → Bool
same_link null null = true
same_link (free_node i) (free_node j) = i == j
same_link (mapped_node i) (mapped_node j) = i == j
same_link null (free_node j) = false
same_link null (mapped_node j) = false
same_link (free_node i) null = false
same_link (free_node i) (mapped_node j) = false
same_link (mapped_node i) null = false
same_link (mapped_node i) (free_node j) = false

-- The node that a pointer leads to, `none` for null.
abbrev pub node_at : Vm → Link → Option Node
node_at s null = none
node_at s (free_node i) = some (s.freelist_nodes i)
node_at s (mapped_node i) = some (s.user_mapping i)

-- `link->next = next`
abbrev pub set_next : Link → Link → Vm → Outcome
set_next null next s = stuck
set_next (free_node i) next s =
    let node = s.freelist_nodes i in
    running
      (record s { freelist_nodes = set_node s.freelist_nodes i (record node { next = next }) })
set_next (mapped_node i) next s =
    let node = s.user_mapping i in
    running (record s { user_mapping = set_node s.user_mapping i (record node { next = next }) })

abbrev pub and_then : Outcome → (Vm → Outcome) → Outcome
and_then (running s) f = f s
and_then (terminated code) f = terminated code
and_then stuck f = stuck

-- The copy of one page.
abbrev pub copy_page : ℕ → ℕ → Vm → Outcome
copy_page dest src s = elim (memcpy dest src pgsize s.mem) [
  | none ↦ stuck
  | some m ↦ running (record s { mem = m })
]

-- Whether C takes the number for false.
abbrev pub is_zero : ℤ → Bool
is_zero (pos zero) = true
is_zero (pos (suc n)) = false
is_zero (negsuc n) = false

-- The hook of riscv_test.h, which a test may replace.
abbrev pub no_filter : ℕ → Option ℕ
no_filter addr = none

module _ (pf_filter : ℕ → Option ℕ) (frame : ℕ → ℕ) where
  -- `uva2kva(addr)` as a physical address: the page of the test's image.
  abbrev pub image : ℕ → ℕ
  image addr = dram_base + addr

  -- `handle_fault` from `freelist_t* node` on.
  unfoldable pub map_page : ℕ → Vm → Outcome
  map_page addr s = elim (node_at s s.freelist_head) [
    | none ↦ terminated 3
    | some node ↦
        let page = addr / pgsize in
        let head = node.next in
        let tail = if same_link head s.freelist_tail then null else s.freelist_tail in
        let flags : ℕ = elim (pf_filter addr) [ none ↦ pte_user | some encodings ↦ encodings ] in
        let new_pte = bit_or flags ((node.addr / pgsize) <<< 10) in
        let open_pte = bit_or (bit_or new_pte pte_a) pte_d in
        assert ((s.user_mapping page).addr == 0) (
          and_then
            (copy_page (frame open_pte) (image addr) (record s {
              freelist_head = head;
              freelist_tail = tail;
              user_llpt = update s.user_llpt page open_pte;
              user_mapping = set_node s.user_mapping page node;
            }))
            (λ s'. running (record s' { user_llpt = update s'.user_llpt page new_pte })))
  ]

  -- `handle_fault`
  unfoldable pub handle_fault : ℕ → ℕ → Vm → Outcome
  handle_fault addr cause s =
      let page = addr / pgsize in
      let pte = s.user_llpt page in
      assert (leb pgsize addr && ltb addr (max_test_pages * pgsize)) (
        if pte == 0
        then map_page (page * pgsize) s
        else (if bit_and pte pte_a == 0
            then running (record s { user_llpt = update s.user_llpt page (bit_or pte pte_a) })
            else assert (bit_and pte pte_d == 0 && cause == cause_store_page_fault)
                (running (record s { user_llpt = update s.user_llpt page (bit_or pte pte_d) }))))

  -- `evict` from `if (memcmp` on to the end of that `if`.
  unfoldable pub write_back : ℕ → Vm → Outcome
  write_back addr s =
      let pte = s.user_llpt (addr / pgsize) in
      if is_zero (memcmp (frame pte) (image addr) pgsize s.mem)
      then running s
      else assert (not (bit_and pte pte_d == 0)) (copy_page (image addr) (frame pte) s)

  -- The end of `evict`: `node` goes to the end of the free list.
  unfoldable pub free_last : ℕ → Vm → Outcome
  free_last page s =
      let node = mapped_node page in
      elim s.freelist_tail [
        | null ↦ running (record s { freelist_head = node; freelist_tail = node })
        | _ ↦
            and_then (set_next s.freelist_tail node s)
              (λ s'. running (record s' { freelist_tail = node }))
      ]

  -- `evict`
  unfoldable pub evict : ℕ → Vm → Outcome
  evict addr s =
      let page = addr / pgsize in
      let node = s.user_mapping page in
      assert (leb pgsize addr && ltb addr (max_test_pages * pgsize)) (
        if node.addr == 0
        then running s
        else assert (not (bit_and (s.user_llpt page) pte_a == 0)) (
            and_then (write_back (page * pgsize) s) (λ s'. free_last page (record s' {
              user_mapping = set_node s'.user_mapping page (record node { addr = 0 });
            }))))

  -- The loop of `handle_trap` at the end of the test, over the last `left` pages.
  unfoldable pub evict_all : ℕ → Vm → Outcome
  evict_all zero s = running s
  evict_all (suc left) s =
      and_then (evict ((max_test_pages - suc left) * pgsize) s) (evict_all left)

  -- `handle_trap`: `filtered` is what the test's hook answers, `is_fssr` whether the word at `epc`
  -- is the instruction `fssr x0`.
  unfoldable pub handle_trap : Bool → ℕ → ℕ → ℕ → ℕ → Bool → Vm → Outcome
  handle_trap filtered cause badvaddr a0 epc is_fssr s =
      if filtered
      then running s
      else (if cause == 0x8
          then and_then (evict_all (max_test_pages - 1) s) (λ s'. terminated a0)
          else (if cause == 0x2
              then assert (epc % 4 == 0) (terminated (if is_fssr then 1 else 3))
              else (if cause == 0xc || cause == 0xd || cause == 0xf
                  then handle_fault badvaddr cause s
                  else terminated 3)))
