-- ===== src/Paging/Fault.antt =====
-- A page fault on a page without an entry.
use rvcomp.Strings.{memcpy}
use rvcomp.Strings.Copying.{memcpy_lem}
use rvcomp.Bits.Flags.{or_64, or_128}
use rvcomp.Base.{
  ℕ, ◌+◌, ◌*◌, ◌/◌, ◌≤◌, ◌<◌, bit_or, ◌≡◌, refl, ap, ◌∙◌, inr, true, false, ◌&&◌, some, arith, ltb,
  leb, ◌==◌, if◌then◌else◌, ==_iff, Memory, update, blit, ◌<<<◌,
}
use rvcomp.Paging.Invariant.{IsPaged, entries-room}
use rvcomp.Paging.{
  null, Vm, running, max_test_pages, pgsize, dram_base, pte_a, pte_d, pte_user, set_node, same_link,
  no_filter, map_page, handle_fault, Outcome, and_then, copy_page,
}
use rvcomp.Bits.{bit_or_above}

-- The hardware's walk takes the frame from the bits above the flags.
abbrev pub IsWalk : (ℕ → ℕ) → Type 0
IsWalk frame = (flags k : ℕ) → flags < 1024 → frame (flags + k * 1024) ≡ k * pgsize

-- The entry of a page that is mapped to `addr`, and what handle_fault leaves behind it.
abbrev pub entry : ℕ → ℕ
entry addr = pte_user + addr / pgsize * 1024

abbrev pub with_page : ℕ → ℕ → Vm → Vm
with_page page n s =
    let node = s.freelist_nodes n in
    let head = node.next in
    record s {
      freelist_head = head;
      freelist_tail = if same_link head s.freelist_tail then null else s.freelist_tail;
      user_llpt =
          update (update s.user_llpt page (entry node.addr + 64 + 128)) page (entry node.addr);
      user_mapping = set_node s.user_mapping page node;
      mem = blit s.mem node.addr s.mem (dram_base + page * pgsize) pgsize;
    }

entry_bits :
    (addr : ℕ)
    → let new_pte = bit_or pte_user ((addr / pgsize) <<< 10) in
      (new_pte ≡ entry addr) × (bit_or (bit_or new_pte pte_a) pte_d ≡ entry addr + 64 + 128)
entry_bits addr =
    let new : bit_or pte_user ((addr / pgsize) <<< 10) ≡ entry addr =
      bit_or_above 10 pte_user (addr / pgsize) (omega arith) in
    let a = or_64 (entry addr) (omega arith) in
    let d = or_128 (entry addr + 64) (omega arith) in (new, rw (new, a) d)

pub copy_page_lem :
    (dest src : ℕ) (s : Vm) (m : Memory)
    → memcpy dest src pgsize s.mem ≡ some m
    → copy_page dest src s ≡ running (record s { mem = m })
copy_page_lem dest src s m e = rw (e, copy_page) refl

copied_then :
    (dest src : ℕ) (s : Vm) (m : Memory) (f : Vm → Outcome)
    → memcpy dest src pgsize s.mem ≡ some m
    → and_then (copy_page dest src s) f ≡ f (record s { mem = m })
copied_then dest src s m f e = rw (copy_page_lem dest src s m e) refl

module _ (frame : ℕ → ℕ) (walk : IsWalk frame) (n : ℕ) (s : Vm) (h : IsPaged n s) (addr : ℕ)
    (above : pgsize ≤ addr) (below : addr < max_test_pages * pgsize)
    (no_entry : s.user_llpt (addr / pgsize) ≡ 0) where
  node_left : n < 63
  node_left =
      let room = entries-room s.user_llpt 62 (addr / pgsize) (omega arith) (omega arith) no_entry in
      omega (arith, room, h.taken)

  open_frame : frame (entry (s.freelist_nodes n).addr + 64 + 128) ≡ (s.freelist_nodes n).addr
  open_frame =
      let a = (s.freelist_nodes n).addr in
      let split : entry a + 64 + 128 ≡ pte_user + 64 + 128 + a / pgsize * 1024 = omega arith in
      ap frame split
      ∙ (walk (pte_user + 64 + 128) (a / pgsize) (omega arith)
          ∙ omega (arith, h.pool.aligned n node_left))

  copied :
      memcpy (s.freelist_nodes n).addr (dram_base + addr / pgsize * pgsize) pgsize s.mem
      ≡ some
          (blit s.mem (s.freelist_nodes n).addr s.mem (dram_base + addr / pgsize * pgsize) pgsize)
  copied =
      let low = h.pool.low n node_left in
      let high = h.pool.high n node_left in
      memcpy_lem (s.freelist_nodes n).addr (dram_base + addr / pgsize * pgsize) pgsize s.mem
        (inr (omega arith)) (omega arith) (omega arith)

  pub map_page_lem :
      (cause : ℕ)
      → handle_fault no_filter frame addr cause s ≡ running (with_page (addr / pgsize) n s)
  unfolding handle_fault map_page
  map_page_lem cause =
      let page = addr / pgsize in
      let guard : (leb pgsize addr && ltb addr (max_test_pages * pgsize)) ≡ true = ground arith in
      let absent : (s.user_llpt (addr / pgsize) == 0) ≡ true =
        (==_iff (s.user_llpt (addr / pgsize)) 0).1 no_entry in
      let whole : addr / pgsize * pgsize / pgsize ≡ addr / pgsize = omega arith in
      let here : (n == 63) ≡ false = let left = node_left in ground arith in
      let empty : ((s.user_mapping (addr / pgsize)).addr == 0) ≡ true =
        (==_iff ((s.user_mapping (addr / pgsize)).addr) 0).1
          (h.unmapped (addr / pgsize) no_entry) in
      let (new, open_pte) = entry_bits (s.freelist_nodes n).addr in
      rw (guard, absent, map_page, h.head, here, whole, empty, open_pte, open_frame, new)
        (copied_then (s.freelist_nodes n).addr (dram_base + addr / pgsize * pgsize) _ _ _ copied)
