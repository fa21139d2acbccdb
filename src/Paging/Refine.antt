-- ===== src/Paging/Refine.antt =====
-- A program under the page table does what it does on a flat memory.
use rvcomp.Base.{
  ℕ, ◌+◌, ◌*◌, ◌/◌, ◌%◌, ◌^◌, ◌≤◌, ◌<◌, ◌≡◌, refl, sym, ap, ◌∙◌, ◌≢◌, inl, inr, Bool, true, false,
  not, ◌||◌, arith, ◌==◌, ==_iff, ==_ne, Bool-cases, Memory, update, update_ne,
}
use rvcomp.Paging.Served.{IsServed}
use rvcomp.Paging.Fault.{IsWalk}
use rvcomp.Paging.Invariant.{IsPaged, entries_le}
use rvcomp.Paging.Walk.{store, Access, fetch, load, walk_faults, flag, physical}
use rvcomp.Paging.{Vm, pgsize, dram_base}

or-false : (a b : Bool) → a || b ≡ false → (a ≡ false) × (b ≡ false)
or-false true b e = absurd (ground arith)
or-false false b e = (refl, e)

flag_set : (pte k : ℕ) → not (flag pte k) ≡ false → pte / 2 ^ k % 2 ≡ 1
flag_set pte k e = (==_iff (pte / 2 ^ k % 2) 1).0 (ground arith)

-- What a walk that is not refused tells of the entry.
pub granted :
    (access : Access) (pte : ℕ)
    → walk_faults access pte ≡ false
    → (pte ≢ 0) × (pte / 64 % 2 ≡ 1) × (access ≡ store → pte / 128 % 2 ≡ 1)
granted access pte fine =
    let (rest, user) = or-false _ _ fine in
    let (rest1, allowed) = or-false _ _ rest in
    let (rest2, accessed) = or-false _ _ rest1 in
    let (rest3, leaf) = or-false _ _ rest2 in
    let (valid, formed) = or-false _ _ rest3 in
    let v = flag_set pte 0 valid in
    ((λ z. omega arith), flag_set pte 6 accessed, dirty access allowed)
  where
    dirty :
        (access : Access)
        → elim access [
          | fetch ↦ not (flag pte 3)
          | load ↦ not (flag pte 1)
          | store ↦ not (flag pte 2) || not (flag pte 7)
        ]
          ≡ false
        → access ≡ store
        → pte / 128 % 2 ≡ 1
    dirty fetch e same = ground arith
    dirty load e same = ground arith
    dirty store e same = flag_set pte 7 ((or-false _ _ e).1)

-- Each page that has an entry is accessed.
abbrev pub IsSettled : Vm → Type 0
IsSettled s = (q : ℕ) → s.user_llpt q ≢ 0 → s.user_llpt q / 64 % 2 ≡ 1

module _ (frame : ℕ → ℕ) (walk : IsWalk frame) where
  -- The frame of an entry is the page that the mapping names.
  pub frame_lem :
      (n : ℕ) (s : Vm) (q : ℕ)
      → IsPaged n s
      → s.user_llpt q ≢ 0
      → (frame (s.user_llpt q) ≡ (s.user_mapping q).addr)
        × ((s.user_mapping q).addr % pgsize ≡ 0)
        × (dram_base + 64 * pgsize ≤ (s.user_mapping q).addr)
        × ((s.user_mapping q).addr ≤ dram_base + 126 * pgsize)
  frame_lem n s q h ne =
      let (i, lt, at, (flags, small, pte)) = h.mapped q ne in
      let few = entries_le s.user_llpt 62 in
      let used : i < 63 = omega (arith, h.taken, few, lt) in
      let whole = h.pool.aligned i used in
      let low = h.pool.low i used in
      let high = h.pool.high i used in
      (
        ap frame pte
            ∙ (walk flags ((s.freelist_nodes i).addr / pgsize) small ∙ omega (arith, at, whole)),
        omega (arith, at, whole),
        omega (arith, at, low),
        omega (arith, at, high),
      )

  -- The byte that a served access meets is that of the flat memory.
  pub read_lem :
      (flat : Memory) (n : ℕ) (access : Access) (addr : ℕ) (t : Vm)
      → IsServed flat n t
      → walk_faults access (t.user_llpt (addr / pgsize)) ≡ false
      → t.mem (physical frame t addr) ≡ flat addr
  read_lem flat n access addr t h fine =
      let page : ℕ = addr / pgsize in
      let (ne, a, d) = granted access (t.user_llpt page) fine in
      let (at, aligned, low, high) = frame_lem n t page h.paged ne in
      let whole : page * pgsize + addr % pgsize ≡ addr = omega arith in
      ap (λ (k : ℕ). t.mem (k + addr % pgsize)) at
      ∙ (h.contents page (addr % pgsize) (omega arith) ne ∙ ap flat whole)

  module _ (flat : Memory) (n : ℕ) (addr v : ℕ) (t : Vm) (h : IsServed flat n t)
      (above : pgsize ≤ addr) (below : addr < 63 * pgsize) (byte : v < 256)
      (fine : walk_faults store (t.user_llpt (addr / pgsize)) ≡ false) where
    abbrev pub stored : Vm
    stored = record t { mem = update t.mem (physical frame t addr) v }

    store_at :
        (physical frame t addr ≡ (t.user_mapping (addr / pgsize)).addr + addr % pgsize)
        × ((t.user_mapping (addr / pgsize)).addr % pgsize ≡ 0)
        × (dram_base + 64 * pgsize ≤ (t.user_mapping (addr / pgsize)).addr)
    store_at =
        let (ne, a, d) = granted store (t.user_llpt (addr / pgsize)) fine in
        let (at, aligned, low, high) = frame_lem n t (addr / pgsize) h.paged ne in
        (ap (λ (k : ℕ). k + addr % pgsize) at, aligned, low)

    store_contents :
        (q j : ℕ)
        → j < pgsize
        → t.user_llpt q ≢ 0
        → stored.mem ((t.user_mapping q).addr + j) ≡ update flat addr v (q * pgsize + j)
    store_contents q j lt ne =
        let page : ℕ = addr / pgsize in
        let (set, a, d) = granted store (t.user_llpt page) fine in
        let (at, aligned, low) = store_at in
        let (at', aligned', low', high') = frame_lem n t q h.paged ne in
        elim (Bool-cases (page == q)) [
          | inl e ↦
              let here : page ≡ q = (==_iff page q).0 e in
              let same : (t.user_mapping page).addr ≡ (t.user_mapping q).addr =
                ap (λ (k : ℕ). (t.user_mapping k).addr) here in
              same_place (physical frame t addr) ((t.user_mapping q).addr + j) (q * pgsize + j)
                (h.contents q j lt ne) (λ hit. omega (arith, at, same, here))
                (λ hit. omega (arith, at, same, here))
          | inr e ↦
              let other = ==_ne page q e in
              let differ = h.paged.apart page q other set ne in
              same_place (physical frame t addr) ((t.user_mapping q).addr + j) (q * pgsize + j)
                (h.contents q j lt ne)
                (λ hit. absurd (differ (omega (arith, at, aligned, aligned'))))
                (λ hit. absurd (other (omega arith)))
        ]
      where
        same_place :
            (p a b : ℕ)
            → t.mem a ≡ flat b
            → (p ≡ a → addr ≡ b)
            → (addr ≡ b → p ≡ a)
            → update t.mem p v a ≡ update flat addr v b
        same_place p a b old there back = elim (Bool-cases (p == a)) [
          | inl e ↦
              let hit : (addr == b) ≡ true = (==_iff addr b).1 (there ((==_iff p a).0 e)) in
              rw (e, hit) refl
          | inr e ↦ elim (Bool-cases (addr == b)) [
            | inl e' ↦ absurd (==_ne p a e (back ((==_iff addr b).0 e')))
            | inr e' ↦ rw (e, e') old
          ]
        ]

    store_clean :
        (q j : ℕ)
        → q ≤ 62
        → j < pgsize
        → t.user_llpt q / 128 % 2 ≡ 0
        → stored.mem (dram_base + q * pgsize + j) ≡ update flat addr v (q * pgsize + j)
    store_clean q j most lt z =
        let page : ℕ = addr / pgsize in
        let (set, a, d) = granted store (t.user_llpt page) fine in
        let (at, aligned, low) = store_at in
        let other : page ≢ q =
          λ e. let one = d refl in let same = ap t.user_llpt e in absurd (omega arith) in
        update_ne t.mem (physical frame t addr) v (dram_base + q * pgsize + j)
          (λ e. omega (arith, at, low))
        ∙ (h.clean q j most lt z
            ∙ sym (update_ne flat addr v (q * pgsize + j) (λ e. other (omega arith))))

    -- A store that is served changes that byte of the flat memory, and no other.
    pub store_lem : IsServed (update flat addr v) n stored
    store_lem = record {
      paged = record {
        pool = h.paged.pool;
        taken = h.paged.taken;
        head = h.paged.head;
        unmapped = h.paged.unmapped;
        mapped = h.paged.mapped;
        apart = h.paged.apart;
      };
      bytes = λ p. elim (Bool-cases (physical frame t addr == p)) [
        | inl e ↦ rw e byte
        | inr e ↦ rw e (h.bytes p)
      ];
      flags = h.flags;
      contents = store_contents;
      clean = store_clean;
    }
