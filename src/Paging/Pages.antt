-- ===== src/Paging/Pages.antt =====
-- The free list that vm_boot builds: 63 different pages behind those of the test, in list order.
use native.Mathlib.Nat.{add-zero, zero-add}
use rvcomp.Base.{
  ℕ, zero, suc, ◌+◌, ◌-◌, ◌*◌, ◌/◌, ◌%◌, ◌≤◌, ◌<◌, ◌≡◌, refl, sym, ap, ◌∙◌, ◌≢◌, inl, inr, Bool,
  true, false, not, ◌&&◌, List, [], ◌∷◌, arith, leb, ◌==◌, if◌then◌else◌, ==_iff, Bool-cases,
  length, get_or, Memory,
}
use rvcomp.Paging.{
  lfsr_next, null, free_node, Node, max_test_pages, pgsize, dram_base, set_node, link_nodes,
  vm_boot,
}

-- The `k`th number of the generator from `x` on.
abbrev pub orbit : ℕ → ℕ → ℕ
orbit zero x = x
orbit (suc k) x = orbit k (lfsr_next x)

abbrev orbit_list : ℕ → ℕ → List ℕ
orbit_list zero x = []
orbit_list (suc k) x = x ∷ orbit_list k (lfsr_next x)

get_or-orbit_list : (n k x : ℕ) → k < n → get_or (orbit_list n x) k 0 ≡ orbit k x
get_or-orbit_list zero k x lt = absurd (omega arith)
get_or-orbit_list (suc n) zero x lt = refl
get_or-orbit_list (suc n) (suc k) x lt = get_or-orbit_list n k (lfsr_next x) (omega arith)

-- Numbers from 1 to 63, all different.
abbrev absent : ℕ → List ℕ → Bool
absent x [] = true
absent x (y ∷ ys) = not (x == y) && absent x ys

abbrev pages : List ℕ → Bool
pages [] = true
pages (x ∷ xs) = leb 1 x && leb x 63 && absent x xs && pages xs

absent_lem : (xs : List ℕ) (x j : ℕ) → absent x xs ≡ true → j < length xs → x ≢ get_or xs j 0
absent_lem [] x j h lt = absurd (omega arith)
absent_lem (y ∷ ys) x zero h lt = ground arith
absent_lem (y ∷ ys) x (suc j) h lt = absent_lem ys x j (ground arith) (omega arith)

pages_lem :
    (xs : List ℕ) (i : ℕ)
    → pages xs ≡ true
    → i < length xs
    → (1 ≤ get_or xs i 0)
      × (get_or xs i 0 ≤ 63)
      × ((j : ℕ) → i < j → j < length xs → get_or xs i 0 ≢ get_or xs j 0)
pages_lem [] i h lt = absurd (omega arith)
pages_lem (x ∷ xs) zero h lt = (ground arith, ground arith, go)
  where
    go : (j : ℕ) → 0 < j → j < suc (length xs) → x ≢ get_or (x ∷ xs) j 0
    go zero pos less = absurd (omega arith)
    go (suc j) pos less = absent_lem xs x j (ground arith) (omega arith)
pages_lem (x ∷ xs) (suc i) h lt =
    let (least, most, rest) = pages_lem xs i (ground arith) (omega arith) in (least, most, go rest)
  where
    go :
        ((j : ℕ) → i < j → j < length xs → get_or xs i 0 ≢ get_or xs j 0)
        → (j : ℕ) → suc i < j
        → j < suc (length xs)
        → get_or xs i 0 ≢ get_or (x ∷ xs) j 0
    go rest zero less most = absurd (omega arith)
    go rest (suc j) less most = rest j (omega arith) (omega arith)

-- A test that every number from 1 to `n` passes.
abbrev pub all_upto : (ℕ → Bool) → ℕ → Bool
all_upto test zero = true
all_upto test (suc n) = test (suc n) && all_upto test n

pub all_upto_lem :
    (test : ℕ → Bool) (n x : ℕ) → all_upto test n ≡ true → 1 ≤ x → x ≤ n → test x ≡ true
all_upto_lem test zero x h least most = absurd (omega arith)
all_upto_lem test (suc n) x h least most = elim (Bool-cases (x == suc n)) [
  | inl e ↦ let same : x ≡ suc n = (==_iff x (suc n)).0 e in rw same (ground arith)
  | inr e ↦ all_upto_lem test n x (ground arith) least (ground arith)
]

starts_well : ℕ → Bool
starts_well x = pages (orbit_list 63 x)

every_start : all_upto starts_well 63 ≡ true
unfolding lfsr_next starts_well
every_start = refl

length-orbit_list : (n x : ℕ) → length (orbit_list n x) ≡ n
length-orbit_list zero x = refl
length-orbit_list (suc n) x = ap suc (length-orbit_list n (lfsr_next x))

orbit_lem :
    (x i : ℕ)
    → 1 ≤ x
    → x ≤ 63
    → i < 63
    → (1 ≤ orbit i x) × (orbit i x ≤ 63) × ((j : ℕ) → i < j → j < 63 → orbit i x ≢ orbit j x)
unfolding starts_well
orbit_lem x i least most lt =
    let ok = all_upto_lem starts_well 63 x every_start least most in
    let len = length-orbit_list 63 x in
    let (low, high, differ) = pages_lem (orbit_list 63 x) i ok (omega arith) in
    let here = get_or-orbit_list 63 i x lt in
    (
      rw here at low,
      rw here at high,
      λ j less small e.
          differ j less (omega arith) (here ∙ (e ∙ sym (get_or-orbit_list 63 j x small))),
    )

-- The node that the loop fills in the `k`th step from `random` on.
abbrev pub page_node : ℕ → ℕ → ℕ → Node
page_node j k random = record {
  addr = dram_base + (max_test_pages + orbit k random) * pgsize;
  next = free_node (j + 1);
}

link_nodes-before :
    (left i random : ℕ) (nodes : ℕ → Node) (j : ℕ)
    → j < i
    → link_nodes left i random nodes j ≡ nodes j
unfolding link_nodes
link_nodes-before zero i random nodes j lt = refl
link_nodes-before (suc left) i random nodes j lt =
    let other : (i == j) ≡ false = ground arith in
    link_nodes-before left (suc i) (lfsr_next random) (set_node nodes i (page_node i 0 random)) j
      (omega arith)
    ∙ rw other refl

link_nodes_lem :
    (left i random : ℕ) (nodes : ℕ → Node) (k : ℕ)
    → k < left
    → link_nodes left i random nodes (i + k) ≡ page_node (i + k) k random
unfolding link_nodes
link_nodes_lem zero i random nodes k lt = absurd (omega arith)
link_nodes_lem (suc left) i random nodes zero lt =
    let here : (i == i) ≡ true = ground arith in
    rw (add-zero i) (
      link_nodes-before left (suc i) (lfsr_next random) (set_node nodes i (page_node i 0 random)) i
        (omega arith)
      ∙ rw here refl)
link_nodes_lem (suc left) i random nodes (suc k) lt =
    let at : suc i + k ≡ i + suc k = omega arith in
    rw at at (
      link_nodes_lem left (suc i) (lfsr_next random) (set_node nodes i (page_node i 0 random)) k
        (omega arith))

-- What `vm_boot` leaves of the `i`th node.
pub boot_node :
    (entropy : ℕ) (m : Memory) (i : ℕ)
    → i < 63
    → (((vm_boot entropy m).freelist_nodes i).addr
        ≡ dram_base + (max_test_pages + orbit i (1 + entropy % 63)) * pgsize)
      × (((vm_boot entropy m).freelist_nodes i).next
          ≡ (if i == 62 then null else free_node (i + 1)))
unfolding vm_boot
boot_node entropy m i lt =
    let none_yet : ℕ → Node = λ _. record { addr = 0; next = null } in
    let filled : (k : ℕ)
        → k < 63
        → link_nodes 63 0 (1 + entropy % 63) none_yet k ≡ page_node k k (1 + entropy % 63) =
      λ k less.
        let at : 0 + k ≡ k = zero-add k in
        rw at at (link_nodes_lem 63 0 (1 + entropy % 63) none_yet k less) in
    elim (Bool-cases (62 == i)) [
      | inl e ↦
          let last : 62 ≡ i = (==_iff 62 i).0 e in
          let same : (i == 62) ≡ true = ground arith in
          rw (e, same)
            (
              ap Node.addr (filled 62 (omega arith))
                  ∙ ap
                      (λ (k : ℕ).
                        dram_base + (max_test_pages + orbit k (1 + entropy % 63)) * pgsize)
                      last,
              refl,
            )
      | inr e ↦
          let other : (i == 62) ≡ false = ground arith in
          rw (e, other) (ap Node.addr (filled i lt), ap Node.next (filled i lt))
    ]

-- Whatever the entropy, vm_boot links all 63 nodes in their order, the last one to null, and gives
-- them the addresses of 63 different pages: pages 64 to 126 of the memory, where the test's image
-- has the pages up to 62.
pub vm_boot_lem :
    (entropy : ℕ) (m : Memory) (i : ℕ)
    → i < 63
    → let nodes = (vm_boot entropy m).freelist_nodes in
      let page = ((nodes i).addr - dram_base) / pgsize in
      ((nodes i).next ≡ (if i == 62 then null else free_node (i + 1)))
      × ((nodes i).addr ≡ dram_base + page * pgsize)
      × (64 ≤ page)
      × (page ≤ 126)
      × ((j : ℕ) → i < j → j < 63 → (nodes i).addr ≢ (nodes j).addr)
vm_boot_lem entropy m i lt =
    let (low, high, differ) = orbit_lem (1 + entropy % 63) i (omega arith) (omega arith) lt in
    let (addr, next) = boot_node entropy m i lt in
    (
      next,
      omega (arith, addr),
      omega (arith, addr),
      omega (arith, addr),
      λ j less small e.
          differ j less small (omega (arith, addr, e, (boot_node entropy m j small).0)),
    )
