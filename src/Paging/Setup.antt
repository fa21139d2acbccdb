-- ===== src/Paging/Setup.antt =====
-- `vm_boot` of vm.c as a whole: the other harts, the registers in the order of their writes, and
-- the start of the test.
use native.Mathlib.Nat.{pow-suc, div-eq_of_lt}
use rvcomp.Base.{
  ℕ, zero, suc, ◌+◌, ◌-◌, ◌/◌, ◌%◌, ◌^◌, ◌≤◌, ◌<◌, bit_or, ◌≡◌, refl, ◌⊎◌, inl, inr, Bool, true,
  false, not, ◌||◌, Option, none, some, List, [], ◌∷◌, arith, ltb, ◌==◌, if◌then◌else◌, ==_iff,
  Bool-cases, Memory, sub32, ◌<<<◌,
}
use rvcomp.Paging.Walk.{flag}
use rvcomp.Paging.Tables.{satp_value, pa2kva}
use rvcomp.Paging.Pages.{all_upto, all_upto_lem}
use rvcomp.Paging.{
  Vm, terminated, max_test_pages, dram_base, vm_boot, and_then, no_filter, handle_fault, evict_all,
  handle_trap,
}

pub data Csr : Type 0 where
  satp : Csr
  pmpaddr0 : Csr
  pmpcfg0 : Csr
  stvec : Csr
  sscratch : Csr
  medeleg : Csr
  mstatus : Csr
  mie : Csr

-- What vm_boot comes to: `coherence_torture`, the assertion on satp, or the test, with the writes to
-- the registers, what the variables hold and the address that the test starts at.
pub data Booted : Type 0 where
  torture : Booted
  unsupported : Booted
  starts : List (Csr × ℕ) → Vm → ℕ → Booted

-- (1 << CAUSE_USER_ECALL) | ... of the four causes
abbrev pub delegated : ℕ
delegated = bit_or (bit_or (bit_or (1 <<< 8) (1 <<< 0xc)) (1 <<< 0xd)) (1 <<< 0xf)

-- MSTATUS_FS | MSTATUS_XS | MSTATUS_VS
abbrev pub units_on : ℕ
units_on = bit_or (bit_or 0x6000 0x18000) 0x600

-- The writes behind the check of satp; PMP_NAPOT | PMP_R | PMP_W | PMP_X is 0x1f.
unfoldable pub set_up : ℕ → ℕ → List (Csr × ℕ)
set_up trap_entry mscratch =
    (pmpaddr0, (1 <<< 31) - 1)
    ∷ (pmpcfg0, 0x1f)
    ∷ (stvec, pa2kva trap_entry)
    ∷ (sscratch, pa2kva mscratch)
    ∷ (medeleg, delegated)
    ∷ (mstatus, units_on)
    ∷ (mie, 0)
    ∷ []

-- `vm_boot`: `satp_reads` is what satp holds after the value is written to it.
unfoldable pub vm_boot_all : ℕ → (ℕ → ℕ) → ℕ → ℕ → ℕ → ℕ → ℕ → Memory → Booted
vm_boot_all mhartid satp_reads l1pt trap_entry mscratch test_addr entropy m =
    if ltb 0 mhartid
    then torture
    else (if satp_reads (satp_value l1pt) == satp_value l1pt
        then starts ((satp, satp_value l1pt) ∷ set_up trap_entry mscratch) (vm_boot entropy m)
            (sub32 test_addr dram_base)
        else unsupported)

-- The numbers of the registers, and what is written to one.
abbrev pub csr_number : Csr → ℕ
csr_number satp = 0x180
csr_number pmpaddr0 = 0x3b0
csr_number pmpcfg0 = 0x3a0
csr_number stvec = 0x105
csr_number sscratch = 0x140
csr_number medeleg = 0x302
csr_number mstatus = 0x300
csr_number mie = 0x304

abbrev pub written_to : Csr → List (Csr × ℕ) → Option ℕ
written_to csr [] = none
written_to csr ((r, v) ∷ writes) =
    let rest = written_to csr writes in if csr_number csr == csr_number r then some v else rest

pow_16 : (k : ℕ) → 2 ^ 16 ≤ 2 ^ (k + 16)
pow_16 zero = omega arith
pow_16 (suc k) =
    let at : suc k + 16 ≡ suc (k + 16) = omega arith in
    rw at (omega (arith, pow-suc 2 (k + 16), pow_16 k))

abbrev pub IsDelegated : ℕ → Type 0
IsDelegated c = (c ≡ 8) ⊎ ((c ≡ 0xc) ⊎ ((c ≡ 0xd) ⊎ (c ≡ 0xf)))

high_bits : (c : ℕ) → 16 ≤ c → flag delegated c ≡ false
high_bits c le =
    let at : c - 16 + 16 ≡ c = omega arith in
    let big : 2 ^ 16 ≤ 2 ^ c = rw at at (pow_16 (c - 16)) in gone (2 ^ c) big
  where
    gone : (p : ℕ) → 2 ^ 16 ≤ p → (delegated / p % 2 == 1) ≡ false
    gone p le = let none_left : delegated / p ≡ 0 = div-eq_of_lt (omega arith) in rw none_left refl

delegated_test : ℕ → Bool
delegated_test c = not (flag delegated c) || c == 8 || c == 0xc || c == 0xd || c == 0xf

every_cause : all_upto delegated_test 15 ≡ true
unfolding delegated_test
every_cause = refl

flag-IsDelegated : (c : ℕ) → flag delegated c ≡ true → IsDelegated c
unfolding delegated_test
flag-IsDelegated zero set = absurd (ground arith)
flag-IsDelegated (suc c) set = elim (Bool-cases (ltb c 15)) [
  | inl e ↦
      let test = all_upto_lem delegated_test 15 (suc c) every_cause (omega arith) (ground arith) in
      one_of (suc c) set test
  | inr e ↦ absurd (let high = high_bits (suc c) (ground arith) in ground arith)
]
  where
    one_of :
        (c : ℕ)
        → flag delegated c ≡ true
        → (not (flag delegated c) || c == 8 || c == 0xc || c == 0xd || c == 0xf) ≡ true
        → IsDelegated c
    one_of c set test = two_of c (rw set at test)
      where
        two_of : (c : ℕ) → (c == 8 || c == 0xc || c == 0xd || c == 0xf) ≡ true → IsDelegated c
        two_of c test = ground arith

IsDelegated-flag : (c : ℕ) → IsDelegated c → flag delegated c ≡ true
IsDelegated-flag c (inl e) = rw e refl
IsDelegated-flag c (inr (inl e)) = rw e refl
IsDelegated-flag c (inr (inr (inl e))) = rw e refl
IsDelegated-flag c (inr (inr (inr e))) = rw e refl

-- The trap handler has a branch for each cause that is delegated to it.
delegated_lem :
    (frame : ℕ → ℕ) (c badvaddr a0 epc : ℕ) (is_fssr : Bool) (s : Vm)
    → IsDelegated c
    → (c ≡ 8)
        × (handle_trap no_filter frame false c badvaddr a0 epc is_fssr s
            ≡ and_then (evict_all no_filter frame (max_test_pages - 1) s) (λ t. terminated a0))
      ⊎ (handle_trap no_filter frame false c badvaddr a0 epc is_fssr s
          ≡ handle_fault no_filter frame badvaddr c s)
unfolding handle_trap
delegated_lem frame c badvaddr a0 epc is_fssr s (inl e) = inl (e, rw e refl)
delegated_lem frame c badvaddr a0 epc is_fssr s (inr (inl e)) = inr (rw e refl)
delegated_lem frame c badvaddr a0 epc is_fssr s (inr (inr (inl e))) = inr (rw e refl)
delegated_lem frame c badvaddr a0 epc is_fssr s (inr (inr (inr e))) = inr (rw e refl)

-- Where satp takes the value that is written to it, the first hart starts the test with the free
-- list of vm_boot, and the bits set in what it has written to medeleg are those of exactly four
-- causes: the system call of the user and the three page faults, 8, 12, 13 and 15. Each of them,
-- with no filter of the test's, the trap handler answers by the eviction of every page and the exit
-- code or as a page fault, and never as an unexpected exception. Every other hart goes to
-- coherence_torture.
pub vm_boot_all_lem :
    (frame : ℕ → ℕ) (mhartid : ℕ) (satp_reads : ℕ → ℕ)
    (l1pt trap_entry mscratch test_addr entropy : ℕ) (m : Memory)
    → satp_reads (satp_value l1pt) ≡ satp_value l1pt
    → let booted = vm_boot_all mhartid satp_reads l1pt trap_entry mscratch test_addr entropy m in
      (0 < mhartid → booted ≡ torture)
      × (mhartid ≡ 0
          → (writes : List (Csr × ℕ)) × (causes : ℕ) × (booted
              ≡ starts writes (vm_boot entropy m) (sub32 test_addr dram_base))
            × (written_to satp writes ≡ some (satp_value l1pt))
            × (written_to medeleg writes ≡ some causes)
            × ((c : ℕ) → flag causes c ≡ true → IsDelegated c)
            × ((c : ℕ) → IsDelegated c → flag causes c ≡ true)
            × ((c badvaddr a0 epc : ℕ) (is_fssr : Bool) (s : Vm)
                → flag causes c ≡ true
                → (c ≡ 8)
                    × (handle_trap no_filter frame false c badvaddr a0 epc is_fssr s
                        ≡ and_then
                            (evict_all no_filter frame (max_test_pages - 1) s)
                            (λ t. terminated a0))
                  ⊎ (handle_trap no_filter frame false c badvaddr a0 epc is_fssr s
                      ≡ handle_fault no_filter frame badvaddr c s)))
unfolding vm_boot_all set_up
vm_boot_all_lem frame mhartid satp_reads l1pt trap_entry mscratch test_addr entropy m reads = (
  (λ not_first. let other : ltb 0 mhartid ≡ true = ground arith in rw other refl),
  λ first.
      let here : ltb 0 mhartid ≡ false = ground arith in
      let kept : (satp_reads (satp_value l1pt) == satp_value l1pt) ≡ true =
        (==_iff (satp_reads (satp_value l1pt)) (satp_value l1pt)).1 reads in
      (
        (satp, satp_value l1pt) ∷ set_up trap_entry mscratch,
        delegated,
        rw (here, kept) refl,
        refl,
        refl,
        flag-IsDelegated,
        IsDelegated-flag,
        λ c badvaddr a0 epc is_fssr s set.
            delegated_lem frame c badvaddr a0 epc is_fssr s (flag-IsDelegated c set),
      ),
)
