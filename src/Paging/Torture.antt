-- ===== src/Paging/Torture.antt =====
-- `coherence_torture` of vm.c, which the harts but the first run: reads of the memory and writes
-- that add nothing, at addresses that a shift register gives.
use rvcomp.Base.{
  ℕ, zero, suc, ◌+◌, ◌-◌, ◌*◌, ◌/◌, ◌%◌, ◌^◌, ◌≤◌, ◌<◌, bit_and, bit_or, bit_xor, ◌≡◌, refl, ◌≢◌,
  List, [], ◌∷◌, arith, ◌==◌, if◌then◌else◌, Memory, u32, ◌<<<◌, ◌>>>◌,
}
use rvcomp.Paging.{max_test_pages, pgsize, dram_base}
use rvcomp.Bits.{bit_and_mask, bit_or_above}
use rvcomp.Strings.{word_at, store}

-- `lfsr63`
unfoldable pub lfsr63 : ℕ → ℕ
lfsr63 x = let bit = bit_and (bit_xor x (x >>> 1)) 1 in bit_or (x >>> 1) (bit <<< 62)

-- `paddr`, for a 64-bit number: the mask is -4 at 64 bits.
unfoldable pub paddr : ℕ → ℕ
paddr random = u32 (dram_base + bit_and (random % (2 * (max_test_pages + 1) * pgsize)) (2 ^ 64 - 4))

-- `amoadd.w zero, zero, (addr)`
abbrev pub add_nothing : ℕ → Memory → Memory
add_nothing addr m = store m addr (u32 (word_at m addr + 0)) 4

-- The first `rounds` rounds of the loop: the addresses met and the memory.
unfoldable pub torture_loop : ℕ → ℕ → Memory → List ℕ × Memory
torture_loop zero random m = ([], m)
torture_loop (suc rounds) random m =
    let after = if bit_and random 1 == 0 then m else add_nothing (paddr random) m in
    let (addrs, last) = torture_loop rounds (lfsr63 random) after in (paddr random ∷ addrs, last)

-- A word of the memory that the pages of the test and its frames are in.
abbrev pub IsWord : ℕ → Type 0
IsWord addr = (addr % 4 ≡ 0) × (dram_base ≤ addr) × (addr + 4 ≤ dram_base + 128 * pgsize)

abbrev pub AllWords : List ℕ → Type 0
AllWords [] = Unit {0}
AllWords (addr ∷ addrs) = IsWord addr × AllWords addrs

-- The generator never stops at zero.
pub lfsr63_lem : (x : ℕ) → x ≢ 0 → x < 2 ^ 63 → (lfsr63 x ≢ 0) × (lfsr63 x < 2 ^ 63)
unfolding lfsr63
lfsr63_lem x ne lt =
    let sum = bit_or_above 62 (x / 2) (bit_and (bit_xor x (x / 2)) 1) (omega arith) in
    let bit = bit_and_mask 1 (bit_xor x (x / 2)) in (not_zero x ne sum, omega (arith, sum, bit))
  where
    not_zero :
        (x : ℕ)
        → x ≢ 0
        → bit_or (x / 2) (bit_and (bit_xor x (x / 2)) 1 * 2 ^ 62)
          ≡ x / 2 + bit_and (bit_xor x (x / 2)) 1 * 2 ^ 62
        → bit_or (x / 2) (bit_and (bit_xor x (x / 2)) 1 * 2 ^ 62) ≢ 0
    not_zero zero ne sum z = ne refl
    not_zero (suc zero) ne sum z = omega arith
    not_zero (suc (suc k)) ne sum z = omega arith
