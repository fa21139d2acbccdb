-- ===== src/Strings.antt =====
-- prog/riscv-tests/env/v/string.c over a memory of bytes with 32-bit addresses.
pub mod Copying
pub mod Setting
pub mod Comparing
pub mod Number
mod Tests
use mathlib.Core.Option
use rvcomp.Base.Int.{ℤ, pos, minus}
use rvcomp.Base.{
  ℕ, zero, suc, ◌+◌, ◌-◌, ◌*◌, ◌/◌, ◌%◌, ◌^◌, bit_and, bit_or, true, false, not, ◌&&◌, Option, none,
  some, List, [], ◌∷◌, ltb, leb, ◌==◌, if◌then◌else◌, Memory, blit, u32, sub32, ◌<<<◌,
}

-- The copy loop that moves `size` bytes a round, 4 for the loop over words and 1 for the loop over
-- characters, on fuel; `none` when the fuel runs out.
unfoldable pub copy_loop : ℕ → ℕ → ℕ → ℕ → ℕ → Memory → Option Memory
copy_loop zero size d s end m = none
copy_loop (suc fuel) size d s end m = elim (ltb d end) [
  | false ↦ some m
  | true ↦ copy_loop fuel size (u32 (d + size)) (u32 (s + size)) end (blit m d m s size)
]

-- `memcpy`
unfoldable pub memcpy : ℕ → ℕ → ℕ → Memory → Option Memory
memcpy dest src len m =
    let size = if bit_and (bit_or (bit_or dest src) len) 3 == 0 then 4 else 1 in
    copy_loop (suc len) size dest src (u32 (dest + len)) m

-- The loop of `strlen`, on fuel: the address of the first zero from `p` on.
unfoldable pub strlen_loop : ℕ → ℕ → Memory → Option ℕ
strlen_loop zero p m = none
strlen_loop (suc fuel) p m = elim (m p == 0) [
  | true ↦ some p
  | false ↦ strlen_loop fuel (u32 (p + 1)) m
]

-- `strlen`, for a string that ends within `fuel` characters.
unfoldable pub strlen : ℕ → ℕ → Memory → Option ℕ
strlen fuel s m = Option.map (λ p. sub32 p s) (strlen_loop fuel s m)

-- The lowest `size` bytes of a word stored at `d`, lowest first.
abbrev pub store : Memory → ℕ → ℕ → ℕ → Memory
store m d word size = λ q. if leb d q && ltb q (d + size) then word / 256 ^ (q - d) % 256 else m q

-- The loop of `memset` that stores `size` bytes a round, on fuel.
unfoldable pub set_loop : ℕ → ℕ → ℕ → ℕ → ℕ → Memory → Option Memory
set_loop zero size d end word m = none
set_loop (suc fuel) size d end word m = elim (ltb d end) [
  | false ↦ some m
  | true ↦ set_loop fuel size (u32 (d + size)) end word (store m d word size)
]

-- The word of four equal bytes.
unfoldable pub spread : ℕ → ℕ
spread byte =
    let word = bit_and byte 0xff in
    let two = bit_or word (u32 (word <<< 8)) in
    let four = bit_or two (u32 (two <<< 16)) in bit_or four (u32 (u32 (four <<< 16) <<< 16))

-- `memset`
unfoldable pub memset : ℕ → ℕ → ℕ → Memory → Option Memory
memset dest byte len m =
    let end = u32 (dest + len) in
    if bit_and (bit_or dest len) 3 == 0
    then set_loop (suc len) 4 dest end (spread byte) m
    else set_loop (suc len) 1 dest end byte m

-- The loop of `strcpy`, on fuel.
unfoldable pub strcpy : ℕ → ℕ → ℕ → Memory → Option Memory
strcpy zero d s m = none
strcpy (suc fuel) d s m = elim (m s == 0) [
  | true ↦ some (blit m d m s 1)
  | false ↦ strcpy fuel (u32 (d + 1)) (u32 (s + 1)) (blit m d m s 1)
]

-- The loop of `strcmp`, on fuel: the difference of the first characters that differ or end.
unfoldable pub strcmp : ℕ → ℕ → ℕ → Memory → Option ℤ
strcmp zero s1 s2 m = none
strcmp (suc fuel) s1 s2 m = elim (not (m s1 == 0) && m s1 == m s2) [
  | true ↦ strcmp fuel (u32 (s1 + 1)) (u32 (s2 + 1)) m
  | false ↦ some (minus (pos (m s1)) (m s2))
]

-- The word of four bytes at `p`, lowest first.
abbrev pub word_at : Memory → ℕ → ℕ
word_at m p = m p + 256 * m (p + 1) + 65536 * m (p + 2) + 16777216 * m (p + 3)

-- The first loop of `memcmp`, with `k` words left: how many words it passes.
unfoldable pub same_words : ℕ → ℕ → ℕ → Memory → ℕ
same_words zero s1 s2 m = 0
same_words (suc k) s1 s2 m = elim (word_at m s1 == word_at m s2) [
  | true ↦ suc (same_words k (s1 + 4) (s2 + 4) m)
  | false ↦ 0
]

-- The second loop of `memcmp`, with `n` bytes left.
unfoldable pub compare_bytes : ℕ → ℕ → ℕ → Memory → ℤ
compare_bytes zero s1 s2 m = pos 0
compare_bytes (suc n) s1 s2 m = elim (m s1 == m s2) [
  | true ↦ compare_bytes n (s1 + 1) (s2 + 1) m
  | false ↦ minus (pos (m s1)) (m s2)
]

-- `memcmp`. Addresses are not reduced to 32 bits: C leaves it undefined to go past the end of the
-- address space.
unfoldable pub memcmp : ℕ → ℕ → ℕ → Memory → ℤ
memcmp s1 s2 n m =
    let skip = if bit_and (bit_or s1 s2) 3 == 0 then 4 * same_words (n / 4) s1 s2 m else 0 in
    compare_bytes (n - skip) (s1 + skip) (s2 + skip) m

-- The last loop of `atol`, over the characters before the terminating zero, in 32 bits.
unfoldable pub digits_loop : List ℕ → ℕ → ℕ
digits_loop [] res = res
digits_loop (c ∷ str) res = digits_loop str (u32 (u32 (res * 10) + (2 ^ 32 + c - b'0')))

unfoldable pub skip_spaces : List ℕ → List ℕ
skip_spaces [] = []
skip_spaces (c ∷ str) = elim (c == b' ') [ true ↦ skip_spaces str | false ↦ c ∷ str ]

-- `atol` from the sign on.
unfoldable pub signed_digits : List ℕ → ℕ
signed_digits [] = 0
signed_digits (c ∷ str) =
    if c == b'-'
    then u32 (2 ^ 32 - digits_loop str 0)
    else (if c == b'+' then digits_loop str 0 else digits_loop (c ∷ str) 0)

unfoldable pub atol : List ℕ → ℕ
atol str = signed_digits (skip_spaces str)
