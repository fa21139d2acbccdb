-- ===== src/Strings/Tests.antt =====
-- string.c at concrete addresses: a copy by words, and a string of three characters.
use rvcomp.Strings.{memcpy, memcmp, memset, atol}
use rvcomp.Strings.Copying.{memcpy_lem}
use rvcomp.Base.{
  ℕ, ◌-◌, ◌^◌, ◌≡◌, refl, inl, some, List, [], ◌∷◌, ◌++◌, arith, ltb, if◌then◌else◌, replicate,
  Memory, blit, u32,
}
use rvcomp.Strings.Number.{atol_lem}
use rvcomp.Strings.Setting.{filled, memset_lem}
use rvcomp.Strings.Comparing.{IsBytes, Compared, memcmp_lem}

abbrev mem : Memory
mem a = if ltb a 3 then 65 else 0

memcpy_lem_example : memcpy 4096 8192 64 mem ≡ some (blit mem 4096 mem 8192 64)
memcpy_lem_example = memcpy_lem 4096 8192 64 mem (inl (omega arith)) (omega arith) (omega arith)

mem-IsBytes : IsBytes mem
mem-IsBytes p = ground arith

memcmp_lem_example : Compared 3 0 1 mem (memcmp 0 1 3 mem)
memcmp_lem_example = memcmp_lem 0 1 3 mem mem-IsBytes

memset_lem_example : memset 4098 0x141 7 mem ≡ some (filled mem 4098 7 0x41)
memset_lem_example = memset_lem 4098 0x141 7 mem (omega arith)

-- "2026", without a sign and with one, behind two spaces.
abbrev year_digits : List ℕ
year_digits = b'0' ∷ b'2' ∷ b'6' ∷ []

atol_lem_example :
    (atol (replicate 2 b' ' ++ b'2' ∷ year_digits) ≡ 2026)
    × (atol (replicate 2 b' ' ++ b'+' ∷ b'2' ∷ year_digits) ≡ 2026)
    × (atol (replicate 2 b' ' ++ b'-' ∷ b'2' ∷ year_digits) ≡ u32 (2 ^ 32 - 2026))
atol_lem_example = atol_lem 2 b'2' year_digits (refl, (refl, (refl, (refl, tt)))) (omega arith)
