-- ===== src/Base/Mem.antt =====
-- A memory is a function from addresses to what they hold.
use Prim.Native.Nat.{ℕ, ◌+◌, ◌-◌}
use mathlib.Core.Path.{◌≡◌, fun_ext}
use mathlib.Core.Logic.{◌≢◌}
use mathlib.Core.Bool.{◌&&◌}
use native.Mathlib.Omega.{arith}
use rvcomp.Base.Tests.{ltb, leb, ◌==◌, if◌then◌else◌}

abbrev pub Memory : Type 0
Memory = ℕ → ℕ

abbrev pub update : Memory → ℕ → ℕ → Memory
update m a v = λ b. if a == b then v else m b

pub update_self : (m : Memory) (a v : ℕ) → update m a v a ≡ v
update_self m a v = ground arith

pub update_ne : (m : Memory) (a v b : ℕ) → a ≢ b → update m a v b ≡ m b
update_ne m a v b h = ground arith

-- `n` bytes copied to address `a` of `dst` from address `b` of `src`.
abbrev pub blit : Memory → ℕ → Memory → ℕ → ℕ → Memory
blit dst a src b n = λ q. if leb a q && ltb q (a + n) then src (b + (q - a)) else dst q

-- Two adjacent copies are one.
pub blit-blit :
    (dst : Memory) (a : ℕ) (src : Memory) (b n k : ℕ)
    → blit (blit dst a src b n) (a + n) src (b + n) k ≡ blit dst a src b (n + k)
blit-blit dst a src b n k = fun_ext λ q. go q
  where
    go : (q : ℕ) → blit (blit dst a src b n) (a + n) src (b + n) k q ≡ blit dst a src b (n + k) q
    go q = ground arith

pub blit-zero : (dst : Memory) (a : ℕ) (src : Memory) (b : ℕ) → blit dst a src b 0 ≡ dst
blit-zero dst a src b = fun_ext λ q. ground arith
