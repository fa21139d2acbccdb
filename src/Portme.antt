-- ===== src/Portme.antt =====
-- prog/coremark/riscv/core_portme.c: the clock of the CoreMark port and its set-up.
use rvcomp.Base.{ℕ, ◌+◌, ◌^◌, ◌<◌, ◌≡◌, arith, u32, sub32}

-- `start_time_val` and `stop_time_val`.
pub record Timer : Type 0 where
  pub start_time_val : ℕ
  pub stop_time_val : ℕ

-- `barebones_clock`, with `mtime` what the register gives.
abbrev pub barebones_clock : ℕ → ℕ
barebones_clock mtime = u32 mtime

unfoldable pub start_time : ℕ → Timer → Timer
start_time mtime t = record t { start_time_val = barebones_clock mtime }

unfoldable pub stop_time : ℕ → Timer → Timer
stop_time mtime t = record t { stop_time_val = barebones_clock mtime }

unfoldable pub get_time : Timer → ℕ
get_time t = sub32 t.stop_time_val t.start_time_val

-- `portable_init` and `portable_fini` on `portable_id`; the checks of sizes print nothing.
unfoldable pub portable_init : ℕ → ℕ
portable_init portable_id = 1

unfoldable pub portable_fini : ℕ → ℕ
portable_fini portable_id = 0

-- get_time gives the ticks between start_time and stop_time as long as they are less than 2 ^ 32,
-- whatever the clock showed at the start and whether or not its 32 bits ran over in between.
pub get_time_lem :
    (mtime ticks : ℕ) (t : Timer)
    → ticks < 2 ^ 32
    → get_time (stop_time (mtime + ticks) (start_time mtime t)) ≡ ticks
unfolding get_time stop_time start_time
get_time_lem mtime ticks t lt = omega arith
