-- ===== src/Printf/Float.antt =====
-- prog/coremark/riscv/ee_printf.c with HAS_FLOAT: the two routines that edit the text of a floating
-- point number in its buffer, decimal_point and cropzeros, on the bytes of the memory.
pub mod Point
pub mod Crop
use rvcomp.Base.{
  ℕ, zero, suc, ◌+◌, ◌-◌, Bool, true, false, ◌||◌, Option, none, some, ◌==◌, if◌then◌else◌, ◌>>=◌,
  Memory, update,
}

-- `*buffer == 'e' || *buffer == 'E'`
abbrev pub is_exponent : ℕ → Bool
is_exponent c = c == b'e' || c == b'E'

-- The first loop of `decimal_point`, on fuel: where it stops.
unfoldable pub point_loop : ℕ → ℕ → Memory → Option ℕ
point_loop zero buffer m = none
point_loop (suc fuel) buffer m =
    elim (m buffer == 0 || m buffer == b'.' || is_exponent (m buffer)) [
      | true ↦ some buffer
      | false ↦ point_loop fuel (buffer + 1) m
    ]

-- `strnlen`, in the memory.
unfoldable pub strnlen_at : ℕ → ℕ → Memory → ℕ
strnlen_at zero s m = 0
strnlen_at (suc count) s m = elim (m s == 0) [ true ↦ 0 | false ↦ suc (strnlen_at count (s + 1) m) ]

-- `while (n > 0) { buffer[n + 1] = buffer[n]; n--; }`
unfoldable pub shift_loop : ℕ → ℕ → Memory → Memory
shift_loop zero buffer m = m
shift_loop (suc n) buffer m =
    shift_loop n buffer (update m (buffer + (suc n + 1)) (m (buffer + suc n)))

-- `decimal_point`
unfoldable pub decimal_point : ℕ → ℕ → Memory → Option Memory
decimal_point fuel buffer m = do
  at ← point_loop fuel buffer m
  some (
      if m at == b'.'
      then m
      else (if m at == 0
          then update (update m at b'.') (at + 1) 0
          else update (shift_loop (strnlen_at 256 at m) at m) at b'.'))

-- The first two loops of `cropzeros`: up to the point, and up to the exponent or the end.
unfoldable pub seek_point : ℕ → ℕ → Memory → Option ℕ
seek_point zero buffer m = none
seek_point (suc fuel) buffer m = elim (m buffer == 0 || m buffer == b'.') [
  | true ↦ some buffer
  | false ↦ seek_point fuel (buffer + 1) m
]

unfoldable pub seek_stop : ℕ → ℕ → Memory → Option ℕ
seek_stop zero buffer m = none
seek_stop (suc fuel) buffer m = elim (m buffer == 0 || is_exponent (m buffer)) [
  | true ↦ some buffer
  | false ↦ seek_stop fuel (buffer + 1) m
]

-- `while (*buffer == '0') buffer--`
unfoldable pub skip_zeros : ℕ → ℕ → Memory → Option ℕ
skip_zeros zero buffer m = none
skip_zeros (suc fuel) buffer m = elim (m buffer == b'0') [
  | true ↦ skip_zeros fuel (buffer - 1) m
  | false ↦ some buffer
]

-- `while (buffer != stop) *++buffer = 0`, with `n` bytes between them.
unfoldable pub clear_loop : ℕ → ℕ → Memory → Memory
clear_loop zero buffer m = m
clear_loop (suc n) buffer m = clear_loop n (buffer + 1) (update m (buffer + 1) 0)

-- `cropzeros`, where the buffer does not begin at address 0.
unfoldable pub cropzeros : ℕ → ℕ → Memory → Option Memory
cropzeros fuel buffer m = do
  at ← seek_point fuel buffer m
  elim (m at == 0) [
    | true ↦ some m
    | false ↦ do
      stop ← seek_stop fuel (at + 1) m
      last ← skip_zeros fuel (stop - 1) m
      let keep = if m last == b'.' then last - 1 else last
      some (clear_loop (stop - keep) keep m)
  ]
