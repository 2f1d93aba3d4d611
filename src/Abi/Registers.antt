-- ===== src/Abi/Registers.antt =====
-- The registers of a system call: how include/user/sys/syscalls.h fills them, and how C converts
-- arguments to and from them. A pointer, an identifier and a size are words of 64 bits already.
use jrinx.Base.{ℕ, ◌-◌, ◌%◌, ◌^◌, ◌<◌, ◌≡◌, arith, ltb, if◌then◌else◌}
use jrinx.Base.Int.{ℤ, pos, negsuc}
use jrinx.Types.{Time, IsTime}
use native.Mathlib.Nat.{mod-eq_of_lt}

-- The argument registers of `struct context` and of the `ecall`.
pub record Regs : Type 0 where
  pub a0 : ℕ
  pub a1 : ℕ
  pub a2 : ℕ
  pub a3 : ℕ
  pub a4 : ℕ
  pub a5 : ℕ
  pub a6 : ℕ
  pub a7 : ℕ

abbrev pub syscall : ℕ → ℕ → ℕ → ℕ → ℕ → ℕ → ℕ → ℕ → Regs
syscall sysno arg0 arg1 arg2 arg3 arg4 arg5 arg6 = record {
  a0 = arg0;
  a1 = arg1;
  a2 = arg2;
  a3 = arg3;
  a4 = arg4;
  a5 = arg5;
  a6 = arg6;
  a7 = sysno;
}

-- A signed value as an `unsigned long`, by two's complement.
unfoldable pub of_time : ℤ → ℕ
of_time (pos n) = n
of_time (negsuc n) = 2 ^ 64 - 1 - n

-- An `unsigned long` as an `intmax_t`, as an `int`, and as an enumeration, which is unsigned.
unfoldable pub to_time : ℕ → Time
to_time w = if ltb w (2 ^ 63) then pos w else negsuc (2 ^ 64 - 1 - w)

unfoldable pub to_int : ℕ → ℤ
to_int w = if ltb (w % 2 ^ 32) (2 ^ 31) then pos (w % 2 ^ 32) else negsuc (2 ^ 32 - 1 - w % 2 ^ 32)

unfoldable pub to_enum : ℕ → ℕ
to_enum w = w % 2 ^ 32

abbrev pub IsInt : ℤ → Type 0
IsInt (pos n) = n < 2 ^ 31
IsInt (negsuc n) = n < 2 ^ 31

abbrev pub IsEnum : ℕ → Type 0
IsEnum e = e < 2 ^ 32

pub to_time-of_time : (t : Time) → IsTime t → to_time (of_time t) ≡ t
unfolding to_time of_time
to_time-of_time (pos n) h = ground arith
to_time-of_time (negsuc n) h = ground arith

pub to_int-of_time : (t : ℤ) → IsInt t → to_int (of_time t) ≡ t
unfolding to_int of_time
to_int-of_time (pos n) h = ground arith
to_int-of_time (negsuc n) h = ground arith

pub to_enum_lem : (e : ℕ) → IsEnum e → to_enum e ≡ e
unfolding to_enum
to_enum_lem e h = mod-eq_of_lt h
