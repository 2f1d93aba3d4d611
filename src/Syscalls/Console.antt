-- ===== src/Syscalls/Console.antt =====
-- The console services of kern/traps/syscalls.c and the serial port of kern/drivers/serialport.c that
-- they use. The selected devices are oracles: `accepts n` says whether the `n`-th attempt to put a
-- byte succeeds, `arrives n` what the `n`-th attempt to get one gives. The loops that try again run on
-- fuel; `none` is a panic, or a loop that uses up its fuel.
pub mod Writes
use jrinx.Base.{
  ℕ, zero, suc, ◌-◌, ◌%◌, Bool, true, false, Option, none, some, List, [], ◌∷◌, ◌++◌, ◌==◌,
  if◌then◌else◌,
}
use jrinx.Base.Int.{ℤ, pos, negsuc}
use jrinx.Kernel.{◌>>=◌}
use jrinx.Lock.{Lock, lk_acquire, lk_release}

pub record Serial : Type 0 where
  pub out_lock : Lock
  pub in_lock : Lock
  pub accepts : ℕ → Bool
  pub puts : ℕ
  pub written : List ℕ
  pub arrives : ℕ → Option ℕ
  pub gets : ℕ

unfoldable pub serial_out_dev_lock_acquire : ℕ → Serial → Option Serial
serial_out_dev_lock_acquire hart s = do
  l ← lk_acquire hart s.out_lock
  some (record s { out_lock = l })

unfoldable pub serial_out_dev_lock_release : ℕ → Serial → Option Serial
serial_out_dev_lock_release hart s = do
  l ← lk_release hart s.out_lock
  some (record s { out_lock = l })

unfoldable pub serial_in_dev_lock_acquire : ℕ → Serial → Option Serial
serial_in_dev_lock_acquire hart s = do
  l ← lk_acquire hart s.in_lock
  some (record s { in_lock = l })

unfoldable pub serial_putc : ℕ → Serial → Bool × Serial
serial_putc c s =
    let tried = record s { puts = suc s.puts } in
    if s.accepts s.puts
    then (true, record tried { written = s.written ++ c ∷ [] })
    else (false, tried)

unfoldable pub serial_getc : Serial → Option ℕ × Serial
serial_getc s = (s.arrives s.gets, record s { gets = suc s.gets })

-- A round of the loop in `do_cons_write_char`, with the lock around the attempt.
unfoldable pub put_locked : ℕ → ℕ → Serial → Option (Bool × Serial)
put_locked hart c s = do
  held ← serial_out_dev_lock_acquire hart s
  let put = serial_putc c held
  released ← serial_out_dev_lock_release hart put.1
  some (put.0, released)

unfoldable pub write_loop : ℕ → ℕ → ℕ → Serial → Option Serial
write_loop hart zero c s = none
write_loop hart (suc fuel) c s = do
  put ← put_locked hart c s
  let rest = write_loop hart fuel c put.1
  if put.0 then some put.1 else rest

-- `(uint8_t)ch`.
abbrev pub byte : ℤ → ℕ
byte (pos n) = n % 256
byte (negsuc n) = 255 - n % 256

abbrev pub is_newline : ℤ → Bool
is_newline (pos n) = n == 10
is_newline (negsuc n) = false

-- The call of itself with '\r' is another loop.
unfoldable pub do_cons_write_char : ℕ → ℕ → ℤ → Serial → Option Serial
do_cons_write_char hart fuel ch s = do
  put ← write_loop hart fuel (byte ch) s
  if is_newline ch then write_loop hart fuel 13 put else some put

-- `retry1` and `retry2`: with the lock held, given up and taken again between the attempts.
unfoldable pub retry : ℕ → ℕ → ℕ → Serial → Option Serial
retry hart zero c s = none
retry hart (suc fuel) c s =
    let put = serial_putc c s in
    let rest = (do
      released ← serial_out_dev_lock_release hart put.1
      held ← serial_out_dev_lock_acquire hart released
      retry hart fuel c held) in
    if put.0 then some put.1 else rest

unfoldable pub write_all : ℕ → ℕ → List ℕ → Serial → Option Serial
write_all hart fuel [] s = some s
write_all hart fuel (c ∷ cs) s = do
  put ← retry hart fuel c s
  returned ← if c == 10 then retry hart fuel 13 put else some put
  write_all hart fuel cs returned

unfoldable pub do_cons_write_buf : ℕ → ℕ → List ℕ → Serial → Option Serial
do_cons_write_buf hart fuel buf s = do
  held ← serial_out_dev_lock_acquire hart s
  put ← write_all hart fuel buf held
  serial_out_dev_lock_release hart put

-- The lock that is released is the one of the output device, as in the source.
unfoldable pub do_cons_read_char : ℕ → ℕ → Serial → Option (ℕ × Serial)
do_cons_read_char hart zero s = none
do_cons_read_char hart (suc fuel) s = do
  held ← serial_in_dev_lock_acquire hart s
  let got = serial_getc held
  released ← serial_out_dev_lock_release hart got.1
  let rest = do_cons_read_char hart fuel released
  elim got.0 [ some c ↦ some (c, released) | none ↦ rest ]
