-- ===== src/Lock.antt =====
-- kern/lock/lock.c and kern/lock/spinlock.c: a lock that remembers the hart that holds it. The one
-- implementation that the kernel registers is the spin lock, so the look-up by type always
-- succeeds. `none` is an acquisition or release that does not come back with success: with the
-- lock held by the same hart `lk_acquire` answers -KER_LOCK_ER, on which every caller panics; with
-- the lock held by another hart the swap loop spins.
use jrinx.Base.{ℕ, ◌-◌, ◌^◌, Bool, true, false, not, ◌||◌, Option, none, some, ◌==◌, if◌then◌else◌}

-- `struct lock`; `lk_state` is LK_LOCKED where `locked` is true.
pub record Lock : Type 0 where
  pub locked : Bool
  pub hartid : ℕ

abbrev pub hartid_max : ℕ
hartid_max = 2 ^ 64 - 1

abbrev pub unlocked : Lock
unlocked = record { locked = false; hartid = hartid_max }

-- `spinlock_init`.
unfoldable pub spinlock_init : Lock
spinlock_init = unlocked

unfoldable pub lk_acquire : ℕ → Lock → Option Lock
lk_acquire hart l = if l.locked then none else some (record { locked = true; hartid = hart })

unfoldable pub lk_release : ℕ → Lock → Option Lock
lk_release hart l =
    if not l.locked || not (l.hartid == hart)
    then none
    else some (record { locked = false; hartid = hartid_max })
