-- ===== src/Circbuf.antt =====
-- lib/circbuf.c and include/lib/circbuf.h: a ring of equally large elements over caller-provided
-- storage, with the element in use given by byte offsets. `cc_buf o` is the element that stands
-- at byte offset `o`; `uintptr_t` and `size_t` are 64 bits wide, and their wrap-around is written
-- out. A `% 0` (a ring of capacity 0) is outside what C defines.
pub mod Fifo
use jrinx.Base.{ℕ, ◌+◌, ◌-◌, ◌*◌, ◌%◌, ◌^◌, Bool, ◌==◌, if◌then◌else◌}

abbrev pub word : ℕ → ℕ
word n = n % 2 ^ 64

pub record Circbuf (A : Type 0) : Type 0 where
  pub cc_buf : ℕ → A
  pub cc_ele_size : ℕ
  pub cc_cap : ℕ
  pub cc_cnt : ℕ
  pub cc_head : ℕ
  pub cc_tail : ℕ

module _ {A : Type 0} where
  -- `memcpy` of one element to the byte offset `o`.
  abbrev pub write : (ℕ → A) → ℕ → A → ℕ → A
  write buf o x p = if p == o then x else buf p

  unfoldable pub circbuf_init : (ℕ → A) → ℕ → ℕ → Circbuf A
  circbuf_init buf ele_size cap = record {
    cc_buf = buf;
    cc_ele_size = ele_size;
    cc_cap = cap;
    cc_cnt = 0;
    cc_head = 0;
    cc_tail = word (2 ^ 64 - ele_size);
  }

  unfoldable pub circbuf_reset : Circbuf A → Circbuf A
  circbuf_reset cc = record cc { cc_head = 0; cc_tail = word (2 ^ 64 - cc.cc_ele_size); cc_cnt = 0 }

  unfoldable pub circbuf_is_full : Circbuf A → Bool
  circbuf_is_full cc = cc.cc_cnt == cc.cc_cap

  unfoldable pub circbuf_is_empty : Circbuf A → Bool
  circbuf_is_empty cc = cc.cc_cnt == 0

  -- The offset that the caller fills, and the ring with the new tail.
  unfoldable pub circbuf_enqu_st : Circbuf A → ℕ × Circbuf A
  circbuf_enqu_st cc =
      let tail = word (cc.cc_tail + cc.cc_ele_size) % word (cc.cc_cap * cc.cc_ele_size) in
      (tail, record cc { cc_tail = tail })

  unfoldable pub circbuf_enqu_ed : Circbuf A → Circbuf A
  circbuf_enqu_ed cc = record cc { cc_cnt = word (cc.cc_cnt + 1) }

  -- The offset that the caller reads, and the ring with one element less.
  unfoldable pub circbuf_dequ_st : Circbuf A → ℕ × Circbuf A
  circbuf_dequ_st cc = (cc.cc_head, record cc { cc_cnt = word (cc.cc_cnt + 2 ^ 64 - 1) })

  unfoldable pub circbuf_dequ_ed : Circbuf A → Circbuf A
  circbuf_dequ_ed cc = record cc {
    cc_head = word (cc.cc_head + cc.cc_ele_size) % word (cc.cc_cap * cc.cc_ele_size);
  }

  unfoldable pub circbuf_enqueue : Circbuf A → A → Circbuf A
  circbuf_enqueue cc ele =
      let (tail, started) = circbuf_enqu_st cc in
      circbuf_enqu_ed (record started { cc_buf = write started.cc_buf tail ele })

  unfoldable pub circbuf_dequeue : Circbuf A → A × Circbuf A
  circbuf_dequeue cc =
      let (head, started) = circbuf_dequ_st cc in (started.cc_buf head, circbuf_dequ_ed started)
