-- ===== src/Circbuf/Fifo.antt =====
-- The ring of lib/circbuf.c is a first-in first-out queue of bounded length.
use native.Mathlib.Nat.{
  mod-add-mod, mod-eq_of_lt, mod-eq-sub-mod, mod_self, mod-lt, zero-mod, eq_of_mul-eq-mul_right,
  mul-lt-mul_of_pos_right, mul-le-mul_right, le-mul_of_pos_right,
}
use native.Mathlib.Decide.{dec_lt}
use jrinx.Base.{
  ℕ, suc, ◌+◌, ◌-◌, ◌*◌, ◌%◌, ◌^◌, ◌≤◌, ◌<◌, ◌≡◌, refl, sym, ap, ◌∙◌, ◌≢◌, List, [], ◌∷◌, ◌++◌,
  arith, length, length-append, ◌==◌,
}
use jrinx.Circbuf.{
  Circbuf, word, write, circbuf_init, circbuf_reset, circbuf_is_full, circbuf_is_empty,
  circbuf_enqu_st, circbuf_enqu_ed, circbuf_dequ_st, circbuf_dequ_ed, circbuf_enqueue,
  circbuf_dequeue,
}

-- A slot that is some steps ahead, but less than a whole round, is another slot.
slots-apart : (n s j : ℕ) → s < n → 0 < j → j < n → (s + j) % n ≢ s
slots-apart n s j hs pos hj same = elim (dec_lt (s + j) n) [
  | yes below ↦ omega (arith, same, mod-eq_of_lt below)
  | no over ↦ omega (arith, same, around over)
]
  where
    around : ¬ (s + j < n) → (s + j) % n ≡ s + j - n
    around over =
        mod-eq-sub-mod {n = s + j} {m = n} (omega arith)
        ∙ mod-eq_of_lt {n = s + j - n} {m = n} (omega arith)

-- Slots that differ have offsets that differ.
offset-ne : (a b ele : ℕ) → 0 < ele → a ≢ b → a * ele ≢ b * ele
offset-ne a b ele h p e = p (eq_of_mul-eq-mul_right ele h a b e)

-- The next slot, as an offset: the step that the code makes at both ends.
advance : (a n ele : ℕ) → a < n → 0 < ele → (a * ele + ele) % (n * ele) ≡ (a + 1) % n * ele
advance a n ele h p = elim (dec_lt (a + 1) n) [
  | yes q ↦ omega (
    arith,
    mod-eq_of_lt {n = a * ele + ele} {m = n * ele} (omega (arith, mul-lt-mul_of_pos_right q p)),
    ap (λ (t : ℕ). t * ele) (mod-eq_of_lt q),
  )
  | no q ↦ rw (last q) (
      rw (mod_self (a + 1)) (
        ap (λ (t : ℕ). t % ((a + 1) * ele)) (omega arith) ∙ mod_self ((a + 1) * ele) ∙ omega arith))
]
  where
    last : ¬ (a + 1 < n) → n ≡ a + 1
    last q = omega arith

-- The same in the code's 64-bit arithmetic, where nothing wraps.
advance_word :
    (a n ele : ℕ)
    → a < n
    → 0 < ele
    → n * ele < 2 ^ 64
    → word (a * ele + ele) % (n * ele) ≡ (a + 1) % n * ele
advance_word a n ele h p f =
    ap (λ (t : ℕ). t % (n * ele)) (mod-eq_of_lt (omega (arith, mul-le-mul_right ele h)))
    ∙ advance a n ele h p

module _ {A : Type 0} where
  module _ (ele cap : ℕ) where
    -- From slot `s` on, the storage holds the entries of the list in order.
    abbrev pub View : (ℕ → A) → ℕ → List A → Type 0
    View buf s [] = Unit
    View buf s (x ∷ q) = (buf (s * ele) ≡ x) × View buf ((s + 1) % cap) q

  View-write :
      (ele n : ℕ) (buf : ℕ → A) (x : A) (s : ℕ) (q : List A)
      → 0 < ele
      → s < n
      → length q < n
      → View ele n buf s q
      → View ele n (write buf ((s + length q) % n * ele) x) s (q ++ x ∷ [])
  View-write ele n buf x s [] h hs hq v = (ground (arith, mod-eq_of_lt hs), tt)
  View-write ele n buf x s (y ∷ q) h hs hq v = (
    ground (
      arith,
      v,
      offset-ne ((s + suc (length q)) % n) s ele,
      slots-apart n s (suc (length q)) hs (omega arith) hq,
    ),
    rw e at
        (View-write ele n buf x ((s + 1) % n) q h (mod-lt (s + 1) (omega arith)) (omega arith) v.1),
  )
    where
      e : ((s + 1) % n + length q) % n ≡ (s + suc (length q)) % n
      e = mod-add-mod (s + 1) n (length q) ∙ ap (λ (t : ℕ). t % n) (omega arith)

  -- What a ring stands for: the queue of its elements, oldest first.
  pub record Represents (cc : Circbuf A) (q : List A) : Type 0 where
    pub slot : ℕ
    pub ele_pos : 0 < cc.cc_ele_size
    pub fits : cc.cc_cap * cc.cc_ele_size < 2 ^ 64
    pub slot_in : slot < cc.cc_cap
    pub bounded : length q ≤ cc.cc_cap
    pub counted : cc.cc_cnt ≡ length q
    pub head_at : cc.cc_head ≡ slot * cc.cc_ele_size
    pub tail_at :
        word (cc.cc_tail + cc.cc_ele_size) % (cc.cc_cap * cc.cc_ele_size)
        ≡ (slot + length q) % cc.cc_cap * cc.cc_ele_size
    pub holds : View cc.cc_ele_size cc.cc_cap cc.cc_buf slot q

  -- A ring of positive capacity and element size, whose storage has a size below 2 ^ 64, starts as
  -- the empty queue.
  pub circbuf_init-Represents :
      (buf : ℕ → A) (ele n : ℕ)
      → 0 < ele
      → 0 < n
      → n * ele < 2 ^ 64
      → Represents (circbuf_init buf ele n) []
  unfolding circbuf_init
  circbuf_init-Represents buf ele n he hc hf = record {
    slot = 0;
    ele_pos = he;
    fits = hf;
    slot_in = hc;
    bounded = omega arith;
    counted = refl;
    head_at = omega arith;
    tail_at =
        ap (λ (t : ℕ). t % (n * ele)) (omega (arith, mul-le-mul_right ele hc))
        ∙ zero-mod (n * ele)
        ∙ omega (arith, ap (λ (t : ℕ). t * ele) (zero-mod n));
    holds = tt;
  }

  -- `circbuf_reset` empties a ring that stands for any queue.
  pub circbuf_reset-Represents :
      {cc : Circbuf A} {q : List A} → Represents cc q → Represents (circbuf_reset cc) []
  unfolding circbuf_reset circbuf_init
  circbuf_reset-Represents {cc} r =
      circbuf_init-Represents cc.cc_buf cc.cc_ele_size cc.cc_cap r.ele_pos
        (omega (arith, r.slot_in)) r.fits

  module _ {cc : Circbuf A} {q : List A} (r : Represents cc q) where
    -- The counter stays far below the wrap-around.
    cnt_small : length q ≤ cc.cc_cap → cc.cc_cap < 2 ^ 64
    cnt_small h = omega (arith, le-mul_of_pos_right cc.cc_cap r.ele_pos, r.fits)

    -- The tests answer as the length of the queue says.
    pub circbuf_is_full_lem : circbuf_is_full cc ≡ (length q == cc.cc_cap)
    unfolding circbuf_is_full
    circbuf_is_full_lem = rw r.counted

    pub circbuf_is_empty_lem : circbuf_is_empty cc ≡ (length q == 0)
    unfolding circbuf_is_empty
    circbuf_is_empty_lem = rw r.counted

    -- The offset that `circbuf_enqu_st` gives is that of the slot behind the last entry.
    enqu_offset :
        word (cc.cc_tail + cc.cc_ele_size) % word (cc.cc_cap * cc.cc_ele_size)
        ≡ (r.slot + length q) % cc.cc_cap * cc.cc_ele_size
    enqu_offset =
        ap (λ (m : ℕ). word (cc.cc_tail + cc.cc_ele_size) % m) (mod-eq_of_lt r.fits) ∙ r.tail_at

    next_offset :
        (a : ℕ)
        → a < cc.cc_cap
        → word (a * cc.cc_ele_size + cc.cc_ele_size) % (cc.cc_cap * cc.cc_ele_size)
          ≡ (a + 1) % cc.cc_cap * cc.cc_ele_size
    next_offset a h = advance_word a cc.cc_cap cc.cc_ele_size h r.ele_pos r.fits

  -- Enqueueing an element into a ring that stands for a queue shorter than its capacity gives a ring
  -- that stands for the queue with the element at its end, wrap-around of the offsets included.
  pub circbuf_enqueue-Represents :
      {cc : Circbuf A} {q : List A} (x : A)
      → Represents cc q
      → length q < cc.cc_cap
      → Represents (circbuf_enqueue cc x) (q ++ x ∷ [])
  unfolding circbuf_enqueue circbuf_enqu_st circbuf_enqu_ed
  circbuf_enqueue-Represents {cc} {q} x r room = record {
    slot = r.slot;
    ele_pos = r.ele_pos;
    fits = r.fits;
    slot_in = r.slot_in;
    bounded = omega (arith, length-append q (x ∷ []));
    counted = omega (arith, length-append q (x ∷ []), cnt_small r r.bounded, r.counted);
    head_at = r.head_at;
    tail_at = rw (enqu_offset r) (
        next_offset r ((r.slot + length q) % cc.cc_cap) (mod-lt (r.slot + length q) (omega arith))
        ∙ ap (λ (t : ℕ). t * cc.cc_ele_size)
            (mod-add-mod (r.slot + length q) cc.cc_cap 1
              ∙ ap (λ (t : ℕ). t % cc.cc_cap) (omega (arith, length-append q (x ∷ [])))));
    holds =
        rw (enqu_offset r) (
          View-write cc.cc_ele_size cc.cc_cap cc.cc_buf x r.slot q r.ele_pos r.slot_in room
            r.holds);
  }

  -- Dequeueing from a ring that stands for a queue that is not empty gives the oldest element, and
  -- the ring then stands for the rest of the queue.
  pub circbuf_dequeue-Represents :
      {cc : Circbuf A} {x : A} {q : List A}
      → Represents cc (x ∷ q)
      → ((circbuf_dequeue cc).0 ≡ x) × Represents (circbuf_dequeue cc).1 q
  unfolding circbuf_dequeue circbuf_dequ_st circbuf_dequ_ed
  circbuf_dequeue-Represents {cc} {x} {q} r = (
    rw r.head_at r.holds.0,
    record {
      slot = (r.slot + 1) % cc.cc_cap;
      ele_pos = r.ele_pos;
      fits = r.fits;
      slot_in = mod-lt (r.slot + 1) (omega (arith, r.slot_in));
      bounded = omega (arith, r.bounded);
      counted = omega (arith, cnt_small r r.bounded, r.counted, r.bounded);
      head_at =
          ap (λ (m : ℕ). word (cc.cc_head + cc.cc_ele_size) % m) (mod-eq_of_lt r.fits)
          ∙ rw r.head_at (next_offset r r.slot r.slot_in);
      tail_at = r.tail_at ∙ ap (λ (t : ℕ). t * cc.cc_ele_size) around;
      holds = r.holds.1;
    },
  )
    where
      around :
          (r.slot + suc (length q)) % cc.cc_cap ≡ ((r.slot + 1) % cc.cc_cap + length q) % cc.cc_cap
      around =
          ap (λ (t : ℕ). t % cc.cc_cap) (omega arith)
          ∙ sym (mod-add-mod (r.slot + 1) cc.cc_cap (length q))
