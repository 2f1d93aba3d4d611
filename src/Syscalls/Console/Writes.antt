-- ===== src/Syscalls/Console/Writes.antt =====
-- What the console services write, and that they come to an end.
use mathlib.Core.List.{append-nil, append_assoc}
use mathlib.Core.Path.{subst}
use jrinx.Base.{
  ℕ, zero, suc, ◌+◌, ◌<◌, ◌≤◌, ◌≡◌, refl, sym, ap, ◌∙◌, inl, inr, Bool, true, false, Bool-cases,
  Option, none, some, List, [], ◌∷◌, ◌++◌, ◌==◌, if◌then◌else◌, arith,
}
use jrinx.Kernel.{◌>>=◌}
use jrinx.Lock.{Lock, unlocked, lk_acquire, lk_release}
use jrinx.Syscalls.Console.{
  Serial, serial_out_dev_lock_acquire, serial_out_dev_lock_release, serial_in_dev_lock_acquire,
  serial_putc, serial_getc, retry, write_all, do_cons_write_buf, do_cons_read_char,
}

-- READ_CHAR never gives a character: with the output lock open, its release of that lock fails.
pub do_cons_read_char_lem :
    (hart fuel : ℕ) (s : Serial) → s.out_lock.locked ≡ false → do_cons_read_char hart fuel s ≡ none
unfolding do_cons_read_char serial_in_dev_lock_acquire serial_out_dev_lock_release serial_getc
    lk_acquire lk_release
do_cons_read_char_lem hart zero s open_lock = refl
do_cons_read_char_lem hart (suc fuel) s open_lock = ground (arith, open_lock)

-- What is sent for a buffer: a return after every newline.
abbrev pub with_returns : List ℕ → List ℕ
with_returns [] = []
with_returns (c ∷ cs) = if c == 10 then c ∷ 13 ∷ with_returns cs else c ∷ with_returns cs

-- The device accepts a byte at least once in `bound` attempts in a row.
abbrev pub Accepts : ℕ → (ℕ → Bool) → Type 0
Accepts bound accepts = (n : ℕ) → (m : ℕ) × (m < bound) × (accepts (n + m) ≡ true)

-- The port with the output lock held, where `bytes` have gone out since `s`.
abbrev pub Sent : ℕ → Serial → List ℕ → Serial → Type 0
Sent hart s bytes s' =
    (s'.written ≡ s.written ++ bytes)
    × (s'.accepts ≡ s.accepts)
    × (s'.out_lock ≡ record { locked = true; hartid = hart })

abbrev held_by : ℕ → Lock
held_by hart = record { locked = true; hartid = hart }

-- After an attempt that failed, with the lock given up and taken again.
abbrev again : ℕ → Serial → Serial
again hart s = record s { puts = suc s.puts; out_lock = held_by hart }

retry_once :
    (hart fuel c : ℕ) (s : Serial)
    → s.accepts s.puts ≡ true
    → retry hart (suc fuel) c s
      ≡ some (record s { puts = suc s.puts; written = s.written ++ c ∷ [] })
unfolding retry serial_putc
retry_once hart fuel c s e = rw (e, serial_putc) refl

retry-again :
    (hart fuel c : ℕ) (s : Serial)
    → s.accepts s.puts ≡ false
    → s.out_lock ≡ held_by hart
    → retry hart (suc fuel) c s ≡ retry hart fuel c (again hart s)
unfolding retry serial_putc serial_out_dev_lock_acquire serial_out_dev_lock_release lk_acquire
    lk_release
retry-again hart fuel c s e held =
    let same : (hart == hart) ≡ true = ground arith in
    rw (e, serial_putc) (rw (held, serial_out_dev_lock_release) (rw same refl))

retry_lem :
    (hart m fuel c : ℕ) (s : Serial)
    → m < fuel
    → s.accepts (s.puts + m) ≡ true
    → s.out_lock ≡ held_by hart
    → (s' : Serial) × (retry hart fuel c s ≡ some s') × Sent hart s (c ∷ []) s'
retry_lem hart m zero c s lt ok held = absurd (omega arith)
retry_lem hart m (suc fuel) c s lt ok held = elim (Bool-cases (s.accepts s.puts)) [
  | inl e ↦ (
    record s { puts = suc s.puts; written = s.written ++ c ∷ [] },
    retry_once hart fuel c s e,
    (refl, refl, held),
  )
  | inr e ↦
      let next = retry_later hart m fuel c s lt ok e in
      let (s', r, sent) = retry_lem hart next.0 fuel c (again hart s) next.1 next.2 refl in
      (s', retry-again hart fuel c s e held ∙ r, sent)
]
  where
    retry_later :
        (hart m fuel c : ℕ) (s : Serial)
        → m < suc fuel
        → s.accepts (s.puts + m) ≡ true
        → s.accepts s.puts ≡ false
        → (m' : ℕ) × (m' < fuel) × (s.accepts (suc s.puts + m') ≡ true)
    retry_later hart zero fuel c s lt ok e =
        let here : s.puts + 0 ≡ s.puts = omega arith in
        let now : s.accepts s.puts ≡ true = ap s.accepts (sym here) ∙ ok in
        absurd (ground (arith, now, e))
    retry_later hart (suc m) fuel c s lt ok e =
        let there : suc s.puts + m ≡ s.puts + suc m = omega arith in
        (m, omega arith, ap s.accepts there ∙ ok)

Sent-trans :
    (hart : ℕ) (s s₁ s₂ : Serial) (a b : List ℕ)
    → Sent hart s a s₁
    → Sent hart s₁ b s₂
    → Sent hart s (a ++ b) s₂
Sent-trans hart s s₁ s₂ a b h k =
    (k.0 ∙ ap (λ (w : List ℕ). w ++ b) h.0 ∙ append_assoc s.written a b, k.1 ∙ h.1, k.2)

-- A chain whose first part gives `b` goes on from `b`.
through :
    {A B C : Type 0} (m : Option A) (f : A → Option B) (g : B → Option C) {b : B}
    → (m >>= f) ≡ some b
    → (m >>= λ a. f a >>= g) ≡ g b
through none f g h = cc
through (some a) f g h = rw h refl

module _ (hart bound fuel : ℕ) (enough : bound < suc fuel) where
  -- One byte, from a state in which the device accepts one within the bound.
  send :
      (c : ℕ) (s : Serial)
      → Accepts bound s.accepts
      → s.out_lock ≡ held_by hart
      → (s' : Serial) × (retry hart fuel c s ≡ some s') × Sent hart s (c ∷ []) s'
  send c s accepts held =
      let (m, lt, ok) = accepts s.puts in retry_lem hart m fuel c s (omega arith) ok held

  -- A byte with its return.
  send_returned :
      (c : ℕ) (s : Serial)
      → Accepts bound s.accepts
      → s.out_lock ≡ held_by hart
      → (s' : Serial) × ((retry hart fuel c s >>= λ put.
            if c == 10 then retry hart fuel 13 put else some put)
          ≡ some s')
        × Sent hart s (with_returns (c ∷ [])) s'
  send_returned c s accepts held =
      let (s₁, e, sent) = send c s accepts held in
      elim (Bool-cases (c == 10)) [
        | inr other ↦ (s₁, rw e (rw other refl), rw other sent)
        | inl newline ↦
            let (s₂, e', sent') = send 13 s₁ (subst (Accepts bound) (sym sent.1) accepts) sent.2 in
            (
              s₂,
              rw e (rw newline e'),
              rw newline (Sent-trans hart s s₁ s₂ (c ∷ []) (13 ∷ []) sent sent'),
            )
      ]

  with_returns-cons :
      (c : ℕ) (cs : List ℕ) → with_returns (c ∷ cs) ≡ with_returns (c ∷ []) ++ with_returns cs
  with_returns-cons c cs = ground arith

  write_all_lem :
      (cs : List ℕ) (s : Serial)
      → Accepts bound s.accepts
      → s.out_lock ≡ held_by hart
      → (s' : Serial) × (write_all hart fuel cs s ≡ some s') × Sent hart s (with_returns cs) s'
  unfolding write_all
  write_all_lem [] s accepts held = (s, refl, (sym (append-nil s.written), refl, held))
  write_all_lem (c ∷ cs) s accepts held =
      let (s₁, e, sent) = send_returned c s accepts held in
      let (s₂, e', sent') =
        write_all_lem cs s₁ (subst (Accepts bound) (sym sent.1) accepts) sent.2 in
      (
        s₂,
        through (retry hart fuel c s) (λ put. if c == 10 then retry hart fuel 13 put else some put)
              (write_all hart fuel cs) e
            ∙ e',
        subst (λ b. Sent hart s b s₂) (sym (with_returns-cons c cs))
            (Sent-trans hart s s₁ s₂ (with_returns (c ∷ [])) (with_returns cs) sent sent'),
      )

-- WRITE_BUF comes to an end if the device accepts a byte at least once in every so many attempts and
-- the fuel allows for as many: it has then sent the bytes in order, a return after each newline, and
-- the lock, which was open, is open again.
pub do_cons_write_buf_lem :
    (hart bound fuel : ℕ) (buf : List ℕ) (s : Serial)
    → bound ≤ fuel
    → Accepts bound s.accepts
    → s.out_lock.locked ≡ false
    → (s' : Serial) × (do_cons_write_buf hart fuel buf s ≡ some s')
      × (s'.written ≡ s.written ++ with_returns buf)
      × (s'.out_lock ≡ unlocked)
unfolding do_cons_write_buf serial_out_dev_lock_acquire serial_out_dev_lock_release lk_acquire
    lk_release
do_cons_write_buf_lem hart bound fuel buf s enough accepts open_lock =
    let (s', e, sent) =
      write_all_lem hart bound fuel (omega arith) buf (record s { out_lock = held_by hart }) accepts
        refl in
    let same : (hart == hart) ≡ true = ground arith in
    (
      record s' { out_lock = unlocked },
      rw (open_lock, serial_out_dev_lock_acquire)
          (rw e (rw (sent.2, serial_out_dev_lock_release) (rw same refl))),
      sent.0,
      refl,
    )
