-- ===== src/Base/Stores.antt =====
-- A finite store: objects by their identifier, a null pointer or an unknown identifier as `none`.
use Prim.Native.Nat.{ℕ}
use mathlib.Core.Path.{◌≡◌, refl}
use mathlib.Core.Logic.{◌≢◌}
use mathlib.Core.Option
use mathlib.Core.Option.{Option, none, some}
use native.Mathlib.Omega.{arith}
use jrinx.Base.Tests.{◌==◌, if◌then◌else◌}

abbrev pub Store {ℓ} : Type ℓ → Type ℓ
Store A = ℕ → Option A

module _ {ℓ} {A : Type ℓ} where
  -- Writes a new object, or a new value of an old one.
  unfoldable pub insert : ℕ → A → Store A → Store A
  insert k v s j = if j == k then some v else s j

  -- Writes through a pointer: the object changes by `f`; a null pointer is left alone.
  unfoldable pub update_at : ℕ → (A → A) → Store A → Store A
  update_at k f s j = if j == k then Option.map f (s j) else s j

  pub update_at_self : (k : ℕ) (f : A → A) (s : Store A) → update_at k f s k ≡ Option.map f (s k)
  unfolding update_at
  update_at_self k f s = ground arith

  pub update_at-some :
      (k : ℕ) (f : A → A) (s : Store A) {a : A} → s k ≡ some a → update_at k f s k ≡ some (f a)
  unfolding update_at
  update_at-some k f s h = ground arith

  pub update_at_ne : (k : ℕ) (f : A → A) (s : Store A) (j : ℕ) → j ≢ k → update_at k f s j ≡ s j
  unfolding update_at
  update_at_ne k f s j h = ground arith

  pub lookup-insert :
      (k : ℕ) (v : A) (s : Store A) (j : ℕ) → insert k v s j ≡ (if j == k then some v else s j)
  unfolding insert
  lookup-insert k v s j = refl

  pub lookup-insert_self : (k : ℕ) (v : A) (s : Store A) → insert k v s k ≡ some v
  unfolding insert
  lookup-insert_self k v s = ground arith

abbrev pub empty_store {ℓ} : {A : Type ℓ} → Store A
empty_store _ = none
