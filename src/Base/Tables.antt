-- ===== src/Base/Tables.antt =====
-- Tables: lists of rows with a numeric primary key (UUIDs are only compared, so they are numbers).
-- A key occurs once, so a lookup reads and an update writes the first row that has it.
use Prim.Native.Nat.{ℕ, ◌+◌, ◌≤◌}
use mathlib.Core.Path.{◌≡◌, refl}
use mathlib.Core.Logic.{◌≢◌, inl, inr}
use mathlib.Core.Option.{Option, none, some}
use mathlib.Core.List.{List, [], ◌∷◌}
use native.Mathlib.Omega.{arith}
use arka_erp.Base.Logic.{◌==◌, if◌then◌else◌, All, Bool-cases}

module _ {ℓ} {A : Type ℓ} (key : A → ℕ) where
  -- `SELECT … WHERE id = k`
  abbrev pub find_by : ℕ → List A → Option A
  find_by k [] = none
  find_by k (r ∷ rs) = if key r == k then some r else find_by k rs

  -- `UPDATE … WHERE id = k`
  abbrev pub update_by : ℕ → (A → A) → List A → List A
  update_by k f [] = []
  update_by k f (r ∷ rs) = if key r == k then f r ∷ rs else r ∷ update_by k f rs

  -- How many rows have the key.
  abbrev pub count_by : ℕ → List A → ℕ
  count_by k [] = 0
  count_by k (r ∷ rs) = (if key r == k then 1 else 0) + count_by k rs

  pub find_by-key : (k : ℕ) (rs : List A) (r : A) → find_by k rs ≡ some r → key r ≡ k
  find_by-key k [] r e = cc
  find_by-key k (x ∷ rs) r e = ground (arith, find_by-key k rs r)

  pub count_by-find : (k : ℕ) (rs : List A) → find_by k rs ≢ none → 1 ≤ count_by k rs
  count_by-find k [] h = absurd (h refl)
  count_by-find k (x ∷ rs) h = ground (arith, count_by-find k rs)

  pub find_by-count : (k : ℕ) (rs : List A) → count_by k rs ≡ 0 → find_by k rs ≡ none
  find_by-count k [] h = refl
  find_by-count k (x ∷ rs) h = ground (arith, find_by-count k rs)

  pub count_by-update_by :
      (j k : ℕ) (f : A → A) (rs : List A)
      → ((r : A) → key (f r) ≡ key r)
      → count_by j (update_by k f rs) ≡ count_by j rs
  count_by-update_by j k f [] same = refl
  count_by-update_by j k f (x ∷ rs) same = ground (arith, same x, count_by-update_by j k f rs same)

  -- A lookup after an update that keeps the row's key.
  pub find_by-update_by :
      (j k : ℕ) (f : A → A) (rs : List A)
      → ((r : A) → find_by k rs ≡ some r → key (f r) ≡ key r)
      → find_by j (update_by k f rs) ≡ (
          if j == k
          then elim (find_by k rs) [ none ↦ none | some r ↦ some (f r) ]
          else find_by j rs)
  find_by-update_by j k f [] same = ground arith
  find_by-update_by j k f (x ∷ rs) same = elim (Bool-cases (key x == k)) [
    | inl hit ↦ ground (arith, same x (rw hit))
    | inr miss ↦ ground (arith, find_by-update_by j k f rs (λ r e. same r (rw miss e)))
  ]

  pub update_by-none :
      (k : ℕ) (f : A → A) (rs : List A) → find_by k rs ≡ none → update_by k f rs ≡ rs
  update_by-none k f [] e = refl
  update_by-none k f (x ∷ rs) e = ground (arith, update_by-none k f rs)

  pub All-update_by {κ} :
      (P : A → Type κ) (k : ℕ) (f : A → A) (rs : List A)
      → All P rs
      → ((r : A) → find_by k rs ≡ some r → P r → P (f r))
      → All P (update_by k f rs)
  All-update_by P k f [] h step = tt
  All-update_by P k f (x ∷ rs) h step = elim (Bool-cases (key x == k)) [
    | inl hit ↦ rw hit (step x (rw hit) h.0, h.1)
    | inr miss ↦ rw miss (h.0, All-update_by P k f rs h.1 (λ r e p. step r (rw miss e) p))
  ]

  pub All-find_by {κ} :
      (P : A → Type κ) (k : ℕ) (rs : List A) {r : A} → All P rs → find_by k rs ≡ some r → P r
  All-find_by P k [] h e = cc
  All-find_by P k (x ∷ rs) h e = elim (Bool-cases (key x == k)) [
    | inl hit ↦ ground (arith, h.0)
    | inr miss ↦ All-find_by P k rs h.1 (rw miss at e)
  ]
