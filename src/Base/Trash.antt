-- ===== src/Base/Trash.antt =====
-- Soft deletion, as HR, customers and projects share it: the three columns of a deleted row, what
-- stamps a row, and how many kept rows have a value that a partial unique index is about.
use Prim.Native.Nat.{ℕ, ◌+◌, ◌≤◌}
use mathlib.Core.Path.{◌≡◌, refl, sym}
use mathlib.Core.Logic.{inl, inr}
use mathlib.Core.Bool.{Bool, not, ◌&&◌}
use mathlib.Core.Option.{Option, none, some}
use mathlib.Core.List.{List, [], ◌∷◌}
use native.Mathlib.Omega.{arith}
use arka_erp.Base.Logic.{◌==◌, if◌then◌else◌, is_some, Bool-cases, Option-cases}
use arka_erp.Base.Texts.{Text, trim}
use arka_erp.Base.Tables.{find_by, update_by, update_by-none}

pub record Stamp : Type 0 where
  pub deleted_at : Option ℕ
  pub deleted_by : Option ℕ
  pub deleted_reason : Option Text

abbrev pub no_stamp : Stamp
no_stamp = record { deleted_at = none; deleted_by = none; deleted_reason = none }

-- A table whose rows are stamped: reading and writing the stamp, and the laws of the two.
pub record Trashable (Row : Type 0) : Type 0 where
  pub key : Row → ℕ
  pub stamp : Row → Stamp
  pub with_stamp : Stamp → Row → Row
  pub stamp-with_stamp : (s : Stamp) (r : Row) → stamp (with_stamp s r) ≡ s
  pub key-with_stamp : (s : Stamp) (r : Row) → key (with_stamp s r) ≡ key r
  pub with_stamp-twice : (s t : Stamp) (r : Row) → with_stamp s (with_stamp t r) ≡ with_stamp s r
  pub with_stamp-stamp : (r : Row) → with_stamp (stamp r) r ≡ r

module _ {Row : Type 0} (T : Trashable Row) where
  -- deleted_at IS NULL
  abbrev pub is_kept : Row → Bool
  is_kept r = not (is_some (T.stamp r).deleted_at)

  abbrev pub if_kept : (Row → Row) → Row → Row
  if_kept f r = if is_kept r then f r else r

  abbrev pub kept : Option Row → Option Row
  kept none = none
  kept (some r) = if is_kept r then some r else none

  -- SET deleted_at = now(), deleted_by = arka.current_actor_id(), deleted_reason = $2
  abbrev pub trashed : ℕ → Option ℕ → Text → Row → Row
  trashed now actor reason =
      T.with_stamp
        (record { deleted_at = some now; deleted_by = actor; deleted_reason = some (trim reason) })

  -- SET deleted_at = NULL, … WHERE deleted_at IS NOT NULL
  abbrev pub untrashed : Row → Row
  untrashed r = if is_kept r then r else T.with_stamp no_stamp r

  -- What the change of a row keeps, its guarded form keeps.
  pub if_kept_keeps {ℓ} :
      (P : Row → Type ℓ) (f : Row → Row) (r : Row) → (P r → P (f r)) → P r → P (if_kept f r)
  if_kept_keeps P f r step h = elim (Bool-cases (is_kept r)) [
    | inl here ↦ rw here (step h)
    | inr gone ↦ rw gone h
  ]

  pub untrashed_keeps {ℓ} :
      (P : Row → Type ℓ) (r : Row) → (P r → P (T.with_stamp no_stamp r)) → P r → P (untrashed r)
  untrashed_keeps P r step h = elim (Bool-cases (is_kept r)) [
    | inl here ↦ rw here h
    | inr gone ↦ rw gone (step h)
  ]

  abbrev pub weight : (Row → Bool) → Row → ℕ
  weight has r = if is_kept r && has r then 1 else 0

  -- How many kept rows have a value.
  abbrev pub holders : (Row → Bool) → List Row → ℕ
  holders has [] = 0
  holders has (r ∷ rs) = weight has r + holders has rs

  pub holders-update_by :
      (has : Row → Bool) (k : ℕ) (f : Row → Row) (rs : List Row) (r : Row)
      → find_by T.key k rs ≡ some r
      → holders has (update_by T.key k f rs) + weight has r ≡ holders has rs + weight has (f r)
  holders-update_by has k f [] r h = cc
  holders-update_by has k f (x ∷ rs) r h = elim (Bool-cases (T.key x == k)) [
    | inl hit ↦ let same : x ≡ r = ground (arith, hit, h) in rw (hit, same) (omega arith)
    | inr miss ↦ rw miss (
        let found : find_by T.key k rs ≡ some r = ground (arith, miss, h) in
        omega (arith, holders-update_by has k f rs r found))
  ]

  -- No update of a row that adds nothing adds a holder.
  pub holders_grow :
      (has : Row → Bool) (k : ℕ) (f : Row → Row) (rs : List Row)
      → ((r : Row) → find_by T.key k rs ≡ some r → weight has (f r) ≤ weight has r)
      → holders has (update_by T.key k f rs) ≤ holders has rs
  holders_grow has k f rs step = elim (Option-cases (find_by T.key k rs)) [
    | inl lost ↦ rw (update_by-none T.key k f rs lost) (omega arith)
    | inr (r, found) ↦ omega (arith, holders-update_by has k f rs r found, step r found)
  ]

  -- A deletion adds no holder.
  pub holders-trashed :
      (has : Row → Bool) (k now : ℕ) (actor : Option ℕ) (reason : Text) (rs : List Row)
      → holders has (update_by T.key k (if_kept (trashed now actor reason)) rs) ≤ holders has rs
  holders-trashed has k now actor reason rs =
      holders_grow has k (if_kept (trashed now actor reason)) rs (λ r _.
        elim (Bool-cases (is_kept r)) [
          | inl here ↦ rw (here, T.stamp-with_stamp _ r) (omega arith)
          | inr gone ↦ rw (gone, gone) (omega arith)
        ])

  -- A row that is deleted and then restored is the row that it was.
  pub untrashed-trashed :
      (now : ℕ) (actor : Option ℕ) (reason : Text) (r : Row)
      → T.stamp r ≡ no_stamp
      → untrashed (if_kept (trashed now actor reason) r) ≡ r
  untrashed-trashed now actor reason r clean =
      rw
        (
          clean,
          T.stamp-with_stamp
              (record {
                deleted_at = some now;
                deleted_by = actor;
                deleted_reason = some (trim reason);
              })
              r,
        )
        (let back : T.with_stamp no_stamp r ≡ r = rw (sym clean) (T.with_stamp-stamp r) in
          rw
            (T.with_stamp-twice no_stamp
              (record {
                deleted_at = some now;
                deleted_by = actor;
                deleted_reason = some (trim reason);
              })
              r)
            back)

  -- So is the table.
  pub update_by-twice :
      (k : ℕ) (f g : Row → Row) (rs : List Row) (r : Row)
      → find_by T.key k rs ≡ some r
      → T.key (f r) ≡ T.key r
      → g (f r) ≡ r
      → update_by T.key k g (update_by T.key k f rs) ≡ rs
  update_by-twice k f g [] r h same back = cc
  update_by-twice k f g (x ∷ rs) r h same back = elim (Bool-cases (T.key x == k)) [
    | inl hit ↦
        let it : r ≡ x = ground (arith, hit, h) in
        let there : T.key (f x) ≡ T.key x = rw (sym it) same in
        let undone : g (f x) ≡ x = rw (sym it) back in rw (hit, there, hit, undone) refl
    | inr miss ↦
        let found : find_by T.key k rs ≡ some r = ground (arith, miss, h) in
        rw (miss, miss, update_by-twice k f g rs r found same back) refl
  ]
