-- ===== src/Reports/Balanced.antt =====
-- The totals of the trial balance.
use arka_erp.Base.{
  ℕ, ◌+◌, ◌≡◌, ◌↔◌, refl, true, List, [], ◌∷◌, map, filter, arith, ◌==◌, if◌then◌else◌, All, inl,
  inr, Bool-cases,
}
use arka_erp.Base.Tables.{count_by}
use arka_erp.Ledger.{Account, Line, Books}
use arka_erp.Ledger.Lines.{total_debit, total_credit}
use arka_erp.Reports.{
  all_lines, account_sum, trial_row, shown, row_sum, has_movement, trial_balance,
}

-- Rows without movement add nothing.
row_sum-filter :
    (ls : List Line) (accts : List Account)
    → (row_sum (λ r. r.debit_balance) (filter has_movement (map (trial_row ls) accts))
        ≡ row_sum (λ r. r.debit_balance) (map (trial_row ls) accts))
      × (row_sum (λ r. r.credit_balance) (filter has_movement (map (trial_row ls) accts))
          ≡ row_sum (λ r. r.credit_balance) (map (trial_row ls) accts))
row_sum-filter ls [] = (refl, refl)
row_sum-filter ls (a ∷ accts) =
    let (debits, credits) = row_sum-filter ls accts in
    elim (Bool-cases (has_movement (trial_row ls a))) [
      | inl moved ↦ rw moved (omega (arith, debits), omega (arith, credits))
      | inr still ↦ rw still (ground (arith, still, debits), ground (arith, still, credits))
    ]

-- The sums of the accounts, over a list of accounts.
accounts_sum : (Line → ℕ) → List Line → List Account → ℕ
accounts_sum w ls [] = 0
accounts_sum w ls (a ∷ accts) = account_sum w a.id ls + accounts_sum w ls accts

-- Each balance and the sum on its other side make the sum on its own.
row_sum-totals :
    (ls : List Line) (accts : List Account)
    → row_sum (λ r. r.debit_balance) (map (trial_row ls) accts)
        + accounts_sum (λ l. l.credit) ls accts
      ≡ row_sum (λ r. r.credit_balance) (map (trial_row ls) accts)
        + accounts_sum (λ l. l.debit) ls accts
unfolding accounts_sum
row_sum-totals ls [] = refl
row_sum-totals ls (a ∷ accts) = omega (arith, row_sum-totals ls accts)

share : (Line → ℕ) → Line → List Account → ℕ
share w l [] = 0
share w l (a ∷ accts) = (if l.account_id == a.id then w l else 0) + share w l accts

share_absent :
    (w : Line → ℕ) (l : Line) (accts : List Account)
    → count_by (λ a. a.id) l.account_id accts ≡ 0
    → share w l accts ≡ 0
unfolding share
share_absent w l [] h = refl
share_absent w l (a ∷ accts) h = ground (arith, share_absent w l accts)

share_once :
    (w : Line → ℕ) (l : Line) (accts : List Account)
    → count_by (λ a. a.id) l.account_id accts ≡ 1
    → share w l accts ≡ w l
unfolding share
share_once w l [] h = absurd (omega arith)
share_once w l (a ∷ accts) h = elim (Bool-cases (a.id == l.account_id)) [
  | inl hit ↦ ground (arith, hit, h, share_absent w l accts)
  | inr miss ↦ ground (arith, miss, h, share_once w l accts)
]

accounts_sum-nil : (w : Line → ℕ) (accts : List Account) → accounts_sum w [] accts ≡ 0
unfolding accounts_sum
accounts_sum-nil w [] = refl
accounts_sum-nil w (a ∷ accts) = omega (arith, accounts_sum-nil w accts)

accounts_sum-cons :
    (w : Line → ℕ) (l : Line) (ls : List Line) (accts : List Account)
    → accounts_sum w (l ∷ ls) accts ≡ share w l accts + accounts_sum w ls accts
unfolding accounts_sum share
accounts_sum-cons w l ls [] = refl
accounts_sum-cons w l ls (a ∷ accts) = omega (arith, accounts_sum-cons w l ls accts)

-- A line's account is one of those shown, and shown once.
abbrev pub IsShownOnce : List Account → Line → Type 0
IsShownOnce accts l = count_by (λ a. a.id) l.account_id accts ≡ 1

accounts_sum-lines :
    (ls : List Line) (accts : List Account)
    → All (IsShownOnce accts) ls
    → (accounts_sum (λ l. l.debit) ls accts ≡ total_debit ls)
      × (accounts_sum (λ l. l.credit) ls accts ≡ total_credit ls)
accounts_sum-lines [] accts h =
    (accounts_sum-nil (λ l. l.debit) accts, accounts_sum-nil (λ l. l.credit) accts)
accounts_sum-lines (l ∷ ls) accts h =
    let (debits, credits) = accounts_sum-lines ls accts h.1 in
    (
      omega (
        arith,
        accounts_sum-cons (λ l. l.debit) l ls accts,
        share_once (λ l. l.debit) l accts h.0,
        debits,
      ),
      omega (
        arith,
        accounts_sum-cons (λ l. l.credit) l ls accts,
        share_once (λ l. l.credit) l accts h.0,
        credits,
      ),
    )

-- Where every line is on an account that is shown, and shown once, the trial balance says that it is
-- balanced exactly when the debits of all lines, those of drafts included, add up to the credits.
pub trial_balance_iff :
    (b : Books)
    → All (IsShownOnce (shown b)) (all_lines b.entries)
    → ((trial_balance b).balanced ≡ true)
      ↔ (total_debit (all_lines b.entries) ≡ total_credit (all_lines b.entries))
unfolding trial_balance
trial_balance_iff b known = (
  λ h. ground (arith, h, filtered.0, filtered.1, lines.0, lines.1, row_sum-totals ls (shown b)),
  λ h. ground (arith, h, filtered.0, filtered.1, lines.0, lines.1, row_sum-totals ls (shown b)),
)
  where
    ls : List Line
    ls = all_lines b.entries

    filtered :
        (row_sum (λ r. r.debit_balance) (filter has_movement (map (trial_row ls) (shown b)))
          ≡ row_sum (λ r. r.debit_balance) (map (trial_row ls) (shown b)))
        × (row_sum (λ r. r.credit_balance) (filter has_movement (map (trial_row ls) (shown b)))
            ≡ row_sum (λ r. r.credit_balance) (map (trial_row ls) (shown b)))
    filtered = row_sum-filter ls (shown b)

    lines :
        (accounts_sum (λ l. l.debit) ls (shown b) ≡ total_debit ls)
        × (accounts_sum (λ l. l.credit) ls (shown b) ≡ total_credit ls)
    lines = accounts_sum-lines ls (shown b) known
