-- ===== src/Journal/Accounts.antt =====
-- `AccountsService.create` (backend/src/accounting/accounts.service.ts), with what the table's
-- constraints and the trigger `fn_parent_not_postable` do.
use Prim.Native.String.{String}
use text.Mathlib.Text.{◌==◌ as str_eq}
use arka_erp.Base.{
  ℕ, ◌≡◌, Bool, arith, true, false, not, ◌&&◌, Option, none, some, List, [], ◌∷◌, ◌==◌,
  if◌then◌else◌, is_some,
}
use arka_erp.Base.Int.{pos}
use arka_erp.Base.Tables.{find_by, update_by, count_by}
use arka_erp.Base.Effect.{
  ok, unique_violation, foreign_key, Action, pure, gets, require, modify, ◌>>=◌, ◌>>◌, transaction,
}
use arka_erp.Ledger.{Account, Books, Context}
use arka_erp.Journal.Dto.{CreateAccountDto}

abbrev pub new_account : Context → CreateAccountDto → Account
new_account ctx dto = record {
  id = ctx.new_id;
  code = dto.code;
  name = dto.name;
  account_type = dto.account_type;
  normal_balance = dto.normal_balance;
  parent_id = dto.parent_id;
  is_postable = true;
  is_active = true;
  balance = pos 0;
  balance_version = 0;
  description = dto.description;
  deleted_at = none;
}

-- The unique index on the code of the accounts that are not deleted.
abbrev pub has_code : String → List Account → Bool
has_code code [] = false
has_code code (a ∷ accts) =
    let rest = has_code code accts in
    if str_eq a.code code && not (is_some a.deleted_at) then true else rest

abbrev pub parent_exists : Option ℕ → List Account → Bool
parent_exists none accts = true
parent_exists (some p) accts = is_some (find_by (λ a. a.id) p accts)

abbrev pub stop_posting : Account → Account
stop_posting a = record a { is_postable = false }

-- The trigger: an account with a child is a control account.
abbrev pub parent_not_postable : Option ℕ → List Account → List Account
parent_not_postable none accts = accts
parent_not_postable (some p) accts = update_by (λ a. a.id) p stop_posting accts

-- The work of the transaction.
abbrev pub insert_account : Context → CreateAccountDto → Action Books ℕ
insert_account ctx dto = do
  accounts ← gets (λ b. b.accounts)
  require (count_by (λ a. a.id) ctx.new_id accounts == 0 && not (has_code dto.code accounts))
      unique_violation
  require (parent_exists dto.parent_id accounts) foreign_key
  modify (λ b. record b {
    accounts = new_account ctx dto ∷ parent_not_postable dto.parent_id b.accounts;
  })
  pure ctx.new_id

unfoldable pub create : Context → CreateAccountDto → Action Books ℕ
create ctx dto = transaction (insert_account ctx dto)

pub insert_account_ok :
    (ctx : Context) (dto : CreateAccountDto) (b : Books) {r : ℕ} {t : Books}
    → insert_account ctx dto b ≡ (ok r, t)
    → (count_by (λ a. a.id) ctx.new_id b.accounts ≡ 0)
      × (t ≡ record b {
        accounts = new_account ctx dto ∷ parent_not_postable dto.parent_id b.accounts;
      })
insert_account_ok ctx dto b h = ground arith
