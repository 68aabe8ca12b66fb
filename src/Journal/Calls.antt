-- ===== src/Journal/Calls.antt =====
-- The endpoints that write (journal.controller.ts, accounts.controller.ts): each checks its body and
-- calls the service, by way of the command bus (commands/journal.commands.ts) or directly.
use Prim.Native.String.{String}
use arka_erp.Base.{ℕ, Option, List, [], ◌∷◌}
use arka_erp.Base.Texts.{Text}
use arka_erp.Base.Effect.{Action, pure, ◌>>=◌, ◌>>◌, after}
use arka_erp.Ledger.{Books, Context}
use arka_erp.Journal.Dto.{
  CreateJournalDto, TransferDto, CreateAccountDto, validate_create, validate_transfer,
  validate_account, validate_reason, validate_memo,
}
use arka_erp.Journal.Accounts
use arka_erp.Journal.{
  lift, create_draft, post, reverse, transfer, update_draft, delete_draft, restore,
}

-- The commands of the write side.
pub data Command : Type 0 where
  create_journal : CreateJournalDto → Command
  post_journal : ℕ → Command
  reverse_journal : ℕ → Option ℕ → Option String → Command
  transfer_funds : TransferDto → Command

-- Their handlers' `execute`. The answer is the header's id.
unfoldable pub execute : Context → Command → Action Books ℕ
execute ctx (create_journal dto) = do e ← create_draft ctx dto; pure e.id
execute ctx (post_journal id) = do e ← post ctx id; pure e.id
execute ctx (reverse_journal id date memo) = do e ← reverse ctx id date memo; pure e.id
execute ctx (transfer_funds dto) = do e ← transfer ctx dto; pure e.id

-- A request to an endpoint that writes.
pub data Call : Type 0 where
  create : CreateJournalDto → Call
  transfers : TransferDto → Call
  update : ℕ → CreateJournalDto → Call
  remove : ℕ → Text → Call
  restores : ℕ → Call
  posts : ℕ → Call
  reverses : ℕ → Option ℕ → Option String → Call
  create_account : CreateAccountDto → Call

unfoldable pub handle : Context → Call → Action Books ℕ
handle ctx (create dto) = do lift (validate_create dto); execute ctx (create_journal dto)
handle ctx (transfers dto) = do lift (validate_transfer dto); execute ctx (transfer_funds dto)
handle ctx (update id dto) = do lift (validate_create dto); e ← update_draft id dto; pure e.id
handle ctx (remove id reason) = do
  lift (validate_reason reason)
  delete_draft ctx id reason
  pure id
handle ctx (restores id) = do restore id; pure id
handle ctx (posts id) = execute ctx (post_journal id)
handle ctx (reverses id date memo) = do
  lift (validate_memo memo)
  execute ctx (reverse_journal id date memo)
handle ctx (create_account dto) = do lift (validate_account dto); Accounts.create ctx dto

-- A history: requests one after another, each with its own context.
unfoldable pub run : List (Context × Call) → Books → Books
run [] b = b
run ((ctx, c) ∷ cs) b = run cs (after (handle ctx c) b)
