-- ===== src/Journal/Dto.antt =====
-- The request bodies of backend/src/accounting/dto/: their fields and the checks that Nest's
-- ValidationPipe makes before a handler runs. Ids and dates are numbers here, so `IsUUID`,
-- `IsDateString` and `IsIn` hold of every value.
use Prim.Native.String.{String, count}
use arka_erp.Base.{
  ℕ, ◌+◌, ◌-◌, ◌*◌, Bool, true, false, ◌&&◌, Option, none, some, List, [], ◌∷◌, leb, every,
  if◌then◌else◌, length,
}
use arka_erp.Base.Texts.{Text, codes}
use arka_erp.Base.Effect.{Result, ok, err, bad_request}
use arka_erp.Ledger.{AccountType, Side, Source}

abbrev pub is_digit : ℕ → Bool
is_digit c = leb b'0' c && leb c b'9'

-- AMOUNT = /^\d{1,78}$/
abbrev pub matches_amount : Text → Bool
matches_amount t = leb 1 (length t) && leb (length t) 78 && every is_digit t

-- `v || '0'`
abbrev pub or_zero : Text → Text
or_zero [] = codes "0"
or_zero (c ∷ t) = c ∷ t

abbrev pub read_digits : ℕ → Text → ℕ
read_digits acc [] = acc
read_digits acc (c ∷ t) = read_digits (acc * 10 + (c - b'0')) t

-- `BigInt(t)` on a text of digits. It reads some other texts as well (a sign, blanks, `0x`), which
-- AMOUNT keeps out of every call; the model throws on those.
unfoldable pub big_int : Text → Option ℕ
big_int t = if every is_digit t then some (read_digits 0 t) else none

pub record LineDto : Type 0 where
  pub account_id : ℕ
  pub debit : Text
  pub credit : Text
  pub memo : Option String
  pub project_id : Option ℕ

pub record CreateJournalDto : Type 0 where
  pub memo : String
  pub entry_date : ℕ
  pub reference : Option String
  pub source : Option Source
  pub project_id : Option ℕ
  pub customer_id : Option ℕ
  pub lines : List LineDto

pub record TransferDto : Type 0 where
  pub from_account_id : ℕ
  pub to_account_id : ℕ
  pub amount : Text
  pub memo : String
  pub entry_date : Option ℕ

pub record CreateAccountDto : Type 0 where
  pub code : String
  pub name : String
  pub account_type : AccountType
  pub normal_balance : Side
  pub parent_id : Option ℕ
  pub description : Option String

abbrev pub at_most : ℕ → Option String → Bool
at_most n none = true
at_most n (some s) = leb (count s) n

abbrev pub checked : Bool → Result (Unit {0})
checked true = ok tt
checked false = err bad_request

abbrev pub is_valid_line : LineDto → Bool
is_valid_line l = matches_amount l.debit && matches_amount l.credit && at_most 500 l.memo

unfoldable pub validate_create : CreateJournalDto → Result (Unit {0})
validate_create dto = checked (
    leb (count dto.memo) 500
    && at_most 100 dto.reference
    && leb 2 (length dto.lines)
    && every is_valid_line dto.lines)

unfoldable pub validate_transfer : TransferDto → Result (Unit {0})
validate_transfer dto = checked (matches_amount dto.amount && leb (count dto.memo) 500)

-- /^[0-9]{1,20}$/
unfoldable pub validate_account : CreateAccountDto → Result (Unit {0})
validate_account dto = checked (
    leb 1 (length (codes dto.code))
    && leb (length (codes dto.code)) 20
    && every is_digit (codes dto.code)
    && leb (count dto.name) 200
    && at_most 500 dto.description)

-- `ReverseDto`
unfoldable pub validate_memo : Option String → Result (Unit {0})
validate_memo memo = checked (at_most 500 memo)

-- `JournalDeleteDto`
unfoldable pub validate_reason : Text → Result (Unit {0})
validate_reason reason = checked (leb (length reason) 500)
