-- ===== src/Frontend/JournalForm.antt =====
-- The form of a journal entry: frontend/src/views/JournalNewView.vue. An account that is not chosen
-- yet is `none`; dates are numbers.
use Prim.Native.String.{String, count}
use arka_erp.Base.{
  ℕ, zero, suc, ◌+◌, Bool, true, false, not, Option, none, some, List, [], ◌∷◌, ◌++◌, ltb, ◌==◌,
  ◌&&◌, if◌then◌else◌, or_else, length,
}
use arka_erp.Base.Texts.{Text, codes, text_eq}
use arka_erp.Base.Decimal.{decimal}
use arka_erp.Ledger.{Side, Source, Line}
use arka_erp.Journal.Dto.{LineDto, CreateJournalDto}
use arka_erp.Frontend.Toman.{entered, to_rial, to_toman}

pub record FormLine : Type 0 where
  pub account_id : Option ℕ
  pub side : Side
  pub amount : Text
  pub memo : String

pub record Form : Type 0 where
  pub memo : String
  pub entry_date : ℕ
  pub reference : String
  pub lines : List FormLine

abbrev pub empty_line : Side → FormLine
empty_line side = record { account_id = none; side = side; amount = []; memo = "" }

abbrev pub is_debit : Side → Bool
is_debit Side.debit = true
is_debit Side.credit = false

-- The loop of `totals`, with its two sums.
abbrev pub sum_form : ℕ → ℕ → List FormLine → ℕ × ℕ
sum_form d c [] = (d, c)
sum_form d c (l ∷ ls) =
    sum_form (if is_debit l.side then d + entered l.amount else d)
      (if is_debit l.side then c else c + entered l.amount) ls

unfoldable pub is_balanced : List FormLine → Bool
is_balanced ls = let (d, c) = sum_form 0 0 ls in d == c && ltb 0 d

abbrev pub add_line : List FormLine → List FormLine
add_line ls = ls ++ empty_line Side.debit ∷ []

-- `splice(i, 1)`
abbrev pub splice : ℕ → List FormLine → List FormLine
splice i [] = []
splice zero (l ∷ ls) = ls
splice (suc i) (l ∷ ls) = l ∷ splice i ls

abbrev pub remove_line : ℕ → List FormLine → List FormLine
remove_line i ls = if ltb 2 (length ls) then splice i ls else ls

-- What the buttons of the form do to its lines.
pub data Edit : Type 0 where
  adds : Edit
  removes : ℕ → Edit

unfoldable pub edit_lines : List Edit → List FormLine → List FormLine
edit_lines [] ls = ls
edit_lines (adds ∷ es) ls = edit_lines es (add_line ls)
edit_lines (removes i ∷ es) ls = edit_lines es (remove_line i ls)

-- `s || undefined`
abbrev pub given : String → Option String
given s = if count s == 0 then none else some s

abbrev pub line_dto : FormLine → ℕ → LineDto
line_dto l account = record {
  account_id = account;
  debit = if is_debit l.side then to_rial l.amount else codes "0";
  credit = if is_debit l.side then codes "0" else to_rial l.amount;
  memo = given l.memo;
  project_id = none;
}

abbrev pub joined : FormLine → Option ℕ → Option (List LineDto) → Option (List LineDto)
joined l none rest = none
joined l (some account) none = none
joined l (some account) (some rest) = some (line_dto l account ∷ rest)

-- The lines of the request, if every line has an account.
abbrev pub line_dtos : List FormLine → Option (List LineDto)
line_dtos [] = some []
line_dtos (l ∷ ls) = joined l l.account_id (line_dtos ls)

abbrev pub payload : Form → List LineDto → CreateJournalDto
payload form lines = record {
  memo = form.memo;
  entry_date = form.entry_date;
  reference = given form.reference;
  source = some Source.manual;
  project_id = none;
  customer_id = none;
  lines = lines;
}

abbrev pub sent : Form → Option (List LineDto) → Option CreateJournalDto
sent form none = none
sent form (some lines) = some (payload form lines)

-- The body that `submit` sends, if it sends one.
unfoldable pub submit : Form → Option CreateJournalDto
submit form = if is_balanced form.lines then sent form (line_dtos form.lines) else none

-- A line of a draft, as the form is filled for its editing: the API sends amounts as texts.
abbrev pub open_line : Line → FormLine
open_line l =
    let has_debit = not (text_eq (decimal l.debit) (codes "0")) in
    record {
      account_id = some l.account_id;
      side = if has_debit then Side.debit else Side.credit;
      amount = to_toman (if has_debit then decimal l.debit else decimal l.credit);
      memo = or_else l.memo "";
    }
