-- ===== src/Ledger.antt =====
-- The ledger's tables and posting engine: database/init/04_accounting_core.sql and
-- database/init/05_posting_functions.sql, which every write of the accounting services goes through.
-- Ids (UUIDs), dates and instants are numbers. The rows keep the columns that the services write;
-- a journal line stands in its entry's row, in the order of `line_no`.
pub mod Lines
pub mod Sums
pub mod Written
pub mod Posting
pub mod Outcomes
pub mod Sound
pub mod Equation
pub mod Reversal
pub mod Closing
pub mod Closed
mod Tests
use Prim.Native.String.{String}
use arka_erp.Base.{ℕ, ◌^◌, Bool, true, false, Option, none, some, List}
use arka_erp.Base.Int.{ℤ}

pub data Side : Type 0 where
  debit credit : Side

pub data AccountType : Type 0 where
  asset liability equity income expense : AccountType

pub record Account : Type 0 where
  pub id : ℕ
  pub code : String
  pub name : String
  pub account_type : AccountType
  pub normal_balance : Side
  pub parent_id : Option ℕ
  pub is_postable : Bool
  pub is_active : Bool
  pub balance : ℤ
  pub balance_version : ℕ
  pub description : Option String
  pub deleted_at : Option ℕ

pub data PeriodStatus : Type 0 where
  open_period locked closed : PeriodStatus

pub record Period : Type 0 where
  pub id : ℕ
  pub starts_on : ℕ
  pub ends_on : ℕ
  pub status : PeriodStatus

pub data Status : Type 0 where
  draft posted reversed void : Status

pub data Source : Type 0 where
  manual invoice payroll depreciation fx reversal closing : Source

-- A header's memo: as it was written, or one of the texts that the code composes.
pub data Memo : Type 0 where
  written : String → Memo
  reversal_of : ℕ → Memo → Memo
  payroll_for : String → Memo
  closing_of : ℕ → Memo

pub record Line : Type 0 where
  pub line_no : ℕ
  pub account_id : ℕ
  pub debit : ℕ
  pub credit : ℕ
  pub memo : Option String
  pub project_id : Option ℕ

pub record Entry : Type 0 where
  pub id : ℕ
  pub entry_no : ℕ
  pub entry_date : ℕ
  pub memo : Memo
  pub reference : Option String
  pub source : Source
  pub status : Status
  pub fiscal_period_id : Option ℕ
  pub project_id : Option ℕ
  pub customer_id : Option ℕ
  pub reversed_entry_id : Option ℕ
  pub posted_at : Option ℕ
  pub posted_by : Option ℕ
  pub created_by : Option ℕ
  pub deleted_at : Option ℕ
  pub deleted_by : Option ℕ
  pub deleted_reason : Option (List ℕ)
  pub lines : List Line

-- Of the projects and the customers, the ids, which the foreign keys of an entry name.
pub record Books : Type 0 where
  pub accounts : List Account
  pub entries : List Entry
  pub periods : List Period
  pub projects : List ℕ
  pub customers : List ℕ

-- What a call takes from outside: the clock, the actor of the session (`arka.current_actor_id()`),
-- and the UUID and the sequence number that the database makes for a new row.
pub record Context : Type 0 where
  pub now : ℕ
  pub today : ℕ
  pub actor : Option ℕ
  pub new_id : ℕ
  pub entry_no : ℕ

-- NUMERIC(78,0) holds the integers below this.
unfoldable pub numeric_limit : ℕ
numeric_limit = 10 ^ 78
