-- ===== src/Filter.antt =====
-- The answer to a request that threw: backend/src/common/filters/all-exceptions.filter.ts.
use arka_erp.Base.{
  leb, ℕ, ◌≡◌, refl, Bool, true, false, ◌||◌, ◌⊎◌, inl, inr, if◌then◌else◌, Bool-cases,
}
use arka_erp.Base.Texts.{Text, codes, text_eq}

-- What may be thrown: an HttpException with its status and the error text of its body, an object
-- whose `code` is a text, as PostgreSQL's errors are, or anything else.
pub data Exception : Type 0 where
  http : ℕ → Text → Exception
  pg : Text → Exception
  other : Exception

-- The `switch` over the SQLSTATE, with the name of the error.
unfoldable pub pg_answer : Text → ℕ × Text
pg_answer code =
    if text_eq code (codes "23505")
    then (409, codes "Conflict")
    else if text_eq code (codes "23503")
        || text_eq code (codes "23514")
        || text_eq code (codes "22P02")
    then (400, codes "BadRequest")
    else if text_eq code (codes "P0001") || text_eq code (codes "23P01")
    then (422, codes "BusinessRuleViolation")
    else (422, codes "DatabaseError")

-- The status and the error of the answer.
unfoldable pub answer_of : Exception → ℕ × Text
answer_of (http status error) = (status, error)
answer_of (pg code) = pg_answer code
answer_of other = (500, codes "InternalServerError")

-- Whether the exception is logged.
unfoldable pub is_logged : Exception → Bool
unfolding answer_of pg_answer
is_logged e = leb 500 (answer_of e).0

-- An error of the database, whatever its SQLSTATE, is answered with the status 409, which only a
-- violated unique index gets, or with 400 or 422; and it is not logged.
pub database_error_answer :
    (code : Text)
    → (((answer_of (pg code)).0 ≡ 409) × (text_eq code (codes "23505") ≡ true)
        ⊎ (((answer_of (pg code)).0 ≡ 400) ⊎ ((answer_of (pg code)).0 ≡ 422)))
      × (is_logged (pg code) ≡ false)
unfolding answer_of pg_answer is_logged
database_error_answer code = elim (Bool-cases (text_eq code (codes "23505"))) [
  | inl unique ↦ rw unique (inl (refl, refl), refl)
  | inr first ↦
      elim (Bool-cases (
        text_eq code (codes "23503")
        || text_eq code (codes "23514")
        || text_eq code (codes "22P02"))) [
          | inl bad ↦ rw (first, bad) (inr (inl refl), refl)
          | inr second ↦
              elim (Bool-cases (text_eq code (codes "P0001") || text_eq code (codes "23P01"))) [
                | inl rule ↦ rw (first, second, rule) (inr (inr refl), refl)
                | inr third ↦ rw (first, second, third) (inr (inr refl), refl)
              ]
        ]
]
