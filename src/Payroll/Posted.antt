-- ===== src/Payroll/Posted.antt =====
-- What `postRun` has done when it returned: the entry was written and posted, and the run marked.
use arka_erp.Base.{ℕ, ◌≡◌, refl, sym, ap, subst, ◌∙◌, Bool, true, false, not, ◌==◌}
use arka_erp.Base.Tables.{find_by, update_by}
use arka_erp.Base.Effect.{
  Failure, Result, Action, ok, bad_request, check_violation, gets, or_throw, or_throw-state,
  require, modify, continue, continue-eq-ok, ◌>>=◌, ◌>>◌,
}
use arka_erp.Ledger.{Books, Context}
use arka_erp.Ledger.Posting.{insert_entry, insert_lines, fn_post_journal_entry}
use arka_erp.Ledger.Sound.{IsSound}
use arka_erp.Ledger.Written.{written-IsSound}
use arka_erp.Payroll.{
  PayrollRun, Office, of_run, gross_of, tax_of, insurance_of, net_of, on_books, account,
  payroll_entry, payroll_lines, not_negative, mark_run, run,
}

-- A step that only reads hands its state on.
reads_ok :
    {S A B : Type 0} (m : Action S A) (f : A → Action S B) (s : S) {r : B} {t : S}
    → (m s).1 ≡ s
    → continue (m s) f ≡ (ok r, t)
    → (a : A) × (f a s ≡ (ok r, t))
reads_ok m f s still h =
    let (a, u, done, rest) = continue-eq-ok (m s) f h in
    let same : u ≡ s = sym (ap (λ x. x.1) done) ∙ still in (a, rw same at rest)

require-state : {S : Type 0} (b : Bool) (x : Failure) (s : S) → (require b x s).1 ≡ s
require-state true x s = refl
require-state false x s = refl

on_books-ok :
    {A : Type 0} (m : Action Books A) (o o1 : Office) {a : A}
    → on_books m o ≡ (ok a, o1)
    → (m o.books ≡ (ok a, o1.books)) × (o1 ≡ record o { books = o1.books })
on_books-ok {A = A} m o o1 {a = a} h = split (m o.books) h
  where
    split :
        (r : Result A × Books)
        → ◌≡◌ {A = Result A × Office} (r.0, record o { books = r.1 }) (ok a, o1)
        → (r ≡ (ok a, o1.books)) × (o1 ≡ record o { books = o1.books })
    split (r, b) e =
        let books : b ≡ o1.books = ap (λ x. x.1.books) e in
        (rw (ap (λ x. x.0) e, books) refl, sym (ap (λ x. x.1) e) ∙ rw books refl)

-- The statements of `postRun` that write.
abbrev writing : Context → ℕ → PayrollRun → ℕ → ℕ → ℕ → ℕ → Office → Action Office (Unit {0})
writing ctx id run a5010 a2020 a2050 a2040 o = do
  on_books (insert_entry (payroll_entry ctx run))
  net ← or_throw (not_negative (net_of (of_run id o.payslips))) check_violation
  on_books (
      insert_lines ctx.new_id (
        payroll_lines a5010 a2020 a2050 a2040 (gross_of (of_run id o.payslips)) net
          (tax_of (of_run id o.payslips)) (insurance_of (of_run id o.payslips))))
  on_books (fn_post_journal_entry ctx ctx.new_id)
  modify (λ o. record o { runs = update_by (λ r. r.id) id (mark_run ctx.new_id) o.runs })

-- A run that was written: the ledger is sound, the run is marked, and the rest stays.
pub record Written (ctx : Context) (id : ℕ) (o t : Office) : Type 0 where
  pub sound : IsSound o.books → IsSound t.books
  pub result :
      t ≡ record o { books = t.books; runs = update_by (λ r. r.id) id (mark_run ctx.new_id) o.runs }

-- What the last statement makes of a state in which only the books changed.
marked :
    (ctx : Context) (id : ℕ) (o p t : Office)
    → p ≡ record o { books = p.books }
    → modify (λ o. record o { runs = update_by (λ r. r.id) id (mark_run ctx.new_id) o.runs }) p
      ≡ (ok tt, t)
    → (t.books ≡ p.books)
      × (t ≡ record o {
        books = t.books;
        runs = update_by (λ r. r.id) id (mark_run ctx.new_id) o.runs;
      })
marked ctx id o p t same h =
    let end = ap (λ x. x.1) h in
    (
      sym (ap (λ x. x.books) end),
      sym end ∙ ap with_mark (same ∙ ap on_these (ap (λ x. x.books) end)),
    )
  where
    with_mark : Office → Office
    with_mark x = record x { runs = update_by (λ r. r.id) id (mark_run ctx.new_id) x.runs }

    on_these : Books → Office
    on_these b = record o { books = b }

-- Three steps that change only the books.
books_only :
    (o p q r : Office)
    → p ≡ record o { books = p.books }
    → q ≡ record p { books = q.books }
    → r ≡ record q { books = r.books }
    → r ≡ record o { books = r.books }
books_only o p q r e1 e2 e3 = e3 ∙ ap on_these e2 ∙ ap on_these e1
  where
    on_these : Office → Office
    on_these x = record x { books = r.books }

writing_ok :
    (ctx : Context) (id : ℕ) (run : PayrollRun) (a5010 a2020 a2050 a2040 : ℕ) (o t : Office)
    → writing ctx id run a5010 a2020 a2050 a2040 o o ≡ (ok tt, t)
    → Written ctx id o t
writing_ok ctx id run a5010 a2020 a2050 a2040 o t h =
    let (_, o1, inserted, h1) =
      continue-eq-ok (on_books (insert_entry (payroll_entry ctx run)) o) _ h in
    let (put, e1) = on_books-ok (insert_entry (payroll_entry ctx run)) o o1 inserted in
    let (net, h2) =
      reads_ok (or_throw (not_negative (net_of (of_run id o.payslips))) check_violation) _ o1
        (or_throw-state _ _ o1) h1 in
    let ls =
      payroll_lines a5010 a2020 a2050 a2040 (gross_of (of_run id o.payslips)) net
        (tax_of (of_run id o.payslips)) (insurance_of (of_run id o.payslips)) in
    let (_, o2, added, h3) = continue-eq-ok (on_books (insert_lines ctx.new_id ls) o1) _ h2 in
    let (lined, e2) = on_books-ok (insert_lines ctx.new_id ls) o1 o2 added in
    let (_, o3, done, h4) =
      continue-eq-ok (on_books (fn_post_journal_entry ctx ctx.new_id) o2) _ h3 in
    let (posted, e3) = on_books-ok (fn_post_journal_entry ctx ctx.new_id) o2 o3 done in
    let only : o3 ≡ record o { books = o3.books } = books_only o o1 o2 o3 e1 e2 e3 in
    let (same, result) = marked ctx id o o3 t only h4 in
    record {
      sound = λ sound. subst IsSound (sym same) (
          written-IsSound ctx (payroll_entry ctx run) ls o.books o1.books o2.books o3.books refl
            refl put lined posted sound);
      result = result;
    }

-- The transaction of `postRun`.
abbrev pub posting : Context → ℕ → Action Office (Unit {0})
posting ctx id = do
  o ← gets (λ o. o)
  run ← or_throw (find_by (λ r. r.id) id o.runs) bad_request
  require (not run.is_posted) bad_request
  require (not (gross_of (of_run id o.payslips) == 0)) bad_request
  a5010 ← account "5010"
  a2020 ← account "2020"
  a2050 ← account "2050"
  a2040 ← account "2040"
  writing ctx id run a5010 a2020 a2050 a2040 o

pub posting_ok :
    (ctx : Context) (id : ℕ) (o t : Office) {a : Unit {0}}
    → posting ctx id o ≡ (ok a, t)
    → Written ctx id o t
posting_ok ctx id o t h =
    let (run, h1) =
      reads_ok (or_throw (find_by (λ r. r.id) id o.runs) bad_request) _ o (or_throw-state _ _ o)
        h in
    let (_, h2) = reads_ok (require (not run.is_posted) bad_request) _ o refl h1 in
    let (_, h3) =
      reads_ok (require (not (gross_of (of_run id o.payslips) == 0)) bad_request) _ o refl h2 in
    let (a5010, h4) = reads_ok (account "5010") _ o (or_throw-state _ _ o) h3 in
    let (a2020, h5) = reads_ok (account "2020") _ o (or_throw-state _ _ o) h4 in
    let (a2050, h6) = reads_ok (account "2050") _ o (or_throw-state _ _ o) h5 in
    let (a2040, h7) = reads_ok (account "2040") _ o (or_throw-state _ _ o) h6 in
    writing_ok ctx id run a5010 a2020 a2050 a2040 o t h7
