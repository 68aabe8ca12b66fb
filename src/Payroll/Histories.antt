-- ===== src/Payroll/Histories.antt =====
-- Every history of requests to the endpoints of payroll keeps its tables and the ledger in order.
use arka_erp.Base.{
  ℕ, ◌≤◌, ◌≡◌, refl, sym, ap, subst, true, false, List, [], ◌∷◌, ◌++◌, map, filter, ◌==◌, length,
  ltb, or_else, arith, All, All-append, All-map_pred, inl, inr, Bool-cases,
}
use arka_erp.Base.Tables.{update_by, count_by, All-update_by}
use arka_erp.Base.Effect.{ok, bad_request, after, transaction, transaction_keeps, require_keeps}
use arka_erp.Ledger.{Context}
use arka_erp.Ledger.Sound.{IsSound}
use arka_erp.Payroll.Posted.{posting, posting_ok}
use arka_erp.Payroll.{
  Payslip, PayrollRun, Person, Rate, percent, Office, CreateRunDto, payslip, of_run, net_of,
  new_run, slips_for, is_paid, insert_run, create_run, mark_run, post_run, Call, creates, posts,
  handle, run,
}

-- The ledger is sound, every payslip is of a run, and the total of a run is that of its payslips.
pub record IsConsistent (o : Office) : Type 0 where
  pub sound : IsSound o.books
  pub slips : All (λ s. 1 ≤ count_by (λ r. r.id) s.run_id o.runs) o.payslips
  pub totals : All (λ r. r.total_net ≡ net_of (of_run r.id o.payslips)) o.runs

count_by-marked :
    (i k e : ℕ) (rs : List PayrollRun)
    → count_by (λ r. r.id) i (update_by (λ r. r.id) k (mark_run e) rs) ≡ count_by (λ r. r.id) i rs
count_by-marked i k e [] = refl
count_by-marked i k e (r ∷ rs) = ground (arith, count_by-marked i k e rs)

post_run-IsConsistent :
    (ctx : Context) (id : ℕ) (o : Office)
    → IsConsistent o
    → IsConsistent (after (post_run ctx id) o)
unfolding post_run
post_run-IsConsistent ctx id o h = transaction_keeps IsConsistent (posting ctx id) o h (λ a t done.
    let w = posting_ok ctx id o t done in
    subst IsConsistent (sym w.result) (record {
      sound = w.sound h.sound;
      slips =
          All-map_pred (λ s. 1 ≤ count_by (λ r. r.id) s.run_id o.runs)
            (λ s.
              1
              ≤ count_by (λ r. r.id) s.run_id
                  (update_by (λ r. r.id) id (mark_run ctx.new_id) o.runs))
            o.payslips
            (λ s known. omega (arith, known, count_by-marked s.run_id id ctx.new_id o.runs))
            h.slips;
      totals =
          All-update_by (λ r. r.id) (λ r. r.total_net ≡ net_of (of_run r.id o.payslips)) id
            (mark_run ctx.new_id) o.runs h.totals (λ r found same. same);
    }))

-- The payslips of a new run, in front of others.
of_run-own :
    (ctx : Context) (tax insurance : Rate) (people : List Person) (rest : List Payslip)
    → of_run ctx.new_id rest ≡ []
    → of_run ctx.new_id (map (payslip ctx.new_id tax insurance) people ++ rest)
      ≡ map (payslip ctx.new_id tax insurance) people
of_run-own ctx tax insurance [] rest bare = bare
of_run-own ctx tax insurance (p ∷ people) rest bare =
    let next = of_run-own ctx tax insurance people rest bare in
    let this : (ctx.new_id == ctx.new_id) ≡ true = ground arith in rw (this, next) refl

of_run-other :
    (ctx : Context) (i : ℕ) (tax insurance : Rate) (people : List Person) (rest : List Payslip)
    → (ctx.new_id == i) ≡ false
    → of_run i (map (payslip ctx.new_id tax insurance) people ++ rest) ≡ of_run i rest
of_run-other ctx i tax insurance [] rest other = refl
of_run-other ctx i tax insurance (p ∷ people) rest other =
    rw other (of_run-other ctx i tax insurance people rest other)

-- No payslip of a run that exists is of one that does not.
of_run-new :
    (i : ℕ) (rs : List PayrollRun) (slips : List Payslip)
    → count_by (λ r. r.id) i rs ≡ 0
    → All (λ s. 1 ≤ count_by (λ r. r.id) s.run_id rs) slips
    → of_run i slips ≡ []
of_run-new i rs [] new h = refl
of_run-new i rs (s ∷ slips) new h = elim (Bool-cases (s.run_id == i)) [
  | inl hit ↦
      let same : s.run_id ≡ i = ground (arith, hit) in
      let known : 1 ≤ count_by (λ r. r.id) i rs = rw same at h.0 in
      absurd (omega (arith, new, known))
  | inr miss ↦ rw miss (of_run-new i rs slips new h.1)
]

own_known :
    (run : PayrollRun) (rs : List PayrollRun) (tax insurance : Rate) (people : List Person)
    → All
        (λ s. 1 ≤ count_by (λ r. r.id) s.run_id (run ∷ rs))
        (map (payslip run.id tax insurance) people)
own_known run rs tax insurance [] = tt
own_known run rs tax insurance (p ∷ people) = (ground arith, own_known run rs tax insurance people)

totals_kept :
    (ctx : Context) (tax insurance : Rate) (people : List Person) (slips : List Payslip)
    (rs : List PayrollRun)
    → count_by (λ r. r.id) ctx.new_id rs ≡ 0
    → All (λ r. r.total_net ≡ net_of (of_run r.id slips)) rs
    → All
        (λ r.
          r.total_net
          ≡ net_of (of_run r.id (map (payslip ctx.new_id tax insurance) people ++ slips)))
        rs
totals_kept ctx tax insurance people slips [] new h = tt
totals_kept ctx tax insurance people slips (r ∷ rs) new h =
    let other : (ctx.new_id == r.id) ≡ false = ground (arith, new) in
    (
      rw (of_run-other ctx r.id tax insurance people slips other) h.0,
      totals_kept ctx tax insurance people slips rs (ground (arith, new)) h.1,
    )

create_run-IsConsistent :
    (ctx : Context) (dto : CreateRunDto) (o : Office)
    → IsConsistent o
    → IsConsistent (after (create_run ctx dto) o)
unfolding create_run insert_run
create_run-IsConsistent ctx dto o h =
    require_keeps IsConsistent (ltb 0 (length (filter is_paid o.personnel))) bad_request
      (transaction (insert_run ctx dto)) o h
      (λ _. transaction_keeps IsConsistent (insert_run ctx dto) o h made)
  where
    people : List Person
    people = filter is_paid o.personnel

    slips : List Payslip
    slips = slips_for ctx dto o.personnel

    of_old : count_by (λ r. r.id) ctx.new_id o.runs ≡ 0 → of_run ctx.new_id o.payslips ≡ []
    of_old new = of_run-new ctx.new_id o.runs o.payslips new h.slips

    with_run :
        count_by (λ r. r.id) ctx.new_id o.runs ≡ 0
        → IsConsistent
            (record o { runs = new_run ctx dto slips ∷ o.runs; payslips = slips ++ o.payslips })
    with_run new = record {
      sound = h.sound;
      slips =
          All-append (λ s. 1 ≤ count_by (λ r. r.id) s.run_id (new_run ctx dto slips ∷ o.runs)) slips
            o.payslips
            (own_known (new_run ctx dto slips) o.runs (or_else dto.tax_pct (percent 10))
              (or_else dto.insurance_pct (percent 7)) people)
            (All-map_pred (λ s. 1 ≤ count_by (λ r. r.id) s.run_id o.runs)
              (λ s. 1 ≤ count_by (λ r. r.id) s.run_id (new_run ctx dto slips ∷ o.runs)) o.payslips
              (λ s known. omega (arith, known)) h.slips);
      totals = (
        ap net_of (
            sym (
              of_run-own ctx (or_else dto.tax_pct (percent 10))
                (or_else dto.insurance_pct (percent 7)) people o.payslips (of_old new))),
        totals_kept ctx (or_else dto.tax_pct (percent 10)) (or_else dto.insurance_pct (percent 7))
            people o.payslips o.runs new h.totals,
      );
    }

    made : (a : ℕ) (t : Office) → insert_run ctx dto o ≡ (ok a, t) → IsConsistent t
    made a t done = elim (Bool-cases (count_by (λ r. r.id) ctx.new_id o.runs == 0)) [
      | inl new ↦ subst IsConsistent (ground (arith, new, done)) (with_run (ground (arith, new)))
      | inr taken ↦ absurd (ground (arith, taken, done))
    ]

handle-IsConsistent :
    (ctx : Context) (c : Call) (o : Office) → IsConsistent o → IsConsistent (handle ctx c o)
unfolding handle
handle-IsConsistent ctx (creates dto) o h = create_run-IsConsistent ctx dto o h
handle-IsConsistent ctx (posts id) o h = post_run-IsConsistent ctx id o h

-- From a sound ledger, and where every payslip is of a run and the total of each run is that of its
-- payslips, any sequence of requests to the endpoints of payroll, whether each returns or throws,
-- leaves a sound ledger, and runs and payslips that are so again.
pub run-IsConsistent :
    (cs : List (Context × Call)) (o : Office) → IsConsistent o → IsConsistent (run cs o)
unfolding run
run-IsConsistent [] o h = h
run-IsConsistent ((ctx, c) ∷ cs) o h =
    run-IsConsistent cs (handle ctx c o) (handle-IsConsistent ctx c o h)
