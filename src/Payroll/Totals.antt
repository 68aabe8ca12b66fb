-- ===== src/Payroll/Totals.antt =====
-- The amounts of a payroll run, and the entry that they make.
use arka_erp.Base.{ℕ, ◌+◌, ◌≡◌, some, List, [], ◌∷◌, map, arith, or_else, filter}
use arka_erp.Base.Int.{ℤ, pos, negsuc, ◌+ℤ◌, int_laws, parts}
use arka_erp.Ledger.{Context}
use arka_erp.Ledger.Lines.{total_debit, total_credit}
use arka_erp.Payroll.{
  Person, Rate, percent, payslip, gross_of, tax_of, insurance_of, net_of, payroll_lines,
  credit_lines, CreateRunDto, slips_for, is_paid, not_negative,
}

-- Over the payslips of a run, gross pay is net pay, tax and insurance.
slips_add_up :
    (id : ℕ) (tax_pct insurance_pct : Rate) (people : List Person)
    → net_of (map (payslip id tax_pct insurance_pct) people)
        +ℤ pos (tax_of (map (payslip id tax_pct insurance_pct) people))
        +ℤ pos (insurance_of (map (payslip id tax_pct insurance_pct) people))
      ≡ pos (gross_of (map (payslip id tax_pct insurance_pct) people))
slips_add_up id t i [] = omega int_laws
slips_add_up id t i (p ∷ ps) = omega (int_laws, parts (slips_add_up id t i ps))

credits_of :
    (acc acc' tax insurance : ℕ)
    → total_credit (credit_lines 3 ((acc, tax) ∷ (acc', insurance) ∷ [])) ≡ tax + insurance
credits_of acc acc' tax insurance = ground arith

debits_of :
    (acc acc' tax insurance : ℕ)
    → total_debit (credit_lines 3 ((acc, tax) ∷ (acc', insurance) ∷ [])) ≡ 0
debits_of acc acc' tax insurance = ground arith

-- The lines that `postRun` writes for the payslips that `createRun` made, at rates of any number of
-- decimals and where the net pay is not negative, have equal debits and credits.
pub payroll_lines_balance :
    (ctx : Context) (dto : CreateRunDto) (people : List Person) (a b c d net : ℕ)
    → not_negative (net_of (slips_for ctx dto people)) ≡ some net
    → total_debit (
        payroll_lines a b c d
          (gross_of (slips_for ctx dto people))
          net
          (tax_of (slips_for ctx dto people))
          (insurance_of (slips_for ctx dto people)))
      ≡ total_credit (
          payroll_lines a b c d
            (gross_of (slips_for ctx dto people))
            net
            (tax_of (slips_for ctx dto people))
            (insurance_of (slips_for ctx dto people)))
payroll_lines_balance ctx dto people a b c d net h =
    let slips = slips_for ctx dto people in
    let whole : net_of slips ≡ pos net = is_pos (net_of slips) net h in
    omega (
      int_laws,
      debits_of c d (tax_of slips) (insurance_of slips),
      credits_of c d (tax_of slips) (insurance_of slips),
      parts whole,
      parts (
          slips_add_up ctx.new_id (or_else dto.tax_pct (percent 10))
            (or_else dto.insurance_pct (percent 7)) (filter is_paid people)),
    )
  where
    is_pos : (x : ℤ) (n : ℕ) → not_negative x ≡ some n → x ≡ pos n
    is_pos (pos m) n e = ground arith
    is_pos (negsuc m) n e = absurd (ground arith)
