-- ===== src/Customers/Codes.antt =====
-- The codes of customers: uq_customers_code over any sequence of requests, the round trip of a
-- deletion, and the codes that the sequence draws.
use arka_erp.Base.{
  ℕ, ◌/◌, ◌≤◌, ◌<◌, ◌≡◌, refl, ap, sym, true, false, none, some, List, [], ◌∷◌, ◌++◌, ◌&&◌, ◌==◌,
  All, inl, inr, Bool-cases, Option-cases, arith, drop-append, drop, ◌∙◌, Bool, or_else,
}
use arka_erp.Base.Texts.{Text, codes, text_eq, text_eq-true, text_eq_refl, trim, is_truthy}
use arka_erp.Base.Decimal.{
  decimal, lpad, read, read-decimal, read-lpad, length-decimal_four, lpad-decimal_cut,
}
use arka_erp.Base.Tables.{find_by, count_by, update_by, find_by-update_by, update_by-none}
use arka_erp.Base.Trash.{
  no_stamp, is_kept, if_kept, trashed, untrashed, weight, holders-update_by, holders_grow,
  untrashed-trashed, update_by-twice,
}
use arka_erp.Base.Effect.{ok, err, unique_violation, after}
use arka_erp.Ledger.{numeric_limit}
use arka_erp.Envelope.{Cipher}
use arka_erp.Customers.{
  Customer, customer_rows, Context, new_customer, edited, code_holders, drawn_code, may_return,
  soft_delete, restore, Call, run, UpsertCustomerDto, create, insert_customer, customer_code,
}
use arka_erp.Customers.Keeps.{run_keeps}

-- At most one kept customer has a code.
abbrev pub IsUnique : List Customer → Type 0
IsUnique b = (code : Text) → code_holders code b ≤ 1

abbrev pub has_code : Text → Customer → Bool
has_code code c = text_eq code c.code

weight-if_kept :
    (f : Customer → Customer) (code : Text) (c : Customer)
    → weight customer_rows (has_code code) (f c) ≤ weight customer_rows (has_code code) c
    → weight customer_rows (has_code code) (if_kept customer_rows f c)
      ≤ weight customer_rows (has_code code) c
weight-if_kept f code c less = elim (Bool-cases (is_kept customer_rows c)) [
  | inl here ↦ ground (arith, here, less)
  | inr gone ↦ ground (arith, gone)
]

create-IsUnique :
    (c : Customer) (b : List Customer) → code_holders c.code b ≡ 0 → IsUnique b → IsUnique (c ∷ b)
create-IsUnique c b new h code = elim (Bool-cases (text_eq code c.code)) [
  | inl same ↦
      let it : code_holders code b ≡ 0 = rw (text_eq-true code c.code same) new in
      ground (arith, it)
  | inr other ↦ ground (arith, other, h code)
]

restore-IsUnique :
    (id : ℕ) (b : List Customer)
    → may_return (find_by (λ c. c.id) id b) b ≡ true
    → IsUnique b
    → IsUnique (update_by (λ c. c.id) id (untrashed customer_rows) b)
restore-IsUnique id b free h code = elim (Option-cases (find_by (λ c. c.id) id b)) [
  | inl lost ↦ rw (update_by-none (λ c. c.id) id (untrashed customer_rows) b lost) (h code)
  | inr (c, found) ↦
      let sums =
        holders-update_by customer_rows (has_code code) id (untrashed customer_rows) b c found in
      elim (Bool-cases (is_kept customer_rows c)) [
        | inl here ↦ ground (arith, here, sums, h code)
        | inr gone ↦
            let none_kept : code_holders c.code b ≡ 0 = ground (arith, found, gone, free) in
            elim (Bool-cases (text_eq code c.code)) [
              | inl same ↦
                  let it : code_holders code b ≡ 0 = rw (text_eq-true code c.code same) none_kept in
                  ground (arith, gone, same, sums, it)
              | inr other ↦ ground (arith, gone, other, sums, h code)
            ]
      ]
]

-- No code names two kept customers, if none does before, after any sequence of requests to the
-- endpoints of customers.
pub run-IsUnique :
    (cipher : Cipher) (cs : List (Context × Call)) (b : List Customer)
    → IsUnique b
    → IsUnique (run cipher cs b)
run-IsUnique cipher cs b h =
    run_keeps IsUnique (λ _. Unit {0}) cipher
      (λ m dto limit b _ new h. create-IsUnique (new_customer cipher m dto limit) b new h)
      (λ m id dto limit b _ h code. ground (
        arith,
        h code,
        holders_grow customer_rows (has_code code) id
            (if_kept customer_rows (edited cipher m dto limit)) b
            (λ c _. weight-if_kept (edited cipher m dto limit) code c (omega arith)),
      ))
      (λ m id reason b h code. ground (
        arith,
        h code,
        holders_grow customer_rows (has_code code) id
            (if_kept customer_rows (trashed customer_rows m.now m.actor reason)) b
            (λ c _.
              weight-if_kept (trashed customer_rows m.now m.actor reason) code c (omega arith)),
      ))
      restore-IsUnique cs b (anything cs) h
  where
    anything : (cs : List (Context × Call)) → All (λ c. Unit {0}) cs
    anything [] = tt
    anything (c ∷ cs) = (tt, anything cs)

-- A kept customer that is deleted and then restored: the restoring succeeds, and the customers are
-- what they were, if no code names two of them.
pub restore-soft_delete :
    (m : Context) (id : ℕ) (reason : Text) (b : List Customer) (c : Customer)
    → find_by (λ c. c.id) id b ≡ some c
    → c.stamp ≡ no_stamp
    → is_truthy (trim reason) ≡ true
    → IsUnique b
    → restore id (after (soft_delete m id reason) b) ≡ (ok tt, b)
unfolding restore soft_delete
restore-soft_delete m id reason b c found clean given h =
    rw
      (
        given,
        may,
        update_by-twice customer_rows id f (untrashed customer_rows) b c found (rw clean refl)
            (untrashed-trashed customer_rows m.now m.actor reason c clean),
      )
      refl
  where
    f : Customer → Customer
    f = if_kept customer_rows (trashed customer_rows m.now m.actor reason)

    b1 : List Customer
    b1 = update_by (λ c. c.id) id f b

    looked : find_by (λ c. c.id) id b1 ≡ some (f c)
    looked = ground (arith, find_by-update_by (λ c. c.id) id id f b (λ r _. ground arith), found)

    may : may_return (find_by (λ c. c.id) id b1) b1 ≡ true
    may = rw looked (
        ground (
          arith,
          clean,
          h c.code,
          text_eq_refl c.code,
          holders-update_by customer_rows (has_code c.code) id f b c found,
        ))

-- The code that the sequence draws tells customers apart, below 10000.
pub drawn_code_injective : (n k : ℕ) → n < 10000 → k < 10000 → drawn_code n ≡ drawn_code k → n ≡ k
drawn_code_injective n k hn hk same =
    let cut : lpad 4 (decimal n) ≡ lpad 4 (decimal k) =
      sym (drop-append 5 (codes "CUST-") (lpad 4 (decimal n)) refl)
      ∙ ap (drop 5) same
      ∙ drop-append 5 (codes "CUST-") (lpad 4 (decimal k)) refl in
    let numbers = ap (read 0) cut in
    omega (
      arith,
      numbers,
      read-lpad 4 (decimal n) (length-decimal_four n hn),
      read-lpad 4 (decimal k) (length-decimal_four k hk),
      read-decimal n,
      read-decimal k,
    )

-- From 10000 on, the code that a draw makes is the code of a tenth of it.
drawn_code_cut : (n : ℕ) → 10000 ≤ n → drawn_code n ≡ drawn_code (n / 10)
drawn_code_cut n large = ap (λ s. codes "CUST-" ++ s) (lpad-decimal_cut n large)

-- When the draws have passed 10000, a customer for whom the request gives no code and no limit is
-- refused as a duplicate, and nothing is written, while a kept customer has the code of a tenth of
-- the draw.
pub long_draws_collide :
    (cipher : Cipher) (m : Context) (dto : UpsertCustomerDto) (b : List Customer)
    → 10000 ≤ m.drawn
    → is_truthy (trim (or_else dto.display_name [])) ≡ true
    → dto.code ≡ none
    → dto.credit_limit ≡ none
    → 1 ≤ code_holders (drawn_code (m.drawn / 10)) b
    → create cipher m dto b ≡ (err unique_violation, b)
unfolding create insert_customer numeric_limit
long_draws_collide cipher m dto b large named codeless limitless taken =
    rw (named, limitless, refused) refl
  where
    coded : customer_code m.drawn dto.code ≡ drawn_code (m.drawn / 10)
    coded = rw codeless (drawn_code_cut m.drawn large)

    refused :
        (count_by (λ c. c.id) m.new_id b == 0
          && code_holders (customer_code m.drawn dto.code) b == 0)
        ≡ false
    refused = rw coded (ground (arith, taken))
