-- ===== src/Customers/Tests.antt =====
-- The theorems of customers at a table with one kept customer.
use arka_erp.Base.{refl, none, some, List, [], ◌∷◌, arith, All, inl}
use arka_erp.Base.Int.{pos}
use arka_erp.Base.Texts.{Text, codes}
use arka_erp.Base.Trash.{no_stamp}
use arka_erp.Envelope.{Cipher}
use arka_erp.Envelope.Masks.{IsAuthentic}
use arka_erp.Customers.{
  Customer, company, Context, UpsertCustomerDto, Call, creates, updates, deletes, restores, run,
}
use arka_erp.Customers.Masks.{Masked, run-Masked}
use arka_erp.Customers.Codes.{IsUnique, run-IsUnique}

-- A cipher that hides nothing.
abbrev tag : Text
tag = codes "0123456789abcdef"

abbrev plain : Cipher
plain = record { seal = λ iv s. (tag, s); unseal = λ iv t s. some s }

abbrev row : Customer
row = record {
  id = 1;
  code = codes "CUST-1000";
  kind = company;
  display_name = codes "Shop";
  legal_name = none;
  email = none;
  phone = none;
  iban_enc = none;
  iban_last4 = none;
  tax_id_enc = none;
  tax_id_last4 = none;
  credit_limit = pos 0;
  created_by = none;
  stamp = no_stamp;
}

abbrev moment : Context
moment = record {
  now = 5;
  actor = some 7;
  new_id = 2;
  drawn = 10003;
  numeric_in = λ s. none;
  iban_iv = codes "abcdefghijkl";
  tax_iv = codes "ABCDEFGHIJKL";
}

abbrev dto : UpsertCustomerDto
dto = record {
  code = none;
  kind = none;
  display_name = some (codes "Mill");
  legal_name = none;
  email = none;
  phone = none;
  iban = some (codes "IR123456");
  tax_id = none;
  credit_limit = none;
}

abbrev requests : List (Context × Call)
requests =
    (moment, updates 1 dto)
    ∷ (moment, deletes 1 (codes "old"))
    ∷ (moment, creates dto)
    ∷ (moment, restores 1)
    ∷ []

authentic : IsAuthentic plain
authentic iv s = (refl, refl)

alone : IsUnique (row ∷ [])
alone code = ground arith

run-Masked_example : All (Masked plain) (run plain requests (row ∷ []))
run-Masked_example =
    run-Masked plain requests (row ∷ []) authentic
      ((refl, refl), ((refl, refl), ((refl, refl), ((refl, refl), tt))))
      ((inl (refl, refl), inl (refl, refl)), tt)

run-IsUnique_example : IsUnique (run plain requests (row ∷ []))
run-IsUnique_example = run-IsUnique plain requests (row ∷ []) alone
