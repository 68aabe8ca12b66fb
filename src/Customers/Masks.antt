-- ===== src/Customers/Masks.antt =====
-- What the list of customers shows of an encrypted field.
use arka_erp.Base.{◌≡◌, List, All, length}
use arka_erp.Base.Tables.{All-update_by}
use arka_erp.Base.Trash.{if_kept, trashed, untrashed, if_kept_keeps, untrashed_keeps}
use arka_erp.Envelope.{Cipher}
use arka_erp.Envelope.Masks.{Shows, IsAuthentic, encrypt-Shows, update-Shows}
use arka_erp.Customers.{Customer, customer_rows, Context, edited, Call, run}
use arka_erp.Customers.Keeps.{run_keeps}

abbrev pub Masked : Cipher → Customer → Type 0
Masked cipher c = Shows cipher c.iban_enc c.iban_last4 × Shows cipher c.tax_id_enc c.tax_id_last4

-- `randomBytes(12)`, twice.
abbrev pub HasIvs : Context → Type 0
HasIvs m = (length m.iban_iv ≡ 12) × (length m.tax_iv ≡ 12)

-- With a cipher that opens what it sealed: if for every customer the last four characters on
-- display are those of the text that its envelope opens to, for the IBAN and for the tax id, or both
-- columns are null, then this is so after any sequence of requests to the endpoints of customers.
pub run-Masked :
    (cipher : Cipher) (cs : List (Context × Call)) (b : List Customer)
    → IsAuthentic cipher
    → All (λ c. HasIvs c.0) cs
    → All (Masked cipher) b
    → All (Masked cipher) (run cipher cs b)
run-Masked cipher cs b good ivs h =
    run_keeps (All (Masked cipher)) HasIvs cipher
      (λ m dto limit b fine _ h. (
        (
          encrypt-Shows cipher good m.iban_iv fine.0 dto.iban,
          encrypt-Shows cipher good m.tax_iv fine.1 dto.tax_id,
        ),
        h,
      ))
      (λ m id dto limit b fine h.
        All-update_by (λ c. c.id) (Masked cipher) id
          (if_kept customer_rows (edited cipher m dto limit)) b h
          (λ c _ was.
            if_kept_keeps customer_rows (Masked cipher) (edited cipher m dto limit) c
              (λ q. (
                update-Shows cipher good m.iban_iv fine.0 dto.iban c.iban_enc c.iban_last4 q.0,
                update-Shows cipher good m.tax_iv fine.1 dto.tax_id c.tax_id_enc c.tax_id_last4 q.1,
              ))
              was))
      (λ m id reason b h.
        All-update_by (λ c. c.id) (Masked cipher) id
          (if_kept customer_rows (trashed customer_rows m.now m.actor reason)) b h
          (λ c _ was.
            if_kept_keeps customer_rows (Masked cipher) (trashed customer_rows m.now m.actor reason)
              c (λ q. q) was))
      (λ id b _ h.
        All-update_by (λ c. c.id) (Masked cipher) id (untrashed customer_rows) b h
          (λ c _ was. untrashed_keeps customer_rows (Masked cipher) c (λ q. q) was))
      cs b ivs h
