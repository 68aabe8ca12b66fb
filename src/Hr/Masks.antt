-- ===== src/Hr/Masks.antt =====
-- What the list of personnel shows of an encrypted field.
use arka_erp.Base.{◌≡◌, List, All, length}
use arka_erp.Base.Tables.{All-update_by}
use arka_erp.Base.Trash.{if_kept, trashed, untrashed, if_kept_keeps, untrashed_keeps}
use arka_erp.Envelope.{Cipher}
use arka_erp.Envelope.Masks.{Shows, IsAuthentic, encrypt-Shows, update-Shows}
use arka_erp.Hr.{Personnel, personnel_rows, Staff, Context, edited, Call, run}
use arka_erp.Hr.Keeps.{run_keeps}

abbrev pub Masked : Cipher → Personnel → Type 0
Masked cipher p =
    Shows cipher p.national_id_enc p.national_id_last4 × Shows cipher p.iban_enc p.iban_last4

abbrev pub AllMasked : Cipher → Staff → Type 0
AllMasked cipher b = All (Masked cipher) b.personnel

-- `randomBytes(12)`, twice.
abbrev pub HasIvs : Context → Type 0
HasIvs m = (length m.national_iv ≡ 12) × (length m.iban_iv ≡ 12)

-- With a cipher that opens what it sealed: if for every record of personnel the last four
-- characters on display are those of the text that its envelope opens to, for the national id and
-- for the IBAN, or both columns are null, then this is so after any sequence of requests to the
-- endpoints of HR.
pub run-AllMasked :
    (cipher : Cipher) (cs : List (Context × Call)) (b : Staff)
    → IsAuthentic cipher
    → All (λ c. HasIvs c.0) cs
    → AllMasked cipher b
    → AllMasked cipher (run cipher cs b)
run-AllMasked cipher cs b good ivs h =
    run_keeps (AllMasked cipher) HasIvs cipher (λ m dto b h. h) (λ id b _ h. h)
      (λ m dto salary b fine _ _ h. (
        (
          encrypt-Shows cipher good m.national_iv fine.0 dto.national_id,
          encrypt-Shows cipher good m.iban_iv fine.1 dto.iban,
        ),
        h,
      ))
      (λ m id dto salary b p fine _ _ _ _ h.
        All-update_by (λ p. p.id) (Masked cipher) id (edited cipher m dto salary) b.personnel h
          (λ p _ q. (
            update-Shows cipher good m.national_iv fine.0 dto.national_id p.national_id_enc
                p.national_id_last4 q.0,
            update-Shows cipher good m.iban_iv fine.1 dto.iban p.iban_enc p.iban_last4 q.1,
          )))
      (λ m id reason b h.
        All-update_by (λ p. p.id) (Masked cipher) id
          (if_kept personnel_rows (trashed personnel_rows m.now m.actor reason)) b.personnel h
          (λ p _ was.
            if_kept_keeps personnel_rows (Masked cipher)
              (trashed personnel_rows m.now m.actor reason) p (λ q. q) was))
      (λ id b _ h.
        All-update_by (λ p. p.id) (Masked cipher) id (untrashed personnel_rows) b.personnel h
          (λ p _ was. untrashed_keeps personnel_rows (Masked cipher) p (λ q. q) was))
      cs b ivs h
