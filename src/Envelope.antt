-- ===== src/Envelope.antt =====
-- The envelope of encrypted fields: backend/src/common/crypto/envelope.service.ts. The key is fixed;
-- AES-256-GCM is Node's and a parameter, as are the 12 random bytes of each call.
pub mod Masks
use mathlib.Core.List.{append_assoc}
use arka_erp.Base.{
  ℕ, ◌-◌, ◌≡◌, refl, false, Option, none, some, [], ◌∷◌, ◌++◌, arith, length, take, drop,
  take-append, drop-append, length-append, ltb, if◌then◌else◌,
}
use arka_erp.Base.Texts.{Text}
use arka_erp.Base.Effect.{Result, ok, err, plain_error}

-- `createCipheriv` and `createDecipheriv`: the tag and the ciphertext of a text under an iv, and the
-- text again, if the tag is right.
pub record Cipher : Type 0 where
  pub seal : Text → Text → Text × Text
  pub unseal : Text → Text → Text → Option Text

-- Bytes that name an encrypted value, as [ iv(12) | tag(16) | ciphertext ]; `null` without a text.
unfoldable pub encrypt : Cipher → Text → Option Text → Option Text
encrypt cipher iv none = none
encrypt cipher iv (some []) = none
encrypt cipher iv (some (c ∷ s)) =
    let (tag, ct) = cipher.seal iv (c ∷ s) in some (iv ++ (tag ++ ct))

unfoldable pub decrypt : Cipher → Option Text → Result (Option Text)
decrypt cipher none = ok none
decrypt cipher (some blob) =
    if ltb (length blob) 28
    then ok none
    else elim (cipher.unseal (take 12 blob) (take 16 (drop 12 blob)) (drop 28 blob)) [
      | none ↦ err plain_error
      | some s ↦ ok (some s)
    ]

-- `last4`
unfoldable pub last4 : Option Text → Option Text
last4 none = none
last4 (some []) = none
last4 (some (c ∷ s)) = some (drop (length (c ∷ s) - 4) (c ∷ s))

-- A text that is not empty is read back from its envelope, when the cipher reads back what it
-- sealed, with a tag of 16 bytes, and the iv has 12.
pub decrypt-encrypt :
    (cipher : Cipher) (iv : Text) (c : ℕ) (s : Text)
    → length iv ≡ 12
    → length (cipher.seal iv (c ∷ s)).0 ≡ 16
    → cipher.unseal iv (cipher.seal iv (c ∷ s)).0 (cipher.seal iv (c ∷ s)).1 ≡ some (c ∷ s)
    → decrypt cipher (encrypt cipher iv (some (c ∷ s))) ≡ ok (some (c ∷ s))
unfolding encrypt decrypt
decrypt-encrypt cipher iv c s iv_size tag_size opened =
    let tag = (cipher.seal iv (c ∷ s)).0 in
    let ct = (cipher.seal iv (c ∷ s)).1 in
    let long : ltb (length (iv ++ (tag ++ ct))) 28 ≡ false =
      ground (arith, length-append iv (tag ++ ct), length-append tag ct, iv_size, tag_size) in
    let first : take 12 (iv ++ (tag ++ ct)) ≡ iv = take-append 12 iv (tag ++ ct) iv_size in
    let rest : drop 12 (iv ++ (tag ++ ct)) ≡ tag ++ ct = drop-append 12 iv (tag ++ ct) iv_size in
    let last : drop 28 (iv ++ (tag ++ ct)) ≡ ct =
      rw (← append_assoc iv tag ct)
        (drop-append 28 (iv ++ tag) ct (omega (arith, length-append iv tag, iv_size, tag_size))) in
    rw (long, first, rest, take-append 16 tag ct tag_size, last, opened) refl
