-- ===== src/Envelope/Masks.antt =====
-- The columns of an encrypted field, as HR and customers keep them: the envelope, and its last four
-- characters for display.
use arka_erp.Base.{◌≡◌, refl, ◌⊎◌, inl, inr, Option, none, some, [], ◌∷◌, length, coalesce}
use arka_erp.Base.Texts.{Text}
use arka_erp.Base.Effect.{ok}
use arka_erp.Envelope.{Cipher, encrypt, decrypt, last4, decrypt-encrypt}

-- What the service passes of a field: nothing of one that the request leaves out.
abbrev pub sealed : Cipher → Text → Option Text → Option Text
sealed cipher iv none = none
sealed cipher iv (some s) = encrypt cipher iv (some s)

abbrev pub masked : Option Text → Option Text
masked none = none
masked (some s) = last4 (some s)

-- Either there is no value, or the mask shows the end of what the envelope opens to.
abbrev pub Shows : Cipher → Option Text → Option Text → Type 0
Shows cipher enc mask =
    ((enc ≡ none) × (mask ≡ none))
    ⊎ ((s : Text) × (decrypt cipher enc ≡ ok (some s)) × (mask ≡ last4 (some s)))

-- The cipher opens what it sealed, with a tag of 16 bytes.
abbrev pub IsAuthentic : Cipher → Type 0
IsAuthentic cipher =
    (iv s : Text)
    → (length (cipher.seal iv s).0 ≡ 16)
      × (cipher.unseal iv (cipher.seal iv s).0 (cipher.seal iv s).1 ≡ some s)

module _ (cipher : Cipher) (good : IsAuthentic cipher) (iv : Text) (size : length iv ≡ 12) where
  pub encrypt-Shows : (field : Option Text) → Shows cipher (encrypt cipher iv field) (last4 field)
  unfolding encrypt last4
  encrypt-Shows none = inl (refl, refl)
  encrypt-Shows (some []) = inl (refl, refl)
  encrypt-Shows (some (c ∷ s)) =
      inr (c ∷ s, decrypt-encrypt cipher iv c s size (good iv (c ∷ s)).0 (good iv (c ∷ s)).1, refl)

  -- An update replaces both columns or neither.
  pub update-Shows :
      (field enc mask : Option Text)
      → Shows cipher enc mask
      → Shows cipher (coalesce (sealed cipher iv field) enc) (coalesce (masked field) mask)
  unfolding encrypt last4
  update-Shows none enc mask h = h
  update-Shows (some []) enc mask h = h
  update-Shows (some (c ∷ s)) enc mask h = encrypt-Shows (some (c ∷ s))
