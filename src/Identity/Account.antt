-- ===== src/Identity/Account.antt =====
-- apps/identity-service/src/sentinel_identity/account.py. `print` is Python's `str` of a UUID.
use sentinel_keyvault.Common.{
  ℕ, ◌≡◌, sym, ap, ◌∙◌, Bool, true, inl, inr, Option, none, some, [], ◌∷◌, ◌++◌, arith, Text, codes,
  ◌==◌, ==→eq, Bool-cases, if◌then◌else◌,
}

-- The UUID 9188040d-6c67-4c5b-b112-36a304b66dad.
abbrev pub consumer_tenant_id : ℕ
consumer_tenant_id = 193444293954727326432041559542457593261

abbrev pub is_personal_account : ℕ → Bool
is_personal_account entra_tenant_id = entra_tenant_id == consumer_tenant_id

module _ (print : ℕ → Text) where
  unfoldable pub identity_scope_key : ℕ → ℕ → Text
  identity_scope_key entra_tenant_id entra_object_id =
      if is_personal_account entra_tenant_id
      then codes "personal:" ++ (print entra_tenant_id ++ (codes ":" ++ print entra_object_id))
      else codes "tenant:" ++ print entra_tenant_id

  -- `requested_tenant or str(entra_tenant_id)`
  pub refresh_authority : ℕ → Option Text → Text
  refresh_authority entra_tenant_id requested_tenant =
      if is_personal_account entra_tenant_id then codes "common" else elim requested_tenant [
        | none ↦ print entra_tenant_id
        | some [] ↦ print entra_tenant_id
        | some (c ∷ cs) ↦ c ∷ cs
      ]

abbrev first_char : Text → ℕ
first_char [] = 0
first_char (c ∷ s) = c

apart : {s t : Text} → ¬ codes "tenant:" ++ s ≡ codes "personal:" ++ t
apart e = let h : b't' ≡ b'p' = ap first_char e in absurd (omega (arith, h))

append_cancel : (p s t : Text) → p ++ s ≡ p ++ t → s ≡ t
append_cancel [] s t e = e
append_cancel (c ∷ p) s t e = append_cancel p s t (cc)

-- Where UUIDs are printed differently, accounts with the same scope key are of the same Entra
-- tenant, and if they are personal they are the same account: no two personal accounts share a
-- tenant of Sentinel, and none shares one with an organization.
pub identity_scope_key_lem :
    (print : ℕ → Text)
    → ((a b : ℕ) → print a ≡ print b → a ≡ b)
    → (tenant object tenant' object' : ℕ)
    → identity_scope_key print tenant object ≡ identity_scope_key print tenant' object'
    → (tenant ≡ tenant') × (is_personal_account tenant ≡ true → object ≡ object')
unfolding identity_scope_key
identity_scope_key_lem print inj tenant object tenant' object' e =
    elim (Bool-cases (is_personal_account tenant)) [
      | inl p ↦ elim (Bool-cases (is_personal_account tenant')) [
        | inl p' ↦
            let same : tenant ≡ tenant' =
              ==→eq tenant consumer_tenant_id p ∙ sym (==→eq tenant' consumer_tenant_id p') in
            let keys : codes "personal:" ++ (print tenant ++ (codes ":" ++ print object))
                ≡ codes "personal:" ++ (print tenant' ++ (codes ":" ++ print object')) =
              rw (p, p') at e in
            let whole =
              append_cancel (codes "personal:") (print tenant ++ (codes ":" ++ print object))
                (print tenant' ++ (codes ":" ++ print object')) keys in
            let aligned : print tenant ++ (codes ":" ++ print object)
                ≡ print tenant ++ (codes ":" ++ print object') =
              whole ∙ ap (λ n. print n ++ (codes ":" ++ print object')) (sym same) in
            let objects = append_cancel (codes ":") (print object) (print object') (
              append_cancel (print tenant) (codes ":" ++ print object) (codes ":" ++ print object')
                aligned) in
            (same, λ q. inj object object' objects)
        | inr p' ↦
            let keys : codes "personal:" ++ (print tenant ++ (codes ":" ++ print object))
                ≡ codes "tenant:" ++ print tenant' =
              rw (p, p') at e in
            absurd (apart (sym keys))
      ]
      | inr p ↦ elim (Bool-cases (is_personal_account tenant')) [
        | inl p' ↦
            let keys : codes "tenant:" ++ print tenant
                ≡ codes "personal:" ++ (print tenant' ++ (codes ":" ++ print object')) =
              rw (p, p') at e in
            absurd (apart keys)
        | inr p' ↦
            let keys : codes "tenant:" ++ print tenant ≡ codes "tenant:" ++ print tenant' =
              rw (p, p') at e in
            (
              inj tenant tenant'
                  (append_cancel (codes "tenant:") (print tenant) (print tenant') keys),
              λ q. absurd (cc (p, q)),
            )
      ]
    ]
