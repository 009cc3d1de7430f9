-- ===== src/Intelligence/Lookup.antt =====
-- What `get_assessment` answers after `create_assessment`.
use sentinel_keyvault.Common.{
  ℕ, ◌≡◌, ◌<◌, refl, true, false, ◌&&◌, none, some, List, [], ◌∷◌, arith, Text, ◌==◌, ==-refl, find,
  find-append_one, find-append_other, All,
}
use sentinel_keyvault.Intelligence.{
  Canonical, ChangeAssessment, AssessmentCreate, Tables, new_assessment, create_assessment,
  is_assessment, get_assessment,
}

not_stored :
    (tenant_id id : ℕ) (rows : List ChangeAssessment)
    → All (λ a. a.id < id) rows
    → find (is_assessment tenant_id id) rows ≡ none
not_stored tenant_id id [] h = refl
not_stored tenant_id id (a ∷ rows) h = rw (differs h.0) (not_stored tenant_id id rows h.1)
  where
    differs : a.id < id → is_assessment tenant_id id a ≡ false
    differs lt = ground arith

hit : (a : ChangeAssessment) → is_assessment a.tenant_id a.id a ≡ true
hit a = ground (arith, ==-refl a.tenant_id, ==-refl a.id)

-- Where keys are given out in order, an assessment that was created is found by its tenant and its
-- key; a query by any other tenant or key, that of another tenant for the same key included, finds
-- what it found before.
pub create_assessment_lookup :
    (sha256 : Canonical → Text) (print : ℕ → Text) (event_id now : ℕ) (q : AssessmentCreate)
    (t : Tables)
    → All (λ a. a.id < t.next_id) t.assessments
    → (get_assessment q.tenant_id t.next_id (create_assessment sha256 print event_id now q t).1
        ≡ some (create_assessment sha256 print event_id now q t).0)
      × ((tenant_id id : ℕ)
          → (q.tenant_id == tenant_id && t.next_id == id) ≡ false
          → get_assessment tenant_id id (create_assessment sha256 print event_id now q t).1
            ≡ get_assessment tenant_id id t)
unfolding create_assessment get_assessment
create_assessment_lookup sha256 print event_id now q t old =
    let a = new_assessment sha256 print t.next_id q in
    (
      find-append_one (is_assessment q.tenant_id t.next_id) t.assessments a
          (not_stored q.tenant_id t.next_id t.assessments old) (hit a),
      λ tenant_id id other. find-append_other (is_assessment tenant_id id) t.assessments a other,
    )
