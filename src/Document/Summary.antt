-- ===== src/Document/Summary.antt =====
-- What the summaries of a document and of its hits say (dlpduck/types.py).
use mathlib.Core.Path.{subst}
use dlpduck.Prelude.{
  ◌≤◌, ◌≡◌, refl, sym, ◌∙◌, ◌↔◌, ◌⊎◌, inl, inr, false, none, some, List, [], ◌∷◌, arith, ltb,
  if◌then◌else◌, All,
}
use dlpduck.Document.{Severity, rank, DlpHit, max_severity, highest_severity, flagged}

-- Some hit of the list has this severity.
abbrev pub HasSeverity : Severity → List DlpHit → Type 0
HasSeverity s [] = ⊥
HasSeverity s (h ∷ rest) = (h.severity ≡ s) ⊎ HasSeverity s rest

max_severity_greatest :
    (best : Severity) (hits : List DlpHit)
    → (rank best ≤ rank (max_severity best hits))
      × All (λ h. rank h.severity ≤ rank (max_severity best hits)) hits
unfolding max_severity
max_severity_greatest best [] = (omega arith, tt)
max_severity_greatest best (h ∷ rest) =
    let b : Severity = if ltb (rank best) (rank h.severity) then h.severity else best in
    let (above, all) = max_severity_greatest b rest in
    let c : (rank best ≤ rank b) × (rank h.severity ≤ rank b) = ground arith in
    (omega (arith, above, c), (omega (arith, above, c), all))

max_severity_attained :
    (best : Severity) (hits : List DlpHit)
    → (max_severity best hits ≡ best) ⊎ HasSeverity (max_severity best hits) hits
unfolding max_severity
max_severity_attained best [] = inl refl
max_severity_attained best (h ∷ rest) =
    let b : Severity = if ltb (rank best) (rank h.severity) then h.severity else best in
    let c : (b ≡ best) ⊎ (b ≡ h.severity) = ground arith in
    elim (max_severity_attained b rest) [
      | inl p ↦ elim c [ inl q ↦ inl (p ∙ q) | inr q ↦ inr (inl (sym (p ∙ q))) ]
      | inr r ↦ inr (inr r)
    ]

-- The highest severity of a job's hits is the severity of one of them and no hit outranks it; and
-- there is none exactly when the job is not flagged, which is when it has no hits.
pub highest_severity_lem :
    (hits : List DlpHit)
    → ((s : Severity)
        → highest_severity hits ≡ some s
        → HasSeverity s hits × All (λ h. rank h.severity ≤ rank s) hits)
      × ((highest_severity hits ≡ none) ↔ (flagged hits ≡ false))
unfolding highest_severity flagged
highest_severity_lem [] = (λ s h. cc, (λ h. refl, λ h. refl))
highest_severity_lem (h ∷ rest) = (
  λ s e.
      let p : max_severity h.severity rest ≡ s = cc in
      subst (λ t. HasSeverity t (h ∷ rest) × All (λ x. rank x.severity ≤ rank t) (h ∷ rest)) p
        ((
          elim (max_severity_attained h.severity rest) [ inl q ↦ inl (sym q) | inr q ↦ inr q ],
          max_severity_greatest h.severity rest,
        )),
  (λ e. cc, λ e. cc),
)
