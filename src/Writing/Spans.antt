-- ===== src/Writing/Spans.antt =====
-- Where the findings of backend/writing/citation_check.py stand in the document.
use ai_powered_research_work.Prelude.{
  ℕ, zero, suc, ◌+◌, ◌≡◌, refl, inl, inr, true, not, ◌&&◌, Option, some, List, [], ◌∷◌, ◌++◌, map,
  arith, Text, codes, is_empty, starts_with, drop, length, take, subst, All, All-append, All-map,
  keep, keep-All, Bool-cases, Option-cases, ◌==◌,
}
use ai_powered_research_work.Prelude.Fresh.{mem_text}
use ai_powered_research_work.Papers.CanonicalId.{strip}
use ai_powered_research_work.Writing.Models.{CitationFinding}
use ai_powered_research_work.Writing.References.{contains}
use ai_powered_research_work.Writing.Citations.{
  until_brace, cite_open, cite_at, cite_groups, split_commas, cite_span, group_findings,
  groups_findings, find_missing_citations, unsupported_finding, find_unsupported_claims,
  check_citations, occurs, strip_latex,
}

-- The span stands in the text.
abbrev pub StandsIn : Text → CitationFinding → Type 0
StandsIn tex f = contains f.span tex ≡ true

until_brace-starts :
    (t : Text) {group : Text}
    → until_brace t ≡ some group
    → starts_with (group ++ codes "}") t ≡ true
unfolding until_brace
until_brace-starts [] h = absurd (ground arith)
until_brace-starts (c ∷ t) {group} h = elim (Bool-cases (c == 125)) [
  | inl e ↦
      let none_left : [] ≡ group = ground arith in
      subst (λ g. starts_with (g ++ codes "}") (c ∷ t) ≡ true) none_left (ground arith)
  | inr e ↦ elim (Option-cases (until_brace t)) [
    | inl f ↦ absurd (ground arith)
    | inr (g, f) ↦
        let whole : c ∷ g ≡ group = ground arith in
        subst (λ g. starts_with (g ++ codes "}") (c ∷ t) ≡ true) whole
          (ground (arith, until_brace-starts t f))
  ]
]

starts_with-after :
    (s r t : Text)
    → starts_with s t ≡ true
    → starts_with r (drop (length s) t) ≡ true
    → starts_with (s ++ r) t ≡ true
starts_with-after [] r t h k = k
starts_with-after (c ∷ s) r [] h k = absurd (ground arith)
starts_with-after (c ∷ s) r (d ∷ t) h k = ground (arith, starts_with-after s r t (ground arith) k)

contains-starts : (needle t : Text) → starts_with needle t ≡ true → contains needle t ≡ true
unfolding contains
contains-starts needle [] h = h
contains-starts needle (c ∷ t) h = rw h refl

cite_at-contains :
    (t : Text) {group : Text} → cite_at t ≡ some group → contains (cite_span group) t ≡ true
unfolding cite_at
cite_at-contains t {group} h = elim (Bool-cases (starts_with cite_open t)) [
  | inr e ↦ absurd (ground arith)
  | inl e ↦ contains-starts (cite_span group) t (
      starts_with-after cite_open (group ++ codes "}") t e
        (until_brace-starts (drop 6 t) (rw e at h)))
]

contains-later :
    (c : ℕ) (t needle : Text) → contains needle t ≡ true → contains needle (c ∷ t) ≡ true
unfolding contains
contains-later c t needle h = ground (arith, h)

abbrev AllStand : Text → List Text → Type 0
AllStand t groups = All (λ group. contains (cite_span group) t ≡ true) groups

cite_groups-AllStand : (n : ℕ) (t : Text) → AllStand t (cite_groups n t)
unfolding cite_groups
cite_groups-AllStand n [] = tt
cite_groups-AllStand (suc n) (c ∷ t) =
    All-map (cite_groups n t) (λ group h. contains-later c t (cite_span group) h)
      (cite_groups-AllStand n t)
cite_groups-AllStand zero (c ∷ t) = elim (Option-cases (cite_at (c ∷ t))) [
  | inl e ↦
      rw (cite_groups, e)
        (All-map (cite_groups 0 t) (λ group h. contains-later c t (cite_span group) h)
          (cite_groups-AllStand 0 t))
  | inr (group, e) ↦
      rw (cite_groups, e)
        (
          cite_at-contains (c ∷ t) e,
          All-map (cite_groups (length group + 6) t) (λ g h. contains-later c t (cite_span g) h)
              (cite_groups-AllStand (length group + 6) t),
        )
]

group_findings-stand :
    (tex group : Text) (parts known : List Text)
    → contains (cite_span group) tex ≡ true
    → All (StandsIn tex) (group_findings group parts known)
unfolding group_findings
group_findings-stand tex group [] known h = tt
group_findings-stand tex group (part ∷ parts) known h =
    elim (Bool-cases (not (is_empty (strip part)) && not (mem_text (strip part) known))) [
      | inl e ↦ rw e (h, group_findings-stand tex group parts known h)
      | inr e ↦ rw e (group_findings-stand tex group parts known h)
    ]

groups_findings-stand :
    (tex : Text) (groups known : List Text)
    → AllStand tex groups
    → All (StandsIn tex) (groups_findings groups known)
unfolding groups_findings
groups_findings-stand tex [] known h = tt
groups_findings-stand tex (group ∷ groups) known h =
    All-append _ (group_findings group (split_commas group) known) _
      (group_findings-stand tex group (split_commas group) known h.0)
      (groups_findings-stand tex groups known h.1)

kept-stand :
    (tex : Text) (sentences : List Text)
    → All (λ s. occurs tex s ≡ true) sentences
    → All (StandsIn tex) (map unsupported_finding sentences)
kept-stand tex [] h = tt
kept-stand tex (s ∷ sentences) h = (ground (arith, h.0), kept-stand tex sentences h.1)

find_unsupported_claims-stand :
    (complete : Text → Option (List Text)) (tex : Text)
    → All (StandsIn tex) (find_unsupported_claims complete tex)
unfolding find_unsupported_claims
find_unsupported_claims-stand complete tex =
    let plain = take 20000 (strip_latex tex) in
    elim (Bool-cases (is_empty (strip plain))) [
      | inl e ↦ rw e tt
      | inr e ↦ rw e (elim (Option-cases (complete plain)) [
        | inl none_back ↦ rw none_back tt
        | inr (sentences, back) ↦
            rw back (kept-stand tex (keep (occurs tex) sentences) (keep-All (occurs tex) sentences))
      ])
    ]

-- Whatever the model replies, every finding of the check, missing or unsupported, has a span that
-- stands word for word in the document.
pub check_citations-StandsIn :
    (complete : Text → Option (List Text)) (tex : Text) (known : List Text)
    → All (StandsIn tex) (check_citations complete tex known)
unfolding check_citations find_missing_citations
check_citations-StandsIn complete tex known =
    All-append _ (find_missing_citations tex known) _
      (groups_findings-stand tex (cite_groups 0 tex) known (cite_groups-AllStand 0 tex))
      (find_unsupported_claims-stand complete tex)
