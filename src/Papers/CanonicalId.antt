-- ===== src/Papers/CanonicalId.antt =====
-- `SourceIds` of backend/papers/models.py, and `resolve_canonical_id` with its normalisers of
-- backend/papers/__init__.py. Case is folded for ASCII letters; `none` is the `ValueError`.
use ai_powered_research_work.Prelude.{
  ℕ, ◌+◌, ◌≡◌, refl, Bool, true, false, ◌&&◌, ◌||◌, not, Option, none, some, [], ◌∷◌, ◌++◌, map,
  reverse, Text, codes, text_eq, leb, ◌==◌, if◌then◌else◌,
}
use ai_powered_research_work.Provenance.Normalize.{is_space}

pub record SourceIds : Type 0 where
  pub doi : Option Text
  pub arxiv_id : Option Text
  pub openalex_id : Option Text
  pub s2_id : Option Text

unfoldable pub lower_char : ℕ → ℕ
lower_char c = if leb 65 c && leb c 90 then c + 32 else c

unfoldable pub lower : Text → Text
unfolding lower_char
lower t = map lower_char t

unfoldable pub strip_left : Text → Text
strip_left [] = []
strip_left (c ∷ t) = if is_space c then strip_left t else c ∷ t

-- `str.strip`
unfoldable pub strip : Text → Text
unfolding strip_left
strip t = reverse (strip_left (reverse (strip_left t)))

-- The text behind a literal that is matched without regard to case.
unfoldable pub after_literal : Text → Text → Option Text
unfolding lower_char
after_literal [] t = some t
after_literal (l ∷ literal) [] = none
after_literal (l ∷ literal) (c ∷ t) = if lower_char c == l then after_literal literal t else none

abbrev first_match : Option Text → Option Text → Option Text
first_match (some t) other = some t
first_match none other = other

abbrev or_text : Option Text → Text → Text
or_text (some t) d = t
or_text none d = d

abbrev strip_some : Option Text → Option Text
strip_some none = none
strip_some (some t) = some (strip_left t)

unfoldable pub normalise_doi : Text → Text
unfolding lower strip after_literal
normalise_doi doi =
    let t = strip_left doi in
    let url = first_match (after_literal (codes "http://doi.org/") t) (
      first_match (after_literal (codes "https://doi.org/") t) (
        first_match (after_literal (codes "http://dx.doi.org/") t)
          (after_literal (codes "https://dx.doi.org/") t))) in
    lower (strip (or_text (first_match url (strip_some (after_literal (codes "doi:") t))) doi))

abbrev is_digit : ℕ → Bool
is_digit c = leb 48 c && leb c 57

-- `v\d+$` on the reversed text: the digits, at least one, and the letter before them.
unfoldable pub drop_version : Bool → Text → Option Text
drop_version seen [] = none
drop_version seen (c ∷ t) =
    if is_digit c
    then drop_version true t
    else if seen && (c == 118 || c == 86)
    then some t
    else none

unfoldable pub normalise_arxiv_id : Text → Text
unfolding strip after_literal drop_version
normalise_arxiv_id arxiv_id =
    let t =
      strip
        (or_text (strip_some (after_literal (codes "arxiv:") (strip_left arxiv_id))) arxiv_id) in
    or_text (elim (drop_version false (reverse t)) [ none ↦ none | some r ↦ some (reverse r) ]) t

unfoldable pub normalise_openalex_id : Text → Text
unfolding strip after_literal
normalise_openalex_id openalex_id =
    let t = strip_left openalex_id in
    strip (
      or_text
        (first_match (after_literal (codes "https://openalex.org/") t)
          (after_literal (codes "http://openalex.org/") t))
        openalex_id)

unfoldable pub normalise_s2_id : Text → Text
unfolding strip after_literal
normalise_s2_id s2_id =
    strip (or_text (strip_some (after_literal (codes "corpusid:") (strip_left s2_id))) s2_id)

-- `if value:` of an optional string.
abbrev truthy : Option Text → Bool
truthy none = false
truthy (some t) = not (text_eq t [])

unfoldable pub resolve_canonical_id : SourceIds → Option Text
unfolding normalise_doi normalise_arxiv_id normalise_openalex_id normalise_s2_id
resolve_canonical_id ids =
    if truthy ids.doi
    then some (codes "doi:" ++ normalise_doi (or_text ids.doi []))
    else if truthy ids.arxiv_id
    then some (codes "arxiv:" ++ normalise_arxiv_id (or_text ids.arxiv_id []))
    else if truthy ids.openalex_id
    then some (codes "openalex:" ++ normalise_openalex_id (or_text ids.openalex_id []))
    else if truthy ids.s2_id
    then some (codes "s2:" ++ normalise_s2_id (or_text ids.s2_id []))
    else none

abbrev only_doi : Text → SourceIds
only_doi t = record { doi = some t; arxiv_id = none; openalex_id = none; s2_id = none }

abbrev only_arxiv : Text → SourceIds
only_arxiv t = record { doi = none; arxiv_id = some t; openalex_id = none; s2_id = none }

doi_test :
    resolve_canonical_id (only_doi (codes " https://doi.org/10.1/AbC "))
    ≡ some (codes "doi:10.1/abc")
unfolding resolve_canonical_id is_space
doi_test = refl

arxiv_test :
    resolve_canonical_id (only_arxiv (codes "arXiv:2401.00001v12"))
    ≡ some (codes "arxiv:2401.00001")
unfolding resolve_canonical_id is_space
arxiv_test = refl
