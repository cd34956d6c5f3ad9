-- ===== src/Writing/Keys.antt =====
-- The keys that `list_references` of backend/writing/references.py gives to the papers of a
-- project.
use ai_powered_research_work.Prelude.{
  subst, ℕ, zero, suc, ◌+◌, ◌≤◌, ◌<◌, ◌≡◌, refl, ap, sym, inl, inr, Bool, true, false, not, ◌||◌,
  Option, none, some, List, [], ◌∷◌, ◌++◌, map, arith, Text, codes, leb, text_eq, length, All,
  All-map, All-append, keep-All, any, Bool-cases, Option-cases,
}
use ai_powered_research_work.Prelude.Decimal.{decimal-All, is_digit}
use ai_powered_research_work.Prelude.Fresh.{
  mem_text, Distinct, append-cancel, longer, text_eq_sym, first_free-total, first_free-within,
}
use ai_powered_research_work.Provenance.Normalize.{is_space}
use ai_powered_research_work.Papers.CanonicalId.{lower_char}
use ai_powered_research_work.Writing.Models.{Paper, Reference}
use ai_powered_research_work.Writing.References.{
  is_letter, is_lower_letter, last_word_from, surname, surname_of, title_word_from, year_text,
  cite_key_base, key_candidate, reference_of, key_of, references_from, list_references,
}

-- A small letter or a digit.
abbrev pub is_plain : ℕ → Bool
is_plain c = is_lower_letter c || is_digit c

abbrev pub IsPlain : Text → Type 0
IsPlain t = All (λ c. is_plain c ≡ true) t

lower_char-letter : (c : ℕ) → is_letter c ≡ true → is_plain (lower_char c) ≡ true
unfolding lower_char
lower_char-letter c h = ground arith

title_word_from-IsPlain : (word t : Text) → IsPlain word → IsPlain (title_word_from word t)
unfolding title_word_from
title_word_from-IsPlain word [] h = elim (Bool-cases (leb 4 (length word))) [
  | inl e ↦ rw e h
  | inr e ↦ rw e (refl, (refl, (refl, (refl, (refl, tt)))))
]
title_word_from-IsPlain word (c ∷ t) h = elim (Bool-cases (is_letter c)) [
  | inl e ↦ rw e (
      title_word_from-IsPlain (word ++ lower_char c ∷ []) t
        (All-append _ word _ h (lower_char-letter c e, tt)))
  | inr e ↦ elim (Bool-cases (leb 4 (length word))) [
    | inl f ↦ rw (e, f) h
    | inr f ↦ rw (e, f) (title_word_from-IsPlain [] t tt)
  ]
]

surname_of-IsPlain : (lower : Text → Text) (word : Text) → IsPlain (surname_of lower word)
surname_of-IsPlain lower word =
    All-map _ (λ c h. ground (arith, h)) (keep-All is_lower_letter (lower word))

year_text-IsPlain : (year : Option ℕ) → IsPlain (year_text year)
unfolding year_text
year_text-IsPlain none = tt
year_text-IsPlain (some zero) = tt
year_text-IsPlain (some (suc y)) = All-map _ (λ c h. ground (arith, h)) (decimal-All (suc y))

-- The first author, when there is one, has a word.
abbrev pub IsNamed : List Text → Type 0
IsNamed [] = Unit
IsNamed (author ∷ authors) = any (λ c. not (is_space c)) author ≡ true

abbrev Found : Option Text → Type 0
Found o = (t : Text) × (o ≡ some t)

last_word_from-some : (w word t : Text) → Found (last_word_from (some w) word t)
unfolding last_word_from
last_word_from-some w [] [] = (w, refl)
last_word_from-some w (x ∷ word) [] = (x ∷ word, refl)
last_word_from-some w [] (c ∷ t) = elim (Bool-cases (is_space c)) [
  | inl e ↦ rw e (last_word_from-some w [] t)
  | inr e ↦ rw e (last_word_from-some w (c ∷ []) t)
]
last_word_from-some w (x ∷ word) (c ∷ t) = elim (Bool-cases (is_space c)) [
  | inl e ↦ rw e (last_word_from-some (x ∷ word) [] t)
  | inr e ↦ rw e (last_word_from-some w ((x ∷ word) ++ c ∷ []) t)
]

last_word_from-reads : (x : ℕ) (word t : Text) → Found (last_word_from none (x ∷ word) t)
unfolding last_word_from
last_word_from-reads x word [] = (x ∷ word, refl)
last_word_from-reads x word (c ∷ t) = elim (Bool-cases (is_space c)) [
  | inl e ↦ rw e (last_word_from-some (x ∷ word) [] t)
  | inr e ↦ rw e (last_word_from-reads x (word ++ c ∷ []) t)
]

last_word_from-finds :
    (t : Text) → any (λ c. not (is_space c)) t ≡ true → Found (last_word_from none [] t)
unfolding last_word_from
last_word_from-finds [] h = absurd (ground arith)
last_word_from-finds (c ∷ t) h = elim (Bool-cases (is_space c)) [
  | inl e ↦ rw e (last_word_from-finds t (rw e at h))
  | inr e ↦ rw e (last_word_from-reads c [] t)
]

surname-finds :
    (lower : Text → Text) (authors : List Text) → IsNamed authors → Found (surname lower authors)
unfolding surname
surname-finds lower [] h = (codes "anon", refl)
surname-finds lower (author ∷ authors) h =
    let (word, e) = last_word_from-finds author h in (surname_of lower word, rw (surname, e) refl)

surname-IsPlain :
    (lower : Text → Text) (authors : List Text) {t : Text}
    → surname lower authors ≡ some t
    → IsPlain t
unfolding surname
surname-IsPlain lower [] {t} h =
    subst IsPlain (let e : codes "anon" ≡ t = ground arith in e) (refl, (refl, (refl, (refl, tt))))
surname-IsPlain lower (author ∷ authors) {t} h =
    elim (Option-cases (last_word_from none [] author)) [
      | inl e ↦ absurd (ground arith)
      | inr (word, e) ↦
          subst IsPlain (let e : surname_of lower word ≡ t = ground arith in e)
            (surname_of-IsPlain lower word)
    ]

cite_key_base-lem :
    (lower : Text → Text) (title : Text) (authors : List Text) (year : Option ℕ)
    → IsNamed authors
    → (base : Text) × (cite_key_base lower title authors year ≡ some base) × IsPlain base
unfolding cite_key_base
cite_key_base-lem lower title authors year h =
    let (name, e) = surname-finds lower authors h in
    (
      name ++ year_text year ++ title_word_from [] title,
      rw e refl,
      All-append _ (name ++ year_text year) _
          (All-append _ name _ (surname-IsPlain lower authors e) (year_text-IsPlain year))
          (title_word_from-IsPlain [] title tt),
    )

key_candidate-injective :
    (base : Text) (i j : ℕ) → key_candidate base i ≡ key_candidate base j → i ≡ j
unfolding key_candidate
key_candidate-injective base zero zero h = refl
key_candidate-injective base zero (suc j) h = absurd (longer base [] (97 + j) h)
key_candidate-injective base (suc i) zero h = absurd (longer base [] (97 + i) (sym h))
key_candidate-injective base (suc i) (suc j) h =
    let e : (97 + i) ∷ [] ≡ (97 + j) ∷ [] = append-cancel base _ _ h in grind arith

key_candidate-IsPlain :
    (base : Text) (j : ℕ) → IsPlain base → j < 27 → IsPlain (key_candidate base j)
unfolding key_candidate
key_candidate-IsPlain base zero h small = h
key_candidate-IsPlain base (suc j) h small = All-append _ base _ h (ground arith, tt)

-- What the loop of `list_references` gives to one paper.
key_of-lem :
    (lower : Text → Text) (paper : Paper) (used : List Text)
    → IsNamed paper.authors
    → (key : Text) × (key_of lower paper used ≡ some key)
      × (mem_text key used ≡ false)
      × (length used < 27 → IsPlain key)
key_of-lem lower paper used h =
    let (base, is_base, plain) = cite_key_base-lem lower paper.title paper.authors paper.year h in
    let (j, e, free) =
      first_free-total (key_candidate base) (key_candidate-injective base) used (suc (length used))
        0 (omega arith) in
    (
      key_candidate base j,
      rw (is_base, e) refl,
      free,
      λ few.
          let (i, low, same_key) =
            first_free-within (suc (length used)) (key_candidate base) used 0 e in
          rw same_key (key_candidate-IsPlain base i plain (omega arith)),
    )

abbrev pub keys_of : List Reference → List Text
keys_of refs = map Reference.cite_key refs

mem_text-sym :
    (key : Text) (keys : List Text) (used : List Text)
    → All (λ k. mem_text k (key ∷ used) ≡ false) keys
    → mem_text key keys ≡ false
mem_text-sym key [] used h = refl
mem_text-sym key (k ∷ keys) used h =
    let here : text_eq key k ≡ false = text_eq_sym k key (let e = h.0 in ground arith) in
    rw here (mem_text-sym key keys used h.1)

-- What the keys of `list_references` are like when `used` were given before them.
record AreKeys (papers : List Paper) (used : List Text) (refs : List Reference) : Type 0 where
  ids : map Reference.paper_id refs ≡ map Paper.id papers
  fresh : All (λ key. mem_text key used ≡ false) (keys_of refs)
  distinct : Distinct (keys_of refs)
  plain : length used + length papers ≤ 27 → All IsPlain (keys_of refs)

references_from-AreKeys :
    (lower : Text → Text) (papers : List Paper) (used : List Text)
    → All (λ paper. IsNamed (Paper.authors paper)) papers
    → (refs : List Reference) × (references_from lower papers used ≡ some refs)
      × AreKeys papers used refs
unfolding references_from
references_from-AreKeys lower [] used h =
    ([], refl, record { ids = refl; fresh = tt; distinct = tt; plain = λ few. tt })
references_from-AreKeys lower (paper ∷ papers) used h =
    let (key, is_key, free, plain) = key_of-lem lower paper used h.0 in
    let (refs, e, keys) = references_from-AreKeys lower papers (key ∷ used) h.1 in
    (
      reference_of paper key ∷ refs,
      rw (is_key, e) refl,
      record {
        ids = ap (λ ids. paper.id ∷ ids) keys.ids;
        fresh = (free, All-map _ (λ k other. ground arith) keys.fresh);
        distinct = (mem_text-sym key (keys_of refs) used keys.fresh, keys.distinct);
        plain = λ few. (plain (omega arith), keys.plain (omega arith));
      },
    )

-- When the first author of every paper, where there is one, has a word: `list_references` returns
-- one reference for each paper, in their order, no two with the same key; and when there are at
-- most 27 papers, every key is made of small letters and digits.
pub list_references_lem :
    (lower : Text → Text) (papers : List Paper)
    → All (λ paper. IsNamed (Paper.authors paper)) papers
    → (refs : List Reference) × (list_references lower papers ≡ some refs)
      × (map Reference.paper_id refs ≡ map Paper.id papers)
      × Distinct (keys_of refs)
      × (length papers ≤ 27 → All IsPlain (keys_of refs))
list_references_lem lower papers h =
    let (refs, e, keys) = references_from-AreKeys lower papers [] h in
    (refs, e, keys.ids, keys.distinct, λ few. keys.plain (omega arith))
