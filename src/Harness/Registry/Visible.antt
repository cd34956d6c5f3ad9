-- ===== src/Harness/Registry/Visible.antt =====
-- Which tools of backend/harness/registry.py an iteration shows to the model.
use ai_powered_research_work.Prelude.{
  ℕ, ◌+◌, ◌≡◌, ◌≤◌, refl, sym, ap, ◌∙◌, inl, inr, Bool, true, false, not, Option, none, some, List,
  [], ◌∷◌, ◌++◌, map, arith, Text, text_eq, text_eq_sound, keep, if◌then◌else◌, Bool-cases,
  is_empty,
}
use ai_powered_research_work.Prelude.Dict.{get, put}
use ai_powered_research_work.Prelude.Fresh.{mem_text, text_eq_sym}
use ai_powered_research_work.Search.Dedupe.{occurrences}
use ai_powered_research_work.Harness.Registry.{
  ToolSpec, Schema, Registry, schema, tool, is_taken, register_dynamic, all_specs, core_schemas,
  schemas_for, names_of, with_skill, schemas_for_turn,
}

-- The registrations of a process: by the decorator, and of a tool of an MCP server.
pub data Registration : Type 0 where
  declared dynamic : (spec : ToolSpec) → Registration

abbrev or_same : Registry → Option Registry → Registry
or_same registry none = registry
or_same registry (some changed) = changed

abbrev pub registered : List Registration → Registry → Registry
registered [] registry = registry
registered (declared spec ∷ rest) registry = registered rest (or_same registry (tool spec registry))
registered (dynamic spec ∷ rest) registry = registered rest (register_dynamic spec registry)

-- Each tool stands under its own name, and no name stands twice.
abbrev IsKeyed : Registry → Type 0
IsKeyed [] = Unit
IsKeyed ((k, spec) ∷ rest) = (spec.name ≡ k) × (get k rest ≡ none) × IsKeyed rest

get-put_other :
    (j k : Text) (spec : ToolSpec) (registry : Registry)
    → text_eq j k ≡ false
    → get j (put k spec registry) ≡ get j registry
unfolding get put
get-put_other j k spec [] ne = rw ne refl
get-put_other j k spec ((i, old) ∷ rest) ne = elim (Bool-cases (text_eq k i)) [
  | inl e ↦
      let other : text_eq j i ≡ false = ap (text_eq j) (sym (text_eq_sound k i e)) ∙ ne in
      rw (e, ne, other) refl
  | inr e ↦ rw e (ground (arith, get-put_other j k spec rest ne))
]

put-IsKeyed :
    (spec : ToolSpec) (registry : Registry)
    → IsKeyed registry
    → IsKeyed (put spec.name spec registry)
unfolding put get
put-IsKeyed spec [] h = (refl, refl, tt)
put-IsKeyed spec ((i, old) ∷ rest) h = elim (Bool-cases (text_eq spec.name i)) [
  | inl e ↦ rw e (refl, ap (λ t. get t rest) (text_eq_sound spec.name i e) ∙ h.1, h.2)
  | inr e ↦ rw e (
    h.0,
    get-put_other i spec.name spec rest (text_eq_sym spec.name i e) ∙ h.1,
    put-IsKeyed spec rest h.2,
  )
]

registered-IsKeyed :
    (steps : List Registration) (registry : Registry)
    → IsKeyed registry
    → IsKeyed (registered steps registry)
unfolding tool register_dynamic
registered-IsKeyed [] registry h = h
registered-IsKeyed (dynamic spec ∷ rest) registry h =
    registered-IsKeyed rest (put spec.name spec registry) (put-IsKeyed spec registry h)
registered-IsKeyed (declared spec ∷ rest) registry h =
    elim (Bool-cases (is_empty spec.description)) [
      | inl e ↦ rw e (registered-IsKeyed rest registry h)
      | inr e ↦ elim (Bool-cases (is_taken (get spec.name registry))) [
        | inl t ↦ rw (e, t) (registered-IsKeyed rest registry h)
        | inr t ↦
            rw (e, t)
              (registered-IsKeyed rest (put spec.name spec registry) (put-IsKeyed spec registry h))
      ]
    ]

abbrev pub count_if : Option ToolSpec → (ToolSpec → Bool) → ℕ
count_if none p = 0
count_if (some spec) p = if p spec then 1 else 0

abbrev schemas_that : (ToolSpec → Bool) → Registry → List Schema
schemas_that p registry = map schema (keep p (all_specs registry))

occurrences-schemas :
    (n : Text) (p : ToolSpec → Bool) (registry : Registry)
    → IsKeyed registry
    → occurrences n (names_of (schemas_that p registry)) ≡ count_if (get n registry) p
unfolding get
occurrences-schemas n p [] h = refl
occurrences-schemas n p ((k, spec) ∷ rest) h =
    let later = occurrences-schemas n p rest h.2 in
    elim (Bool-cases (text_eq n k)) [
      | inl e ↦
          let gone : get n rest ≡ none = ap (λ t. get t rest) (text_eq_sound n k e) ∙ h.1 in
          let named : text_eq n spec.name ≡ true = ap (text_eq n) h.0 ∙ e in
          elim (Bool-cases (p spec)) [
            | inl y ↦ rw (e, y, named) (ground (arith, rw gone at later))
            | inr y ↦ rw (e, y) (rw gone at later)
          ]
      | inr e ↦
          let named : text_eq n spec.name ≡ false = ap (text_eq n) h.0 ∙ e in
          elim (Bool-cases (p spec)) [ inl y ↦ rw (e, y, named) later | inr y ↦ rw (e, y) later ]
    ]

occurrences-append :
    (n : Text) (xs ys : List Schema)
    → occurrences n (names_of (xs ++ ys))
      ≡ occurrences n (names_of xs) + occurrences n (names_of ys)
occurrences-append n [] ys = omega arith
occurrences-append n (x ∷ xs) ys = ground (arith, occurrences-append n xs ys)

occurrences-absent :
    (n : Text) (names : List Text) → mem_text n names ≡ false → occurrences n names ≡ 0
occurrences-absent n [] h = refl
occurrences-absent n (m ∷ names) h = ground (arith, occurrences-absent n names)

occurrences-unseen :
    (n : Text) (seen : List Text) (extra : List Schema)
    → occurrences n (names_of (keep (λ s. not (mem_text (Schema.name s) seen)) extra))
      ≡ (if mem_text n seen then 0 else occurrences n (names_of extra))
occurrences-unseen n seen [] = ground arith
occurrences-unseen n seen (s ∷ extra) =
    let later = occurrences-unseen n seen extra in
    elim (Bool-cases (text_eq n s.name)) [
      | inl t ↦
          let same : mem_text n seen ≡ mem_text s.name seen =
            ap (λ m. mem_text m seen) (text_eq_sound n s.name t) in
          elim (Bool-cases (mem_text s.name seen)) [
            | inl e ↦ rw (e, same ∙ e) (rw (same ∙ e) at later)
            | inr e ↦ rw (e, same ∙ e, t) (ground (arith, rw (same ∙ e) at later))
          ]
      | inr t ↦ elim (Bool-cases (mem_text s.name seen)) [
        | inl e ↦ rw (e, t) later
        | inr e ↦ rw (e, t) later
      ]
    ]

-- Whether a turn with a skill's tools shows a tool.
abbrev pub is_visible : Option (List Text) → ToolSpec → Bool
is_visible none spec = spec.core
is_visible (some names) spec = if spec.core then true else mem_text spec.name names

occurrences-present :
    (n : Text) (names : List Text) → mem_text n names ≡ true → 1 ≤ occurrences n names
occurrences-present n [] h = ground arith
occurrences-present n (m ∷ names) h = ground (arith, occurrences-present n names)

shown_once :
    (found : Option ToolSpec) (names : List Text) (c s : ℕ) (seen : Bool)
    → c ≡ count_if found ToolSpec.core
    → s ≡ count_if found (λ spec. mem_text (ToolSpec.name spec) names)
    → (seen ≡ false → c ≡ 0)
    → (seen ≡ true → 1 ≤ c)
    → c + (if seen then 0 else s) ≡ count_if found (is_visible (some names))
shown_once none names c s true core extra absent present = omega (arith, core, present refl)
shown_once none names c s false core extra absent present = omega (arith, core, extra)
shown_once (some spec) names c s true core extra absent present = ground (arith, core, present refl)
shown_once (some spec) names c s false core extra absent present =
    ground (arith, core, extra, absent refl)

nil_visible :
    (found : Option ToolSpec) → count_if found ToolSpec.core ≡ count_if found (is_visible (some []))
nil_visible none = refl
nil_visible (some spec) = ground arith

occurrences-with_skill :
    (n : Text) (names : List Text) (registry : Registry)
    → IsKeyed registry
    → occurrences n (names_of (with_skill (core_schemas registry) (schemas_for names registry)))
      ≡ count_if (get n registry) (is_visible (some names))
unfolding core_schemas schemas_for
occurrences-with_skill n names registry h =
    let cores = core_schemas registry in
    let extra = schemas_for names registry in
    rw
      (
        occurrences-append n cores
            (keep (λ s. not (mem_text (Schema.name s) (names_of cores))) extra),
        occurrences-unseen n (names_of cores) extra,
      )
      (shown_once (get n registry) names (occurrences n (names_of cores))
        (occurrences n (names_of extra)) (mem_text n (names_of cores))
        (occurrences-schemas n ToolSpec.core registry h)
        (occurrences-schemas n (λ spec. mem_text (ToolSpec.name spec) names) registry h)
        (occurrences-absent n (names_of cores)) (occurrences-present n (names_of cores)))

occurrences-schemas_for_turn :
    (n : Text) (tools : Option (List Text)) (registry : Registry)
    → IsKeyed registry
    → occurrences n (names_of (schemas_for_turn tools registry))
      ≡ count_if (get n registry) (is_visible tools)
unfolding schemas_for_turn core_schemas
occurrences-schemas_for_turn n none registry h = occurrences-schemas n ToolSpec.core registry h
occurrences-schemas_for_turn n (some []) registry h =
    occurrences-schemas n ToolSpec.core registry h ∙ nil_visible (get n registry)
occurrences-schemas_for_turn n (some (t ∷ ts)) registry h =
    occurrences-with_skill n (t ∷ ts) registry h

-- After whatever registrations: a tool's schema is sent once when the tool is registered and is a
-- core tool or one of the loaded skill's, and else never.
pub registered-schemas_for_turn :
    (steps : List Registration) (n : Text) (tools : Option (List Text))
    → occurrences n (names_of (schemas_for_turn tools (registered steps [])))
      ≡ count_if (get n (registered steps [])) (is_visible tools)
registered-schemas_for_turn steps n tools =
    occurrences-schemas_for_turn n tools (registered steps []) (registered-IsKeyed steps [] tt)
