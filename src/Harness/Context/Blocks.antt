-- ===== src/Harness/Context/Blocks.antt =====
-- `format_open_papers`, `format_ui_state`, `format_working_set`, `ContextBlock` and `build_blocks`.
-- `show_id` prints a UUID; the two long fixed texts, the system prompt and the note under the open
-- papers, are arguments.
use ai_powered_research_work.Prelude.{
  ℕ, ◌+◌, Bool, true, false, ◌&&◌, Option, none, some, List, [], ◌∷◌, ◌++◌, map, Text, codes,
  text_eq, length, any, ltb, if◌then◌else◌,
}
use ai_powered_research_work.Prelude.Decimal.{decimal}
use ai_powered_research_work.Harness.Models.{
  Role, system, user, Message, RefKind, paper, note, experiment, search_result, Ref, SelectionState,
  UiState, SkillSpec,
}

pub record ContextBlock : Type 0 where
  pub name : Text
  pub band : ℕ
  pub message : Message

abbrev pub plain_message : Role → Text → Message
plain_message role content = record {
  role = role;
  content = content;
  tool_calls = [];
  tool_call_id = none;
}

abbrev pub block : Text → ℕ → Message → ContextBlock
block name band message = record { name = name; band = band; message = message }

-- "sep".join(parts)
unfoldable pub join : Text → List Text → Text
join sep [] = []
join sep (t ∷ []) = t
join sep (t ∷ (u ∷ r)) = t ++ (sep ++ join sep (u ∷ r))

abbrev pub newline : Text
newline = 10 ∷ []

abbrev kind_name : RefKind → Text
kind_name paper = codes "paper"
kind_name note = codes "note"
kind_name experiment = codes "experiment"
kind_name search_result = codes "search_result"

abbrev pub kind_eq : RefKind → RefKind → Bool
kind_eq a b = text_eq (kind_name a) (kind_name b)

-- The `seen` set of `format_working_set` holds pairs of a kind and an id.
abbrev pub same_ref : Ref → Ref → Bool
same_ref a b = kind_eq a.kind b.kind && text_eq a.id b.id

abbrev ref_line : Ref → Text
ref_line r =
    codes "- "
    ++ (kind_name r.kind ++ (codes " " ++ (r.id ++ (codes ": \"" ++ (r.title ++ codes "\"")))))

unfoldable pub unseen : List Ref → List Ref → List Ref
unseen seen [] = []
unseen seen (r ∷ rest) =
    let known = any (same_ref r) seen in
    let more = unseen (if known then seen else r ∷ seen) rest in if known then more else r ∷ more

unfoldable pub format_working_set : List Ref → Option Text
unfolding unseen join
format_working_set [] = none
format_working_set (r ∷ rest) = some (
    join newline (
      codes "Working set — handles you can reference by id without another lookup:"
      ∷ map ref_line (unseen [] (r ∷ rest))))

abbrev or_unknown : Option Text → Text
or_unknown none = codes "unknown"
or_unknown (some v) = if text_eq v [] then codes "unknown" else v

abbrev is_none {ℓ} : {A : Type ℓ} → Option A → Bool
is_none none = true
is_none (some _) = false

abbrev is_empty {ℓ} : {A : Type ℓ} → List A → Bool
is_empty [] = true
is_empty (_ ∷ _) = false

module _ (show_id : ℕ → Text) where
  unfoldable pub format_ui_state : UiState → Option Text
  unfolding join
  format_ui_state s =
      if is_none s.active_view && is_empty s.open_panes
      then none
      else some (
          codes "The user is currently viewing: "
          ++ (or_unknown s.active_view
              ++ (elim s.active_id [ none ↦ [] | some i ↦ codes "(id " ++ (show_id i ++ codes ")") ]
                  ++ (if is_empty s.open_panes
                      then []
                      else codes "; open panes: " ++ join (codes ", ") s.open_panes))))

  unfoldable pub format_open_papers : Text → List (ℕ × Text) → Text
  unfolding join
  format_open_papers closing open_papers = join newline (
      (codes "Papers currently open in the reader (the read set for cross-paper comparison):" ∷ [])
      ++ (map
            (λ (p : ℕ × Text).
              codes "- " ++ (p.1 ++ (codes " (paper_id " ++ (show_id p.0 ++ codes ")"))))
            open_papers
          ++ closing ∷ []))

  -- Zero or one block.
  abbrev optional : Text → ℕ → Option Text → List ContextBlock
  optional name band none = []
  optional name band (some t) = block name band (plain_message system t) ∷ []

  abbrev skill_body : Option SkillSpec → Option Text
  skill_body none = none
  skill_body (some s) = some s.body

  abbrev selection_text : Option SelectionState → Option Text
  selection_text none = none
  selection_text (some s) = some (
      codes "The user has highlighted this passage from the paper:"
      ++ (newline ++ (codes "\"" ++ (s.anchor.quote ++ codes "\""))))

  unfoldable pub history_blocks : ℕ → List Message → List ContextBlock
  history_blocks i [] = []
  history_blocks i (m ∷ r) = block (codes "history:" ++ decimal i) 3 m ∷ history_blocks (i + 1) r

  unfoldable pub build_blocks :
      Text
      → Text
      → UiState
      → List Text
      → List (ℕ × Text)
      → List Message
      → List Ref
      → Text
      → Text
      → Option SkillSpec
      → List ContextBlock
  build_blocks system_prompt closing ui_state evidence open_papers history working_set_refs message
        skill_index active_skill =
      block (codes "system_prompt") 1 (plain_message system system_prompt)
      ∷ (block (codes "skill_index") 1 (plain_message system skill_index)
          ∷ (optional (codes "active_skill") 1 (skill_body active_skill)
              ++ (optional (codes "selection") 1 (selection_text ui_state.selection)
                  ++ (optional (codes "paper_evidence") 1 (
                        if is_empty evidence
                        then none
                        else some (join (newline ++ newline) evidence))
                      ++ (optional (codes "open_papers") 1 (
                            if ltb 1 (length open_papers)
                            then some (format_open_papers closing open_papers)
                            else none)
                          ++ (optional (codes "ui_state") 1 (format_ui_state ui_state)
                              ++ (optional (codes "working_set") 2
                                    (format_working_set working_set_refs)
                                  ++ (history_blocks 0 history
                                      ++ block (codes "current_message") 1
                                          (plain_message user message)
                                        ∷ []))))))))
