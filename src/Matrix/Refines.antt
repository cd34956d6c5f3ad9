-- ===== src/Matrix/Refines.antt =====
-- The view of a matrix as a table of cells, and that `update_cell` of backend/matrix/__init__.py
-- writes one cell of that table.
use ai_powered_research_work.Prelude.{
  ℕ, ◌≡◌, refl, sym, ◌∙◌, inl, inr, Bool, true, false, Option, none, some, List, [], arith, Text,
  text_eq, text_eq_sound, any, if◌then◌else◌, Bool-cases,
}
use ai_powered_research_work.Prelude.Assoc.{lookup}
use ai_powered_research_work.Matrix.Cells.{
  ColumnDef, ColumnKind, of_kind, Matrix, RowKind, paper, experiment, StoredCell, MatrixCell,
  Tables, cell_from_row, fresh_cell, rows_cells, Sources, view_cells, get_matrix_view, is_selected,
  row_kind_of, user_cell, put_cell, update_cell, extracted_cell, standard, custom, user_entered,
}
use ai_powered_research_work.Matrix.Overrides.{same_place, IsSole, same_place_refl}
use ai_powered_research_work.Matrix.Rows.{
  shown, AllAt, IsOwn, shown-append, rows-other, rows-none, rows-same,
}

extracted_cell-AllAt :
    (id : ℕ) (key : Text) (got : Option (Text × ℕ)) → AllAt id key (extracted_cell id key got)
extracted_cell-AllAt id key none = tt
extracted_cell-AllAt id key (some got) = ((refl, refl), tt)

of_kind-AllAt :
    (id : ℕ) (key : Text) (kind : ColumnKind) (field got : List MatrixCell)
    → AllAt id key field
    → AllAt id key got
    → AllAt id key (of_kind kind field got)
of_kind-AllAt id key standard field got h k = h
of_kind-AllAt id key custom field got h k = k
of_kind-AllAt id key user_entered field got h k = tt

fresh_cell-IsOwn :
    (card : ℕ → Text → Option (Text × ℕ)) (extract : ℕ → ColumnDef → Option (Text × ℕ)) (id : ℕ)
    → IsOwn (fresh_cell card extract id) id
fresh_cell-IsOwn card extract id column =
    of_kind-AllAt id column.column_key column.kind
      (extracted_cell id column.column_key (card id column.column_key))
      (extracted_cell id column.column_key (extract id column))
      (extracted_cell-AllAt id column.column_key (card id column.column_key))
      (extracted_cell-AllAt id column.column_key (extract id column))

-- What a view shows at a place.
abbrev pub shown_in : Option (List MatrixCell) → ℕ → Text → Option MatrixCell
shown_in none r k = none
shown_in (some cells) r k = shown cells r k

abbrev pub exists_of : Sources → RowKind → ℕ → Bool
exists_of sources paper id = sources.paper_exists id
exists_of sources experiment id = sources.experiment_exists id

paper-selected :
    (m : Matrix) (r : ℕ) → row_kind_of m r ≡ some paper → is_selected r m.selected_paper_ids ≡ true
paper-selected m r h = elim (Bool-cases (is_selected r m.selected_paper_ids)) [
  | inl e ↦ e
  | inr e ↦ elim (Bool-cases (is_selected r m.selected_experiment_ids)) [
    | inl f ↦ let k = simp (e, f) at h in absurd (ground arith)
    | inr f ↦ let k = simp (e, f) at h in absurd (ground arith)
  ]
]

experiment-selected :
    (m : Matrix) (r : ℕ)
    → row_kind_of m r ≡ some experiment
    → (is_selected r m.selected_paper_ids ≡ false)
      × (is_selected r m.selected_experiment_ids ≡ true)
experiment-selected m r h = elim (Bool-cases (is_selected r m.selected_paper_ids)) [
  | inl e ↦ let k = simp e at h in absurd (ground arith)
  | inr e ↦ elim (Bool-cases (is_selected r m.selected_experiment_ids)) [
    | inl f ↦ (e, f)
    | inr f ↦ let k = simp (e, f) at h in absurd (ground arith)
  ]
]

view_cells-put :
    (sources : Sources) (matrix_id : ℕ) (m : Matrix) (kind : RowKind) (r : ℕ) (k v : Text)
    (cells : List StoredCell)
    → row_kind_of m r ≡ some kind
    → exists_of sources kind r ≡ true
    → any (λ column. text_eq (ColumnDef.column_key column) k) m.column_defs ≡ true
    → IsSole matrix_id kind r k cells
    → shown (view_cells sources matrix_id m (put_cell matrix_id kind r k v cells)) r k
      ≡ some (cell_from_row (user_cell matrix_id kind r k v) kind)
unfolding view_cells
view_cells-put sources matrix_id m paper r k v cells selected there column sole =
    let fresh = fresh_cell sources.card sources.extract in
    let written = put_cell matrix_id paper r k v cells in
    let chosen : is_selected r m.selected_paper_ids ≡ true = paper-selected m r selected in
    shown-append
      (rows_cells fresh sources.paper_exists matrix_id written paper m.column_defs
        m.selected_paper_ids)
      _ r k
    ∙ rw
        (rows-same matrix_id paper r k v cells fresh sources.paper_exists m.column_defs
          m.selected_paper_ids (fresh_cell-IsOwn sources.card sources.extract) sole column there
          chosen)
        refl
view_cells-put sources matrix_id m experiment r k v cells selected there column sole =
    let fresh = fresh_cell sources.card sources.extract in
    let written = put_cell matrix_id experiment r k v cells in
    let chosen = experiment-selected m r selected in
    shown-append
      (rows_cells fresh sources.paper_exists matrix_id written paper m.column_defs
        m.selected_paper_ids)
      _ r k
    ∙ rw
        (
          rows-none matrix_id experiment r k v cells paper fresh sources.paper_exists m.column_defs
              m.selected_paper_ids (fresh_cell-IsOwn sources.card sources.extract) chosen.0,
          rows-same matrix_id experiment r k v cells (λ id column. []) sources.experiment_exists
              m.column_defs m.selected_experiment_ids (λ id column. tt) sole column there chosen.1,
        )
        refl

view_cells-put_other :
    (sources : Sources) (matrix_id : ℕ) (m : Matrix) (kind : RowKind) (r : ℕ) (k v : Text)
    (cells : List StoredCell) (r' : ℕ) (k' : Text)
    → same_place r k r' k' ≡ false
    → shown (view_cells sources matrix_id m (put_cell matrix_id kind r k v cells)) r' k'
      ≡ shown (view_cells sources matrix_id m cells) r' k'
unfolding view_cells
view_cells-put_other sources matrix_id m kind r k v cells r' k' d =
    let fresh = fresh_cell sources.card sources.extract in
    shown-append
      (rows_cells fresh sources.paper_exists matrix_id (put_cell matrix_id kind r k v cells) paper
        m.column_defs m.selected_paper_ids)
      _ r' k'
    ∙ (rw
          (
            rows-other matrix_id kind r k v cells paper fresh sources.paper_exists m.column_defs
                m.selected_paper_ids r' k' (fresh_cell-IsOwn sources.card sources.extract) d,
            rows-other matrix_id kind r k v cells experiment (λ id column. [])
                sources.experiment_exists m.column_defs m.selected_experiment_ids r' k'
                (λ id column. tt) d,
          )
          refl
        ∙ sym (
            shown-append
              (rows_cells fresh sources.paper_exists matrix_id cells paper m.column_defs
                m.selected_paper_ids)
              _ r' k'))

-- When a cell of a selected row that exists is updated, in a column of the matrix, and the stored
-- cells have at most one for it, of the kind of its row: the view then shows the user's value there,
-- and at every other place what it showed before.
pub update_cell-Refines :
    (sources : Sources) (matrix_id : ℕ) (m : Matrix) (kind : RowKind) (r : ℕ) (k v : Text)
    (tables : Tables)
    → lookup matrix_id tables.matrices ≡ some m
    → row_kind_of m r ≡ some kind
    → exists_of sources kind r ≡ true
    → any (λ column. text_eq (ColumnDef.column_key column) k) m.column_defs ≡ true
    → IsSole matrix_id kind r k tables.cells
    → (r' : ℕ) (k' : Text)
    → shown_in (get_matrix_view sources matrix_id ((update_cell matrix_id r k v tables).1)) r' k'
      ≡ (if same_place r k r' k'
          then some (cell_from_row (user_cell matrix_id kind r k v) kind)
          else shown_in (get_matrix_view sources matrix_id tables) r' k')
unfolding get_matrix_view update_cell
update_cell-Refines sources matrix_id m kind r k v tables found selected there column sole r' k' =
    elim (Bool-cases (same_place r k r' k')) [
      | inr e ↦
          rw (found, selected, found, e)
            (view_cells-put_other sources matrix_id m kind r k v tables.cells r' k' e)
      | inl e ↦
          let row : r ≡ r' = ground arith in
          let key : k ≡ k' = text_eq_sound k k' (ground arith) in
          rw (found, selected, found, sym row, sym key, same_place_refl r k)
            (view_cells-put sources matrix_id m kind r k v tables.cells selected there column sole)
    ]
