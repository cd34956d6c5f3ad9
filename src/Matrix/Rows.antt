-- ===== src/Matrix/Rows.antt =====
-- What the rows of a view of backend/matrix/__init__.py show at a place before and after a cell was
-- written.
use ai_powered_research_work.Prelude.{
  ℕ, ◌≡◌, refl, sym, ◌∙◌, inl, inr, Bool, true, false, Option, none, some, List, [], ◌∷◌, ◌++◌,
  arith, Text, text_eq, text_eq_sound, text_eq_refl, any, find_first, All, ◌==◌, Bool-cases,
  Option-cases,
}
use ai_powered_research_work.Matrix.Cells.{
  ColumnDef, RowKind, StoredCell, MatrixCell, cell_from_row, override, cached_or, row_cells,
  rows_cells, is_selected, user_cell, put_cell,
}
use ai_powered_research_work.Matrix.Overrides.{
  same_place, IsSole, override-put_other, override-put, override-at,
}

-- What a list of cells shows at a place.
abbrev pub shown : List MatrixCell → ℕ → Text → Option MatrixCell
shown cells r k =
    find_first (λ c. same_place (MatrixCell.row_id c) (MatrixCell.column_key c) r k) cells

abbrev first_shown : Option MatrixCell → Option MatrixCell → Option MatrixCell
first_shown (some c) later = some c
first_shown none later = later

pub shown-append :
    (xs ys : List MatrixCell) (r : ℕ) (k : Text)
    → shown (xs ++ ys) r k ≡ first_shown (shown xs r k) (shown ys r k)
shown-append [] ys r k = refl
shown-append (x ∷ xs) ys r k = elim (Bool-cases (same_place x.row_id x.column_key r k)) [
  | inl e ↦ rw e refl
  | inr e ↦ rw e (shown-append xs ys r k)
]

-- Cells of one place.
abbrev pub AllAt : ℕ → Text → List MatrixCell → Type 0
AllAt r k cells = All (λ c. (MatrixCell.row_id c ≡ r) × (MatrixCell.column_key c ≡ k)) cells

shown_elsewhere :
    (r : ℕ) (k : Text) (r' : ℕ) (k' : Text) (cells : List MatrixCell)
    → AllAt r k cells
    → same_place r k r' k' ≡ false
    → shown cells r' k' ≡ none
shown_elsewhere r k r' k' [] h d = refl
shown_elsewhere r k r' k' (c ∷ cells) h d =
    let e : same_place c.row_id c.column_key r' k' ≡ false = rw (h.0.0, h.0.1) d in
    rw e (shown_elsewhere r k r' k' cells h.1 d)

-- What fills a column without a stored cell fills its own place.
abbrev pub IsOwn : (ColumnDef → List MatrixCell) → ℕ → Type 0
IsOwn fresh id = (column : ColumnDef) → AllAt id column.column_key (fresh column)

cached_or-AllAt :
    (matrix_id : ℕ) (cells : List StoredCell) (kind : RowKind) (id : ℕ) (k : Text)
    (fresh : List MatrixCell)
    → AllAt id k fresh
    → AllAt id k (cached_or kind (override matrix_id cells id k) fresh)
cached_or-AllAt matrix_id cells kind id k fresh h =
    elim (Option-cases (override matrix_id cells id k)) [
      | inl e ↦ rw e h
      | inr (c, e) ↦ rw e (override-at matrix_id cells id k e, tt)
    ]

module _ (matrix_id : ℕ) (kind : RowKind) (r : ℕ) (k v : Text) (cells : List StoredCell) where
  -- The stored cells after the write.
  abbrev pub written : List StoredCell
  written = put_cell matrix_id kind r k v cells

  column-other :
      (of : RowKind) (id : ℕ) (key : Text) (fresh : List MatrixCell) (r' : ℕ) (k' : Text)
      → AllAt id key fresh
      → same_place r k r' k' ≡ false
      → shown (cached_or of (override matrix_id written id key) fresh) r' k'
        ≡ shown (cached_or of (override matrix_id cells id key) fresh) r' k'
  column-other of id key fresh r' k' own d = elim (Bool-cases (same_place r k id key)) [
    | inr e ↦ rw (override-put_other matrix_id kind r k v cells id key e) refl
    | inl e ↦
        let row : r ≡ id = ground arith in
        let name : k ≡ key = text_eq_sound k key (ground arith) in
        let elsewhere : same_place id key r' k' ≡ false = rw (sym row, sym name) d in
        shown_elsewhere id key r' k' _ (cached_or-AllAt matrix_id written of id key fresh own)
          elsewhere
        ∙ sym (
            shown_elsewhere id key r' k' _ (cached_or-AllAt matrix_id cells of id key fresh own)
              elsewhere)
  ]

  row-other :
      (of : RowKind) (fresh : ColumnDef → List MatrixCell) (id : ℕ) (columns : List ColumnDef)
      (r' : ℕ) (k' : Text)
      → IsOwn fresh id
      → same_place r k r' k' ≡ false
      → shown (row_cells fresh matrix_id written of id columns) r' k'
        ≡ shown (row_cells fresh matrix_id cells of id columns) r' k'
  unfolding row_cells
  row-other of fresh id [] r' k' own d = refl
  row-other of fresh id (column ∷ columns) r' k' own d =
      shown-append (cached_or of (override matrix_id written id column.column_key) (fresh column)) _
        r' k'
      ∙ (rw
            (
              column-other of id column.column_key (fresh column) r' k' (own column) d,
              row-other of fresh id columns r' k' own d,
            )
            refl
          ∙ sym (
              shown-append
                (cached_or of (override matrix_id cells id column.column_key) (fresh column)) _ r'
                k'))

  pub rows-other :
      (of : RowKind) (fresh : ℕ → ColumnDef → List MatrixCell) (exists : ℕ → Bool)
      (columns : List ColumnDef) (ids : List ℕ) (r' : ℕ) (k' : Text)
      → ((id : ℕ) → IsOwn (fresh id) id)
      → same_place r k r' k' ≡ false
      → shown (rows_cells fresh exists matrix_id written of columns ids) r' k'
        ≡ shown (rows_cells fresh exists matrix_id cells of columns ids) r' k'
  unfolding rows_cells
  rows-other of fresh exists columns [] r' k' own d = refl
  rows-other of fresh exists columns (id ∷ ids) r' k' own d = elim (Bool-cases (exists id)) [
    | inr e ↦ rw e (rows-other of fresh exists columns ids r' k' own d)
    | inl e ↦ rw e (
        shown-append (row_cells (fresh id) matrix_id written of id columns) _ r' k'
        ∙ (rw
              (
                row-other of (fresh id) id columns r' k' (own id) d,
                rows-other of fresh exists columns ids r' k' own d,
              )
              refl
            ∙ sym (shown-append (row_cells (fresh id) matrix_id cells of id columns) _ r' k')))
  ]

  -- The cell that is shown after the write.
  abbrev pub new_cell : MatrixCell
  new_cell = cell_from_row (user_cell matrix_id kind r k v) kind

  row-none :
      (of : RowKind) (fresh : ColumnDef → List MatrixCell) (id : ℕ) (columns : List ColumnDef)
      → IsOwn fresh id
      → (id == r) ≡ false
      → shown (row_cells fresh matrix_id written of id columns) r k ≡ none
  unfolding row_cells
  row-none of fresh id [] own d = refl
  row-none of fresh id (column ∷ columns) own d =
      let elsewhere : same_place id column.column_key r k ≡ false = ground arith in
      shown-append (cached_or of (override matrix_id written id column.column_key) (fresh column)) _
        r k
      ∙ rw
          (
            shown_elsewhere id column.column_key r k _
                (cached_or-AllAt matrix_id written of id column.column_key (fresh column)
                  (own column))
                elsewhere,
            row-none of fresh id columns own d,
          )
          refl

  row-same :
      (fresh : ColumnDef → List MatrixCell) (columns : List ColumnDef)
      → IsOwn fresh r
      → IsSole matrix_id kind r k cells
      → any (λ column. text_eq (ColumnDef.column_key column) k) columns ≡ true
      → shown (row_cells fresh matrix_id written kind r columns) r k ≡ some new_cell
  unfolding row_cells
  row-same fresh [] own sole h = absurd (ground arith)
  row-same fresh (column ∷ columns) own sole h = elim (Bool-cases (text_eq column.column_key k)) [
    | inl e ↦
        let key : column.column_key ≡ k = text_eq_sound column.column_key k e in
        let here : same_place r k r k ≡ true = ground (arith, text_eq_refl k) in
        rw (key, override-put matrix_id kind r k v cells sole, here) refl
    | inr e ↦
        let elsewhere : same_place r column.column_key r k ≡ false = ground arith in
        shown-append
          (cached_or kind (override matrix_id written r column.column_key) (fresh column)) _ r k
        ∙ rw
            (
              shown_elsewhere r column.column_key r k _
                  (cached_or-AllAt matrix_id written kind r column.column_key (fresh column)
                    (own column))
                  elsewhere,
              row-same fresh columns own sole (rw e at h),
            )
            refl
  ]

  pub rows-none :
      (of : RowKind) (fresh : ℕ → ColumnDef → List MatrixCell) (exists : ℕ → Bool)
      (columns : List ColumnDef) (ids : List ℕ)
      → ((id : ℕ) → IsOwn (fresh id) id)
      → is_selected r ids ≡ false
      → shown (rows_cells fresh exists matrix_id written of columns ids) r k ≡ none
  unfolding rows_cells
  rows-none of fresh exists columns [] own d = refl
  rows-none of fresh exists columns (id ∷ ids) own d = elim (Bool-cases (exists id)) [
    | inr e ↦ rw e (rows-none of fresh exists columns ids own (ground arith))
    | inl e ↦ rw e (
        shown-append (row_cells (fresh id) matrix_id written of id columns) _ r k
        ∙ rw
            (
              row-none of (fresh id) id columns (own id) (ground arith),
              rows-none of fresh exists columns ids own (ground arith),
            )
            refl)
  ]

  pub rows-same :
      (fresh : ℕ → ColumnDef → List MatrixCell) (exists : ℕ → Bool) (columns : List ColumnDef)
      (ids : List ℕ)
      → ((id : ℕ) → IsOwn (fresh id) id)
      → IsSole matrix_id kind r k cells
      → any (λ column. text_eq (ColumnDef.column_key column) k) columns ≡ true
      → exists r ≡ true
      → is_selected r ids ≡ true
      → shown (rows_cells fresh exists matrix_id written kind columns ids) r k ≡ some new_cell
  unfolding rows_cells
  rows-same fresh exists columns [] own sole h there d = absurd (ground arith)
  rows-same fresh exists columns (id ∷ ids) own sole h there d = elim (Bool-cases (id == r)) [
    | inl e ↦
        let same : id ≡ r = ground arith in
        rw (same, there)
          (shown-append (row_cells (fresh r) matrix_id written kind r columns) _ r k
            ∙ rw (row-same (fresh r) columns (own r) sole h) refl)
    | inr e ↦
        let later = rows-same fresh exists columns ids own sole h there (rw e at d) in
        elim (Bool-cases (exists id)) [
          | inr f ↦ rw f later
          | inl f ↦ rw f (
              shown-append (row_cells (fresh id) matrix_id written kind id columns) _ r k
              ∙ rw (row-none kind (fresh id) id columns (own id) e, later) refl)
        ]
  ]
