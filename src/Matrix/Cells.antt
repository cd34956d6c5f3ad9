-- ===== src/Matrix/Cells.antt =====
-- The cells of a matrix, of backend/matrix/__init__.py. Titles, cards and the result of a scoped
-- extraction, which asks a model and anchors its quote, are arguments. A stored cell has exactly one
-- of its two row columns, so its kind and its row id.
use ai_powered_research_work.Prelude.{
  ℕ, Bool, true, false, ◌&&◌, Option, none, some, List, [], ◌∷◌, ◌++◌, Text, text_eq, any, ◌==◌,
  if◌then◌else◌,
}
use ai_powered_research_work.Prelude.Assoc.{Assoc, lookup, insert}

pub data ColumnKind : Type 0 where
  standard custom user_entered : ColumnKind

pub data CellSource : Type 0 where
  extracted user : CellSource

pub data RowKind : Type 0 where
  paper experiment : RowKind

pub record ColumnDef : Type 0 where
  pub column_key : Text
  pub label : Text
  pub kind : ColumnKind
  pub query : Option Text

pub record Matrix : Type 0 where
  pub project_id : ℕ
  pub name : Text
  pub selected_paper_ids : List ℕ
  pub selected_experiment_ids : List ℕ
  pub column_defs : List ColumnDef

pub record MatrixUpdate : Type 0 where
  pub name : Option Text
  pub selected_paper_ids : Option (List ℕ)
  pub selected_experiment_ids : Option (List ℕ)
  pub column_defs : Option (List ColumnDef)

-- A row of `matrix_cells`.
pub record StoredCell : Type 0 where
  pub matrix_id : ℕ
  pub row_kind : RowKind
  pub row_id : ℕ
  pub column_key : Text
  pub value : Text
  pub source : CellSource
  pub anchor_id : Option ℕ

pub record MatrixCell : Type 0 where
  pub row_id : ℕ
  pub row_kind : RowKind
  pub column_key : Text
  pub value : Text
  pub source : CellSource
  pub anchor_id : Option ℕ

pub record Tables : Type 0 where
  pub matrices : Assoc Matrix
  pub cells : List StoredCell

abbrev or_old : {A : Type 0} → Option A → A → A
or_old none old = old
or_old (some new) old = new

abbrev updated : MatrixUpdate → Matrix → Matrix
updated update row = record row {
  name = or_old update.name row.name;
  selected_paper_ids = or_old update.selected_paper_ids row.selected_paper_ids;
  selected_experiment_ids = or_old update.selected_experiment_ids row.selected_experiment_ids;
  column_defs = or_old update.column_defs row.column_defs;
}

abbrev update_found : ℕ → MatrixUpdate → Tables → Option Matrix → Option Matrix × Tables
update_found id update tables none = (none, tables)
update_found id update tables (some row) =
    let new = updated update row in
    (some new, record tables { matrices = insert id new tables.matrices })

unfoldable pub update_matrix : ℕ → MatrixUpdate → Tables → Option Matrix × Tables
update_matrix id update tables = update_found id update tables (lookup id tables.matrices)

abbrev pub kind_eq : RowKind → RowKind → Bool
kind_eq paper paper = true
kind_eq experiment experiment = true
kind_eq paper experiment = false
kind_eq experiment paper = false

-- `_cell_from_row`
abbrev pub cell_from_row : StoredCell → RowKind → MatrixCell
cell_from_row row kind = record {
  row_id = row.row_id;
  row_kind = kind;
  column_key = row.column_key;
  value = row.value;
  source = row.source;
  anchor_id = row.anchor_id;
}

-- The key of a stored cell in the dict of `_cell_overrides`.
abbrev pub is_at : ℕ → ℕ → Text → StoredCell → Bool
is_at matrix_id row_id key c =
    (c.matrix_id == matrix_id) && ((c.row_id == row_id) && text_eq c.column_key key)

abbrev pub later_cell : Option StoredCell → Option StoredCell → Option StoredCell
later_cell (some c) here = some c
later_cell none here = here

-- `_cell_overrides(...).get((row_id, column_key))`: the last stored cell with the key.
unfoldable pub override : ℕ → List StoredCell → ℕ → Text → Option StoredCell
override matrix_id [] row_id key = none
override matrix_id (c ∷ cells) row_id key =
    later_cell (override matrix_id cells row_id key)
      (if is_at matrix_id row_id key c then some c else none)

-- The quote and the anchor that a scoped extraction got for a paper and a column, if any.
abbrev pub Extraction : Type 0
Extraction = ℕ → ColumnDef → Option (Text × ℕ)

abbrev pub extracted_cell : ℕ → Text → Option (Text × ℕ) → List MatrixCell
extracted_cell row_id key none = []
extracted_cell row_id key (some got) =
    record {
      row_id = row_id;
      row_kind = paper;
      column_key = key;
      value = got.0;
      source = extracted;
      anchor_id = some got.1;
    }
    ∷ []

abbrev pub of_kind : ColumnKind → List MatrixCell → List MatrixCell → List MatrixCell
of_kind standard field got = field
of_kind custom field got = got
of_kind user_entered field got = []

-- What a cell without a stored row shows: the field of the card, the extraction, or nothing.
abbrev pub fresh_cell :
    (ℕ → Text → Option (Text × ℕ)) → Extraction → ℕ → ColumnDef → List MatrixCell
fresh_cell card extract paper_id column =
    of_kind column.kind
      (extracted_cell paper_id column.column_key (card paper_id column.column_key))
      (extracted_cell paper_id column.column_key (extract paper_id column))

abbrev pub cached_or : RowKind → Option StoredCell → List MatrixCell → List MatrixCell
cached_or kind none fresh = fresh
cached_or kind (some row) fresh = cell_from_row row kind ∷ []

-- The cells of one row, by what each column without a stored cell shows.
unfoldable pub row_cells :
    (ColumnDef → List MatrixCell)
    → ℕ
    → List StoredCell
    → RowKind
    → ℕ
    → List ColumnDef
    → List MatrixCell
unfolding override
row_cells fresh matrix_id cells kind row_id [] = []
row_cells fresh matrix_id cells kind row_id (column ∷ columns) =
    cached_or kind (override matrix_id cells row_id column.column_key) (fresh column)
    ++ row_cells fresh matrix_id cells kind row_id columns

-- The cells of the rows that exist.
unfoldable pub rows_cells :
    (ℕ → ColumnDef → List MatrixCell)
    → (ℕ → Bool)
    → ℕ
    → List StoredCell
    → RowKind
    → List ColumnDef
    → List ℕ
    → List MatrixCell
unfolding row_cells
rows_cells fresh exists matrix_id cells kind columns [] = []
rows_cells fresh exists matrix_id cells kind columns (id ∷ ids) =
    let rest = rows_cells fresh exists matrix_id cells kind columns ids in
    if exists id then row_cells (fresh id) matrix_id cells kind id columns ++ rest else rest

-- What a view reads of the other modules.
pub record Sources : Type 0 where
  pub paper_exists : ℕ → Bool
  pub experiment_exists : ℕ → Bool
  pub card : ℕ → Text → Option (Text × ℕ)
  pub extract : Extraction

-- The cells of `get_matrix_view`; those that it extracted it also stores.
unfoldable pub view_cells : Sources → ℕ → Matrix → List StoredCell → List MatrixCell
unfolding rows_cells
view_cells sources matrix_id m cells =
    rows_cells (fresh_cell sources.card sources.extract) sources.paper_exists matrix_id cells paper
      m.column_defs m.selected_paper_ids
    ++ rows_cells (λ id column. []) sources.experiment_exists matrix_id cells experiment
        m.column_defs m.selected_experiment_ids

abbrev pub view_of : Sources → ℕ → Tables → Option Matrix → Option (List MatrixCell)
view_of sources matrix_id tables none = none
view_of sources matrix_id tables (some m) = some (view_cells sources matrix_id m tables.cells)

unfoldable pub get_matrix_view : Sources → ℕ → Tables → Option (List MatrixCell)
unfolding view_cells
get_matrix_view sources matrix_id tables =
    view_of sources matrix_id tables (lookup matrix_id tables.matrices)

abbrev pub is_selected : ℕ → List ℕ → Bool
is_selected id ids = any (λ j. j == id) ids

-- The kind of a row that is selected.
abbrev pub row_kind_of : Matrix → ℕ → Option RowKind
row_kind_of m row_id =
    if is_selected row_id m.selected_paper_ids
    then some paper
    else if is_selected row_id m.selected_experiment_ids
    then some experiment
    else none

abbrev pub user_cell : ℕ → RowKind → ℕ → Text → Text → StoredCell
user_cell matrix_id kind row_id key value = record {
  matrix_id = matrix_id;
  row_kind = kind;
  row_id = row_id;
  column_key = key;
  value = value;
  source = user;
  anchor_id = none;
}

-- The first stored cell of the key is written over, and where there is none one is added.
unfoldable pub put_cell : ℕ → RowKind → ℕ → Text → Text → List StoredCell → List StoredCell
put_cell matrix_id kind row_id key value [] = user_cell matrix_id kind row_id key value ∷ []
put_cell matrix_id kind row_id key value (c ∷ cells) =
    if kind_eq c.row_kind kind && is_at matrix_id row_id key c
    then user_cell matrix_id kind row_id key value ∷ cells
    else c ∷ put_cell matrix_id kind row_id key value cells

abbrev pub put_row : ℕ → ℕ → Text → Text → Tables → Option RowKind → Option MatrixCell × Tables
put_row matrix_id row_id key value tables none = (none, tables)
put_row matrix_id row_id key value tables (some kind) = (
  some (cell_from_row (user_cell matrix_id kind row_id key value) kind),
  record tables { cells = put_cell matrix_id kind row_id key value tables.cells },
)

abbrev pub put_in : ℕ → ℕ → Text → Text → Tables → Option Matrix → Option MatrixCell × Tables
put_in matrix_id row_id key value tables none = (none, tables)
put_in matrix_id row_id key value tables (some m) =
    put_row matrix_id row_id key value tables (row_kind_of m row_id)

unfoldable pub update_cell : ℕ → ℕ → Text → Text → Tables → Option MatrixCell × Tables
unfolding put_cell
update_cell matrix_id row_id key value tables =
    put_in matrix_id row_id key value tables (lookup matrix_id tables.matrices)
