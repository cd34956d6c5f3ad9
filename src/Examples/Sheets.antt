-- ===== src/Examples/Sheets.antt =====
-- A matrix with a paper and an experiment.
use ai_powered_research_work.Prelude.{◌≡◌, refl, true, none, some, [], ◌∷◌, codes, if◌then◌else◌}
use ai_powered_research_work.Prelude.Assoc.{lookup, insert}
use ai_powered_research_work.Matrix.Cells.{
  standard, user_entered, extracted, Matrix, MatrixUpdate, paper, Tables, override, cell_from_row,
  user_cell, Sources, get_matrix_view, update_matrix, update_cell,
}
use ai_powered_research_work.Matrix.Overrides.{same_place, IsSole}
use ai_powered_research_work.Matrix.Refines.{shown_in, update_cell-Refines}

abbrev sheet : Matrix
sheet = record {
  project_id = 1;
  name = codes "s";
  selected_paper_ids = 10 ∷ 11 ∷ [];
  selected_experiment_ids = 20 ∷ [];
  column_defs =
      record { column_key = codes "method"; label = codes "M"; kind = standard; query = none }
      ∷ record { column_key = codes "mine"; label = codes "N"; kind = user_entered; query = none }
      ∷ [];
}

abbrev sources : Sources
sources = record {
  paper_exists = λ id. true;
  experiment_exists = λ id. true;
  card = λ id key. some (codes "card", 4);
  extract = λ id column. none;
}

abbrev tables : Tables
tables = record {
  matrices = (5, sheet) ∷ [];
  cells =
      record {
        matrix_id = 5;
        row_kind = paper;
        row_id = 10;
        column_key = codes "method";
        value = codes "old";
        source = extracted;
        anchor_id = some 3;
      }
      ∷ [];
}

abbrev rename : MatrixUpdate
rename = record {
  name = some (codes "t");
  selected_paper_ids = none;
  selected_experiment_ids = some [];
  column_defs = none;
}

update_matrix_test :
    (update_matrix 5 rename tables).0
    ≡ some (record sheet { name = codes "t"; selected_experiment_ids = [] })
unfolding update_matrix lookup insert
update_matrix_test = refl

-- The cell of the card is shown where no cell is stored.
view_test :
    shown_in (get_matrix_view sources 5 tables) 11 (codes "method")
    ≡ some (record {
      row_id = 11;
      row_kind = paper;
      column_key = codes "method";
      value = codes "card";
      source = extracted;
      anchor_id = some 4;
    })
unfolding get_matrix_view lookup
view_test = refl

stored-IsSole : IsSole 5 paper 10 (codes "method") tables.cells
unfolding override
stored-IsSole = ((λ h. (refl, refl)), tt)

update_cell_example :
    shown_in
      (get_matrix_view sources 5 ((update_cell 5 10 (codes "method") (codes "new") tables).1))
      11
      (codes "method")
    ≡ (if same_place 10 (codes "method") 11 (codes "method")
        then some (cell_from_row (user_cell 5 paper 10 (codes "method") (codes "new")) paper)
        else shown_in (get_matrix_view sources 5 tables) 11 (codes "method"))
unfolding lookup
update_cell_example =
    update_cell-Refines sources 5 sheet paper 10 (codes "method") (codes "new") tables refl refl
      refl refl stored-IsSole 11 (codes "method")
