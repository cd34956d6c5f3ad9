-- ===== src/Matrix/Overrides.antt =====
-- What the dict of stored cells of backend/matrix/__init__.py has after a cell was written.
use ai_powered_research_work.Prelude.{
  ℕ, ◌≡◌, refl, ap, sym, ◌∙◌, inl, inr, Bool, true, false, ◌&&◌, none, some, List, [], ◌∷◌, arith,
  Text, text_eq, text_eq_sound, text_eq_refl, ◌==◌, Bool-cases, Option-cases,
}
use ai_powered_research_work.Matrix.Cells.{
  RowKind, StoredCell, kind_eq, is_at, override, user_cell, put_cell,
}

-- Two places in a matrix are the same.
abbrev pub same_place : ℕ → Text → ℕ → Text → Bool
same_place r k r' k' = (r == r') && text_eq k k'

-- Of the stored cells at most one is at the place, and it is of the kind of its row.
abbrev pub IsSole : ℕ → RowKind → ℕ → Text → List StoredCell → Type 0
IsSole matrix_id kind r k [] = Unit
IsSole matrix_id kind r k (c ∷ cells) =
    (is_at matrix_id r k c ≡ true
      → (kind_eq c.row_kind kind ≡ true) × (override matrix_id cells r k ≡ none))
    × IsSole matrix_id kind r k cells

user_cell-at :
    (matrix_id : ℕ) (kind : RowKind) (r : ℕ) (k v : Text) (r' : ℕ) (k' : Text)
    → is_at matrix_id r' k' (user_cell matrix_id kind r k v) ≡ same_place r k r' k'
user_cell-at matrix_id kind r k v r' k' =
    let e : (matrix_id == matrix_id) ≡ true = ground arith in rw e refl

-- A cell at one place is not at another.
not_at-other :
    (matrix_id r : ℕ) (k : Text) (r' : ℕ) (k' : Text) (c : StoredCell)
    → is_at matrix_id r k c ≡ true
    → same_place r k r' k' ≡ false
    → is_at matrix_id r' k' c ≡ false
not_at-other matrix_id r k r' k' c h d =
    let row : c.row_id ≡ r = ground arith in
    let key : c.column_key ≡ k = text_eq_sound c.column_key k (ground arith) in
    let other : same_place c.row_id c.column_key r' k' ≡ false = rw (row, key) d in
    ground (arith, other)

pub override-put_other :
    (matrix_id : ℕ) (kind : RowKind) (r : ℕ) (k v : Text) (cells : List StoredCell) (r' : ℕ)
    (k' : Text)
    → same_place r k r' k' ≡ false
    → override matrix_id (put_cell matrix_id kind r k v cells) r' k'
      ≡ override matrix_id cells r' k'
unfolding override put_cell
override-put_other matrix_id kind r k v [] r' k' d =
    rw (user_cell-at matrix_id kind r k v r' k' ∙ d) refl
override-put_other matrix_id kind r k v (c ∷ cells) r' k' d =
    elim (Bool-cases (kind_eq c.row_kind kind && is_at matrix_id r k c)) [
      | inl e ↦
          let at : is_at matrix_id r k c ≡ true = ground arith in
          rw
            (
              e,
              user_cell-at matrix_id kind r k v r' k' ∙ d,
              not_at-other matrix_id r k r' k' c at d,
            )
            refl
      | inr e ↦ rw (e, override-put_other matrix_id kind r k v cells r' k' d) refl
    ]

pub same_place_refl : (r : ℕ) (k : Text) → same_place r k r k ≡ true
same_place_refl r k = ground (arith, text_eq_refl k)

pub override-put :
    (matrix_id : ℕ) (kind : RowKind) (r : ℕ) (k v : Text) (cells : List StoredCell)
    → IsSole matrix_id kind r k cells
    → override matrix_id (put_cell matrix_id kind r k v cells) r k
      ≡ some (user_cell matrix_id kind r k v)
unfolding override put_cell
override-put matrix_id kind r k v [] h =
    rw (user_cell-at matrix_id kind r k v r k ∙ same_place_refl r k) refl
override-put matrix_id kind r k v (c ∷ cells) h =
    elim (Bool-cases (kind_eq c.row_kind kind && is_at matrix_id r k c)) [
      | inl e ↦
          let at : is_at matrix_id r k c ≡ true = ground arith in
          rw (e, (h.0 at).1, user_cell-at matrix_id kind r k v r k ∙ same_place_refl r k) refl
      | inr e ↦ rw (e, override-put matrix_id kind r k v cells h.1) refl
    ]

-- What the dict gives for a place is a cell of the place.
pub override-at :
    (matrix_id : ℕ) (cells : List StoredCell) (r : ℕ) (k : Text) {c : StoredCell}
    → override matrix_id cells r k ≡ some c
    → (c.row_id ≡ r) × (c.column_key ≡ k)
unfolding override
override-at matrix_id [] r k h = absurd (ground arith)
override-at matrix_id (d ∷ cells) r k {c} h = elim (Option-cases (override matrix_id cells r k)) [
  | inr (e, f) ↦ override-at matrix_id cells r k (f ∙ (rw f at h))
  | inl f ↦ elim (Bool-cases (is_at matrix_id r k d)) [
    | inr g ↦ let none_left = rw (f, g) at h in absurd (ground arith)
    | inl g ↦
        let same : d ≡ c = let found = rw (f, g) at h in ground arith in
        let key : d.column_key ≡ k = text_eq_sound d.column_key k (ground arith) in
        let row : d.row_id ≡ r = ground arith in
        (ap StoredCell.row_id (sym same) ∙ row, ap StoredCell.column_key (sym same) ∙ key)
  ]
]
