-- ===== src/Storage/Mysql/Keyed.antt =====
-- A table whose rows are stored by one field: the table behaves as a map from that field.
use kd.Base.{
  ◌≡◌, refl, ◌∙◌, sym, ap, Bool-cases, inl, inr, some, [], ◌∷◌, Text, str_eq, eq_of_str_eq, lookup,
  insert, lookup-insert, lookup-insert_self, if◌then◌else◌, All,
}
use kd.Storage.Mysql.{
  QueryRow, Table, Mysql, build_composite_key, composite_loop, rows_of, upsert_row, first_with,
  get_row,
}

-- Every row stands under the value of its field `f`.
abbrev pub IsKeyed : Text → Table → Type 0
IsKeyed f t = All (λ (entry : Text × QueryRow). lookup f entry.1 ≡ some entry.0) t

single_key :
    (f v : Text) (row : QueryRow) → lookup f row ≡ some v → build_composite_key row (f ∷ []) ≡ v
unfolding build_composite_key composite_loop
single_key f v row h = rw h refl

insert-IsKeyed :
    (f v : Text) (row : QueryRow) (t : Table)
    → lookup f row ≡ some v
    → IsKeyed f t
    → IsKeyed f (insert v row t)
unfolding insert
insert-IsKeyed f v row [] h k = (h, k)
insert-IsKeyed f v row ((j, r) ∷ t) h (a, k) = elim (Bool-cases (str_eq j v)) [
  | inl same ↦ rw same (h ∙ ap some (sym (eq_of_str_eq j v same)), k)
  | inr other ↦ rw other (a, insert-IsKeyed f v row t h k)
]

-- In a keyed table the search by the field is the look-up by the key.
first_with-lookup : (f v : Text) (t : Table) → IsKeyed f t → first_with f v t ≡ lookup v t
unfolding first_with lookup
first_with-lookup f v [] h = refl
first_with-lookup f v ((j, r) ∷ t) (a, h) = elim (Bool-cases (str_eq j v)) [
  | inl same ↦ rw (a, same) refl
  | inr other ↦ rw (a, other) (first_with-lookup f v t h)
]

-- Storing a row under its field keeps a keyed table keyed.
upsert-IsKeyed :
    (table f v : Text) (row : QueryRow) (s : Mysql)
    → lookup f row ≡ some v
    → IsKeyed f (rows_of (lookup table s))
    → IsKeyed f (rows_of (lookup table (upsert_row table row (f ∷ []) s)))
unfolding upsert_row
upsert-IsKeyed table f v row s h k =
    rw
      (
        lookup-insert_self table
            (insert (build_composite_key row (f ∷ [])) row (rows_of (lookup table s))) s,
        single_key f v row h,
      )
      (insert-IsKeyed f v row (rows_of (lookup table s)) h k)

-- In a keyed table, the row stored last under a value of the field is the row that GetRow finds for
-- that value; the rows of other values are found as before.
pub get-upsert :
    (table f v w : Text) (row : QueryRow) (s : Mysql)
    → lookup f row ≡ some v
    → IsKeyed f (rows_of (lookup table s))
    → get_row table f w (upsert_row table row (f ∷ []) s)
      ≡ (if str_eq v w then some row else get_row table f w s)
unfolding get_row
get-upsert table f v w row s h k =
    let t = rows_of (lookup table s) in
    let e : rows_of (lookup table (upsert_row table row (f ∷ []) s)) ≡ insert v row t =
      unfold upsert_row in
      (rw
        (
          lookup-insert_self table (insert (build_composite_key row (f ∷ [])) row t) s,
          single_key f v row h,
        )
        refl) in
    rw
      (
        e,
        first_with-lookup f w (insert v row t) (insert-IsKeyed f v row t h k),
        first_with-lookup f w t k,
      )
      (lookup-insert v w row t)
