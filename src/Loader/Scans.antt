-- ===== src/Loader/Scans.antt =====
-- The rows of a table of edges that a condition finds, as the pages of the loader's batch read.
use taobench.Prelude.{ℤ, Bytes, Bool, ◌&&◌, List, [], ◌∷◌, if◌then◌else◌, ◌≡◌, refl}
use taobench.Db.{Edge, EdgeRow, row_of}
use taobench.Loader.Order.{Key, key_lt, select}

-- An edge with the timestamp and the value of its row.
abbrev pub Stored : Type 0
Stored = Edge × ℤ × Bytes

abbrev pub stored_row : Stored → EdgeRow
stored_row (e, t, v) = row_of e t v

abbrev pub edges_in : List Stored → List Edge
edges_in [] = []
edges_in ((e, t, v) ∷ rows) = e ∷ edges_in rows

-- The edges of the rows that a test finds.
abbrev pub found_edges : (EdgeRow → Bool) → List Stored → List Edge
found_edges finds [] = []
found_edges finds ((e, t, v) ∷ rows) =
    let rest = found_edges finds rows in if finds (row_of e t v) then e ∷ rest else rest

-- A test that finds the rows strictly between two keys finds the edges that the loader selects.
pub found_edges-select :
    (finds : EdgeRow → Bool) (lo hi : Key)
    → ((r : EdgeRow)
        → finds r ≡ (key_lt lo (r.id1, r.id2, r.type) && key_lt (r.id1, r.id2, r.type) hi))
    → (rows : List Stored) → found_edges finds rows ≡ select lo hi (edges_in rows)
unfolding select
found_edges-select finds lo hi h [] = refl
found_edges-select finds lo hi h ((e, t, v) ∷ rows) =
    rw (h (row_of e t v), found_edges-select finds lo hi h rows) refl
