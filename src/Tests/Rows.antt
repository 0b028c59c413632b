-- ===== src/Tests/Rows.antt =====
-- A connection to a database with one object, for the examples: the number of its writes is its
-- timestamp, and a statement that does not look for an object by its id throws.
use taobench.Prelude.{
  ℕ, suc, ℤ, pos, ◌==ℤ◌, ==ℤ→eq, ◌%◌, ◌^◌, codes, List, [], ◌∷◌, Bool, true, false, if◌then◌else◌,
  Option, none, some, ◌≡◌, ◌⊎◌, inl, inr, refl, Bool-cases, InRange64, arith, subst, sym, ◌∙◌,
}
use taobench.Db.{DataTable, edges, objects, TimestampValue, returns}
use taobench.Sql.{
  Statement, select, update, Operand, Column, Where, eq, and, Bindings, Value, int, operand_value,
  ResultRow,
}
use taobench.Pq.Connection.{Connection}
use taobench.Pq.KeyedRows.{KeyedRows, Pins, Touches, by_id, also, updated}

abbrev pub seven : ℕ → TimestampValue
seven n = record { timestamp = pos (n % 2 ^ 63); value = codes "a,b" }

abbrev is_seven : Option Value → Bool
is_seven (some (int i)) = i ==ℤ pos 7
is_seven _ = false

abbrev pub row_of_key : ℕ → DataTable → List ℤ → Option TimestampValue
row_of_key n objects (i ∷ []) = if i ==ℤ pos 7 then some (seven n) else none
row_of_key n _ _ = none

abbrev found : Bool → ℕ → List ResultRow
found true n = (some (pos (n % 2 ^ 63)), some (codes "a,b")) ∷ []
found false n = []

-- The state: the number of writes, and what it was when the work was begun.
abbrev run : Statement → Bindings → ℕ × ℕ → Option (List ResultRow) × (ℕ × ℕ)
run (select objects (eq Column.id o)) bs (n, b) =
    (some (found (is_seven (operand_value bs o)) n), (n, b))
run (update objects x y (and (eq Column.id o) w)) bs (n, b) =
    (some [], (if is_seven (operand_value bs o) then suc n else n, b))
run _ bs s = (none, s)

abbrev pub one_row : Connection
one_row = record {
  State = ℕ × ℕ;
  exec_prepared = run;
  exec_prepared_scan = λ stmt bs s. (none, s);
  exec = λ stmts s. (none, s);
  beyond = returns (none, none);
  start_work = λ s. (true, (s.0, s.0));
  commit = λ s. (true, s);
  abort = λ s. (s.1, s.1);
}

pub row_in_range :
    (n : ℕ) (t : DataTable) (k : List ℤ) (tv : TimestampValue)
    → row_of_key n t k ≡ some tv
    → InRange64 tv.timestamp
row_in_range n edges k tv h = absurd (cc)
row_in_range n objects [] tv h = absurd (cc)
row_in_range n objects (i ∷ j ∷ k) tv h = absurd (cc)
row_in_range n objects (i ∷ []) tv h = elim (Bool-cases (i ==ℤ pos 7)) [
  | inl e ↦
      (let there : some (seven n) ≡ some tv = rw e at h in
        let same : seven n ≡ tv = cc in subst (λ x. InRange64 x.timestamp) same (omega arith))
  | inr e ↦ (let gone : ◌≡◌ {A = Option TimestampValue} none (some tv) = rw e at h in absurd (cc))
]

pub finds_row :
    (t : DataTable) (w : Where) (bs : Bindings) (k : List ℤ) (s : ℕ × ℕ) (tv : TimestampValue)
    → Pins t w bs k
    → row_of_key s.0 t k ≡ some tv
    → ((run (select t w) bs s).0 ≡ none)
      ⊎ ((run (select t w) bs s).0 ≡ some ((some tv.timestamp, some tv.value) ∷ []))
finds_row t w bs k s tv (by_id {o = o} {i = i} b) here = elim (Bool-cases (i ==ℤ pos 7)) [
  | inl e ↦
      (let there : some (seven s.0) ≡ some tv = rw e at here in
        let same : seven s.0 ≡ tv = cc in
        inr (
          rw (b, e)
            (subst
              (λ x.
                Path (Option (List ResultRow))
                  (some ((some (seven s.0).timestamp, some (seven s.0).value) ∷ []))
                  (some ((some x.timestamp, some x.value) ∷ [])))
              same refl)))
  | inr e ↦
      (let gone : ◌≡◌ {A = Option TimestampValue} none (some tv) = rw e at here in absurd (cc))
]
finds_row t w bs k s tv (Pins.by_triple a b c) here = absurd (cc)
finds_row edges w bs k s tv (also p) here = inl refl
finds_row objects w bs k s tv (also p) here = inl refl

pub select-keeps :
    (t : DataTable) (w : Where) (bs : Bindings) (s : ℕ × ℕ) → (run (select t w) bs s).1 ≡ s
select-keeps edges w bs s = refl
select-keeps objects (eq Column.id o) bs s = refl
select-keeps objects _ bs s = refl

other_row :
    (n : ℕ) (i : ℤ) (u : DataTable) (l : List ℤ)
    → ((u ≡ objects) × (l ≡ i ∷ []))
      ⊎ (row_of_key (if i ==ℤ pos 7 then suc n else n) u l ≡ row_of_key n u l)
other_row n i edges l = inr refl
other_row n i objects [] = inr refl
other_row n i objects (j ∷ k ∷ l) = inr refl
other_row n i objects (j ∷ []) = elim (Bool-cases (i ==ℤ pos 7)) [
  | inr e ↦ inr (rw e refl)
  | inl e ↦ (elim (Bool-cases (j ==ℤ pos 7)) [
    | inl f ↦
        inl
          (refl, subst (λ x. j ∷ [] ≡ x ∷ []) (==ℤ→eq j (pos 7) f ∙ sym (==ℤ→eq i (pos 7) e)) refl)
    | inr f ↦ inr (rw (e, f) refl)
  ])
]

update_other :
    (t : DataTable) (x y : Operand) (v w v' : Where) (bs : Bindings) (s : ℕ × ℕ)
    → (run (update t x y (and (and v w) v')) bs s).1 ≡ s
update_other edges x y v w v' bs s = refl
update_other objects x y v w v' bs s = refl

pub row_touched :
    (stmt : Statement) (t : DataTable) (bs : Bindings) (k : List ℤ) (s : ℕ × ℕ)
    → Touches stmt t bs k
    → (u : DataTable) (l : List ℤ)
    → ((u ≡ t) × (l ≡ k)) ⊎ (row_of_key (run stmt bs s).1.0 u l ≡ row_of_key s.0 u l)
row_touched stmt t bs k s (updated (also (by_id {i = i} b))) u l = rw b (other_row s.0 i u l)
row_touched stmt t bs k s (updated (also (Pins.by_triple a b c))) u l = inr refl
row_touched stmt t bs k s (updated {a = x} {b = y} (also {v = v'} (also {v = v} {w = w} p))) u l =
    inr (rw (update_other t x y w v v' bs s) refl)
row_touched stmt t bs k s (updated (by_id b)) u l = inr refl
row_touched stmt t bs k s (updated (Pins.by_triple a b c)) u l = inr refl
row_touched stmt t bs k s (Touches.deleted p) u l = inr refl
row_touched stmt t bs k s (Touches.inserted_object b) u l = inr refl
row_touched stmt t bs k s (Touches.inserted_edge a b c) u l = inr refl

pub keeps_beginning : (stmt : Statement) (bs : Bindings) (s : ℕ × ℕ) → (run stmt bs s).1.1 ≡ s.1
keeps_beginning (select objects (eq Column.id o)) bs s = refl
keeps_beginning (update objects x y (and (eq Column.id o) w)) bs s = refl
keeps_beginning _ bs s = refl

-- The connection behaves as PostgreSQL documents it.
unfoldable pub one_row_lem : KeyedRows one_row
one_row_lem = record {
  row = λ s t k. row_of_key s.0 t k;
  begun = λ s t k. row_of_key s.1 t k;
  in_range = λ s t k tv h. row_in_range s.0 t k tv h;
  finds = finds_row;
  reads_only = λ t w bs s u l. rw (select-keeps t w bs s) refl;
  touches = row_touched;
  keeps_begun = λ stmt bs s u l. rw (keeps_beginning stmt bs s) refl;
  starts = λ s u l. (refl, refl);
  commits = λ s. inl (λ u l. refl);
  aborts = λ s u l. refl;
}
