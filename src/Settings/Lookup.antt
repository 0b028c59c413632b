-- ===== src/Settings/Lookup.antt =====
-- The class `Properties`, apart from `Load`.
use taobench.Prelude.{
  Bytes, eq_bytes, eq_bytes_iff, List, [], ◌∷◌, ◌≡◌, refl, Bool, true, false, if◌then◌else◌, Option,
  none, some, arith,
}
use taobench.Db.{Outcome, returns, faults, Fault}

abbrev pub Properties : Type 0
Properties = List (Bytes × Bytes)

-- `properties_.find(key)`.
unfoldable pub find : Bytes → Properties → Option Bytes
find key [] = none
find key ((k, v) ∷ ps) = if eq_bytes k key then some v else find key ps

unfoldable pub get_property : Bytes → Bytes → Properties → Bytes
unfolding find
get_property key default_value ps = elim (find key ps) [ none ↦ default_value | some v ↦ v ]

-- `operator[]`, which calls `at`.
unfoldable pub property_at : Bytes → Properties → Outcome Bytes
unfolding find
property_at key ps = elim (find key ps) [ none ↦ faults Fault.out_of_range | some v ↦ returns v ]

unfoldable pub set_property : Bytes → Bytes → Properties → Properties
set_property key value [] = (key, value) ∷ []
set_property key value ((k, v) ∷ ps) =
    let rest = set_property key value ps in
    if eq_bytes k key then (k, value) ∷ ps else (k, v) ∷ rest

unfoldable pub contains_key : Bytes → Properties → Bool
unfolding find
contains_key key ps = elim (find key ps) [ none ↦ false | some v ↦ true ]

-- A property that has been set is found, and no other has changed.
pub find-set_property :
    (k key value : Bytes) (ps : Properties)
    → find k (set_property key value ps) ≡ (if eq_bytes key k then some value else find k ps)
unfolding find set_property
find-set_property k key value [] = refl
find-set_property k key value ((k', v) ∷ ps) = grind (
  arith,
  find-set_property k key value ps,
  eq_bytes_iff k' key,
  eq_bytes_iff k' k,
  eq_bytes_iff key k,
)
