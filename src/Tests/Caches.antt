-- ===== src/Tests/Caches.antt =====
-- A memcached that keeps everything, and a database that leaves out the keys that it does not find.
use taobench.Prelude.{
  ℕ, pos, ◌==ℤ◌, Bytes, eq_bytes, eq_bytes_iff, eq_bytes_refl, List, [], ◌∷◌, ◌++◌, Bool, true,
  false, if◌then◌else◌, Option, none, some, inl, inr, refl, Bool-cases,
}
use taobench.Db.{Field, TimestampValue, DbOperation, k_ok, k_not_implemented, returns}
use taobench.Database.{Database}
use taobench.Cache.Client.{Memcached}
use taobench.Wrapper.Contract.{MemcachedLaws}
use taobench.Tests.Rows.{seven}

abbrev set_at : Bytes → Option Bytes → (Bytes → Option Bytes) → Bytes → Option Bytes
set_at k v s j = if eq_bytes j k then v else s j

abbrev pub memory : Memcached
memory = record {
  State = Bytes → Option Bytes;
  get = λ k s. (s k, s);
  set = λ k v s. (true, set_at k (some v) s);
  delete = λ k s. (true, set_at k none s);
}

unfoldable pub memory_lem : MemcachedLaws memory
memory_lem = record {
  stored = λ s j. s j;
  get_answers = λ k s. inr refl;
  get_keeps = λ k s j. inr refl;
  set_keeps = λ k v s j. elim (Bool-cases (eq_bytes j k)) [
    | inl e ↦ inr (inr ((eq_bytes_iff j k).0 e, rw e refl))
    | inr e ↦ inr (inl (rw e refl))
  ];
  delete_removes = λ k s deleted. rw (eq_bytes_refl k) refl;
  delete_keeps = λ k s j. elim (Bool-cases (eq_bytes j k)) [
    | inl e ↦ inl (rw e refl)
    | inr e ↦ inr (rw e refl)
  ];
}

abbrev pub empty_memory : Bytes → Option Bytes
empty_memory k = none

-- A database that answers a transaction with the rows of its reads of the object 7.
abbrev is_seven : List Field → Bool
is_seven (f ∷ []) = f.value ==ℤ pos 7
is_seven _ = false

abbrev found_in : ℕ → List DbOperation → List TimestampValue
found_in n [] = []
found_in n (op ∷ ops) =
    let rest = found_in n ops in if is_seven op.key then seven n ∷ rest else rest

abbrev pub one_object : Database
one_object = record {
  State = ℕ;
  execute = λ op buffer n. returns (k_not_implemented, buffer, n);
  execute_transaction = λ ops buffer ro n. returns (k_ok, buffer ++ found_in n ops, n);
  batch_insert = λ t ks vs n. returns (k_not_implemented, n);
  batch_read = λ t lo hi m buffer n. returns (k_not_implemented, buffer, n);
}
