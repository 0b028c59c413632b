-- ===== src/Clients/Counts.antt =====
-- What a client thread counts.
use taobench.Prelude.{
  ℕ, suc, ◌+◌, List, [], ◌∷◌, ◌++◌, ◌≡◌, refl, true, false, if◌then◌else◌, some, All, length, arith,
}
use taobench.Clients.{Turn, ClientThreadInfo, no_ops, after_request, client_loop}

abbrev pub successes : List Turn → ℕ
successes [] = 0
successes (t ∷ ts) = if t.succeeded then suc (successes ts) else successes ts

abbrev pub lates : List Turn → ℕ
lates [] = 0
lates (t ∷ ts) = if t.is_late then suc (lates ts) else lates ts

-- The turns before the time is over, the last one, and whatever is not reached.
from_turns :
    (ts : List Turn) (last : Turn) (rest : List Turn) (i : ClientThreadInfo)
    → All (λ t. t.is_over ≡ false) ts
    → last.is_over ≡ true
    → (j : ClientThreadInfo) × (client_loop (ts ++ last ∷ rest) i ≡ some j)
      × (j.completed_ops ≡ i.completed_ops + successes (ts ++ last ∷ []))
      × (j.completed_ops + j.failed_ops ≡ i.completed_ops + i.failed_ops + suc (length ts))
      × (j.overtime_ops ≡ i.overtime_ops + lates ts)
unfolding client_loop
from_turns [] last rest i hs h =
    (after_request last.succeeded i, rw h refl, ground arith, ground arith, ground arith)
from_turns (t ∷ ts) last rest i (g, gs) h =
    let j = after_request t.succeeded i in
    let k = if t.is_late then record j { overtime_ops = j.overtime_ops + 1 } else j in
    let (m, ran, completed, all, late) = from_turns ts last rest k gs h in
    (m, rw g ran, ground arith, ground arith, ground arith)

-- A client thread ends with the first request after which the time of the experiment is over: its
-- completed operations are the requests that succeeded, with the failed ones they are all its
-- requests, and the last request is never counted as overtime.
pub client_loop_lem :
    (ts : List Turn) (last : Turn) (rest : List Turn)
    → All (λ t. t.is_over ≡ false) ts
    → last.is_over ≡ true
    → (j : ClientThreadInfo) × (client_loop (ts ++ last ∷ rest) no_ops ≡ some j)
      × (j.completed_ops ≡ successes (ts ++ last ∷ []))
      × (j.completed_ops + j.failed_ops ≡ suc (length ts))
      × (j.overtime_ops ≡ lates ts)
client_loop_lem ts last rest hs h =
    let (j, ran, completed, all, late) = from_turns ts last rest no_ops hs h in
    (j, ran, omega arith, omega arith, omega arith)
