-- ===== src/Measurements/Progress.antt =====
-- The calls of `Report` never block one another for good: who holds `vector_lock` can go on.
use taobench.Prelude.{
  ℕ, List, [], ◌∷◌, ◌≡◌, ◌⊎◌, inl, inr, refl, Bool, true, false, All, arith, Bool-cases, leb,
}
use taobench.Measurements.Concurrent.{
  entered, counted, summed, min_loaded, min_done, max_loaded, max_done, locked, pushed, finished,
  Cells, Pc, Call, Move, add_count, add_sum, load_min, keep_min, swap_min, reload_min, load_max,
  keep_max, swap_max, reload_max, lock, push, unlock, Changed, here, there, Step, step, Reach, stay,
  then_step, calls, fresh_cells,
}

-- Between `lock` and `unlock`.
abbrev pub is_holding : Pc → Bool
is_holding locked = true
is_holding pushed = true
is_holding _ = false

abbrev HasHolder : List Call → Type 0
HasHolder [] = ⊥
HasHolder (c ∷ cs) = (is_holding c.pc ≡ true) ⊎ HasHolder cs

-- A lock that is held is held by one of the calls.
abbrev IsHeld : Cells → List Call → Type 0
IsHeld s cs = s.vector_lock ≡ true → HasHolder cs

HasHolder-new :
    {l : ℕ} {p q : Pc} {cs ds : List Call}
    → Changed l p q cs ds
    → is_holding q ≡ true
    → HasHolder ds
HasHolder-new here e = inl e
HasHolder-new (there ch) e = inr (HasHolder-new ch e)

HasHolder-kept :
    {l : ℕ} {p q : Pc} {cs ds : List Call}
    → Changed l p q cs ds
    → is_holding p ≡ false
    → HasHolder cs
    → HasHolder ds
HasHolder-kept here e (inl h) = absurd (cc)
HasHolder-kept here e (inr h) = inr h
HasHolder-kept (there ch) e (inl h) = inl h
HasHolder-kept (there ch) e (inr h) = inr (HasHolder-kept ch e h)

Move-IsHeld :
    {l : ℕ} {s t : Cells} {p q : Pc} {cs ds : List Call}
    → Move l s p t q
    → Changed l p q cs ds
    → IsHeld s cs
    → IsHeld t ds
Move-IsHeld (lock free) ch held e = HasHolder-new ch refl
Move-IsHeld push ch held e = HasHolder-new ch refl
Move-IsHeld unlock ch held e = absurd (cc)
Move-IsHeld add_count ch held e = HasHolder-kept ch refl (held e)
Move-IsHeld add_sum ch held e = HasHolder-kept ch refl (held e)
Move-IsHeld (load_min v h) ch held e = HasHolder-kept ch refl (held e)
Move-IsHeld (keep_min v h) ch held e = HasHolder-kept ch refl (held e)
Move-IsHeld (swap_min v h h') ch held e = HasHolder-kept ch refl (held e)
Move-IsHeld (reload_min v w h h') ch held e = HasHolder-kept ch refl (held e)
Move-IsHeld (load_max v h) ch held e = HasHolder-kept ch refl (held e)
Move-IsHeld (keep_max v h) ch held e = HasHolder-kept ch refl (held e)
Move-IsHeld (swap_max v h h') ch held e = HasHolder-kept ch refl (held e)
Move-IsHeld (reload_max v w h h') ch held e = HasHolder-kept ch refl (held e)

Reach-IsHeld :
    {s : Cells} {cs : List Call} {t : Cells} {ds : List Call}
    → IsHeld s cs
    → Reach s cs t ds
    → IsHeld t ds
Reach-IsHeld held stay = held
Reach-IsHeld held (then_step r (step m ch)) = Move-IsHeld m ch (Reach-IsHeld held r)

abbrev CanMove : Cells → List Call → Type 0
CanMove s cs = (t : Cells) × (ds : List Call) × Step s cs t ds

CanMove-there : (s : Cells) (c : Call) (cs : List Call) → CanMove s cs → CanMove s (c ∷ cs)
CanMove-there s c cs (t, ds, step m ch) = (t, c ∷ ds, step m (there ch))

holder_at :
    (s : Cells) (l : ℕ) (p : Pc) (cs : List Call)
    → is_holding p ≡ true
    → CanMove s (record { latency = l; pc = p } ∷ cs)
holder_at s l locked cs e = (_, _, step push here)
holder_at s l pushed cs e = (_, _, step unlock here)
holder_at s l _ cs e = absurd (cc)

holder_moves : (s : Cells) (cs : List Call) → HasHolder cs → CanMove s cs
holder_moves s [] h = absurd h
holder_moves s (c ∷ cs) (inl e) = holder_at s c.latency c.pc cs e
holder_moves s (c ∷ cs) (inr h) = CanMove-there s c cs (holder_moves s cs h)

-- Where the lock is free, every call that has not returned can take its next step.
moves :
    (s : Cells) (l : ℕ) (p : Pc) (cs : List Call)
    → s.vector_lock ≡ false
    → (p ≡ finished) ⊎ CanMove s (record { latency = l; pc = p } ∷ cs)
moves s l entered cs free = inr (_, _, step add_count here)
moves s l counted cs free = inr (_, _, step add_sum here)
moves s l summed cs free = inr (_, _, step (load_min s.now.latency_min (inl refl)) here)
moves s l (min_loaded v) cs free = elim (Bool-cases (leb v l)) [
  | inl e ↦ inr (_, _, step (keep_min v (ground arith)) here)
  | inr e ↦ inr (_, _, step (reload_min v s.now.latency_min (ground arith) (inl refl)) here)
]
moves s l min_done cs free = inr (_, _, step (load_max s.now.latency_max (inl refl)) here)
moves s l (max_loaded v) cs free = elim (Bool-cases (leb l v)) [
  | inl e ↦ inr (_, _, step (keep_max v (ground arith)) here)
  | inr e ↦ inr (_, _, step (reload_max v s.now.latency_max (ground arith) (inl refl)) here)
]
moves s l max_done cs free = inr (_, _, step (lock free) here)
moves s l locked cs free = inr (_, _, step push here)
moves s l pushed cs free = inr (_, _, step unlock here)
moves s l finished cs free = inl refl

abbrev pub AllReturned : List Call → Type 0
AllReturned cs = All (λ c. c.pc ≡ finished) cs

free_moves : (s : Cells) (cs : List Call) → s.vector_lock ≡ false → AllReturned cs ⊎ CanMove s cs
free_moves s [] free = inl tt
free_moves s (c ∷ cs) free = elim (moves s c.latency c.pc cs free) [
  | inr m ↦ inr m
  | inl e ↦ (elim (free_moves s cs free) [
    | inl es ↦ inl (e, es)
    | inr m ↦ inr (CanMove-there s c cs m)
  ])
]

no_holder : (ls : List ℕ) → IsHeld fresh_cells (calls ls)
no_holder ls e = absurd (cc)

-- In every state that any order of the steps of the calls on an operation leads to, all calls have
-- returned or one of them can take a step: the lock is never held by nobody, and the loops never
-- wait.
pub never_stuck :
    (ls : List ℕ) (t : Cells) (cs : List Call)
    → Reach fresh_cells (calls ls) t cs
    → AllReturned cs ⊎ ((u : Cells) × (ds : List Call) × Step t cs u ds)
never_stuck ls t cs r = elim (Bool-cases t.vector_lock) [
  | inl e ↦ inr (holder_moves t cs (Reach-IsHeld (no_holder ls) r e))
  | inr e ↦ free_moves t cs e
]
