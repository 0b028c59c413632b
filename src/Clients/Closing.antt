-- ===== src/Clients/Closing.antt =====
-- That the status thread ends once the clients have.
use taobench.Prelude.{
  ℕ, suc, ◌+◌, ◌≤◌, ◌<◌, ◌≡◌, ◌⊎◌, inl, inr, refl, ◌∙◌, Bool, true, false, arith,
}
use taobench.Clients.{
  Wake, notified, spurious, timed_out, must_wait, woken, StatusPc, top, asking, waiting, ended,
  Experiment, status_body, ask, wake, Step, turn, await, notify, stir, time_out, end_client,
  throw_client, Reach, stay, then_step, started,
}
use taobench.Clients.Ending.{Inv, Reach-Inv, started-Inv}

-- How far the status thread is from its end once the clients have gone.
abbrev measure : StatusPc → ℕ
measure ended = 0
measure (top true) = 1
measure asking = 2
measure (top false) = 3
measure waiting = 4

-- The number of steps of a run.
unfoldable pub steps : {W : Wake → Type 0} {e f : Experiment} → Reach W e f → ℕ
steps stay = 0
steps (then_step r st) = suc (steps r)

left : Experiment → ℕ
left e = e.running + e.thrown

turn-closer :
    (w d : Bool) (e : Experiment)
    → e.status ≡ top d
    → (measure (status_body w d e).status < measure e.status) × (left (status_body w d e) ≡ left e)
unfolding status_body left
turn-closer w d e h = ground arith

ask-closer :
    (e : Experiment)
    → Inv e
    → left e ≡ 0
    → e.status ≡ asking
    → measure (ask e).status < measure e.status
unfolding ask must_wait left
ask-closer e inv none h = ground (arith, inv.counted)

wake-closer :
    (w : Wake) (e : Experiment) → e.status ≡ waiting → measure (wake w e).status < measure e.status
unfolding wake woken
wake-closer notified e h = ground arith
wake-closer spurious e h = ground arith
wake-closer timed_out e h = ground arith

Step-closer :
    {W : Wake → Type 0} {e f : Experiment}
    → Inv e
    → left e ≡ 0
    → Step W e f
    → (measure f.status < measure e.status) × (left f ≡ 0)
unfolding left
Step-closer {e = e} inv none (turn w d h) =
    let (closer, same) = turn-closer w d e h in (closer, unfold left in (same ∙ none))
Step-closer {e = e} inv none (await h) = (ask-closer e inv none h, unfold ask in none)
Step-closer {e = e} inv none (notify w h k) = (wake-closer notified e h, unfold wake in none)
Step-closer {e = e} inv none (stir w h) = (wake-closer spurious e h, unfold wake in none)
Step-closer {e = e} inv none (time_out w h) = (wake-closer timed_out e h, unfold wake in none)
Step-closer inv none (end_client others h) = absurd (omega arith)
Step-closer inv none (throw_client others h) = absurd (omega arith)

Reach-closer :
    {W : Wake → Type 0} {e f : Experiment}
    → Inv e
    → left e ≡ 0
    → (r : Reach W e f) → (steps r + measure f.status ≤ measure e.status) × (left f ≡ 0)
unfolding steps
Reach-closer inv none stay = (omega arith, none)
Reach-closer inv none (then_step r st) =
    let (closer, none') = Reach-closer inv none r in
    let (closer', none'') = Step-closer (Reach-Inv inv r) none' st in (omega arith, none'')

measure_le : (s : StatusPc) → measure s ≤ 4
measure_le ended = omega arith
measure_le (top true) = omega arith
measure_le (top false) = omega arith
measure_le asking = omega arith
measure_le waiting = omega arith

goes_on :
    {W : Wake → Type 0} (e : Experiment) (s : StatusPc)
    → W timed_out
    → e.status ≡ s
    → (e.status ≡ ended) ⊎ ((f : Experiment) × Step W e f)
goes_on e ended t h = inl h
goes_on e (top d) t h = inr (_, turn false d h)
goes_on e asking t h = inr (_, await h)
goes_on e waiting t h = inr (_, time_out t h)

-- Once every client has counted down, the status thread ends: whatever its wake-ups, it makes at
-- most four more steps, and as long as it has not ended it can make one, where a wait can time out.
pub status_ends :
    {W : Wake → Type 0} (n : ℕ) (e f : Experiment)
    → W timed_out
    → Reach W (started n) e
    → e.running ≡ 0
    → e.thrown ≡ 0
    → (r : Reach W e f) → (steps r ≤ 4) × ((f.status ≡ ended) ⊎ ((g : Experiment) × Step W f g))
unfolding left
status_ends n e f t r none none' q =
    let (closer, _) = Reach-closer (Reach-Inv (started-Inv n) r) (omega arith) q in
    (omega (arith, measure_le e.status), goes_on f f.status t refl)
