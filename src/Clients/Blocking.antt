-- ===== src/Clients/Blocking.antt =====
-- What keeps the status thread from its end, and what ends it too early.
use taobench.Prelude.{ℕ, suc, ◌≤◌, ◌<◌, ◌≡◌, ◌≢◌, refl, Bool, true, false, arith}
use taobench.Clients.{
  Wake, spurious, must_wait, woken, waiting, ended, Experiment, status_body, ask, wake, client_ends,
  client_throws, IsProper, Step, turn, await, notify, stir, time_out, end_client, throw_client,
  Reach, stay, then_step, started,
}
use taobench.Clients.Ending.{status_waits_for_all}

after_run : {W : Wake → Type 0} {e f g : Experiment} → Reach W e f → Reach W f g → Reach W e g
after_run r stay = r
after_run r (then_step q st) = then_step (after_run r q) st

body-thrown : (w d : Bool) (e : Experiment) → (status_body w d e).thrown ≡ e.thrown
unfolding status_body
body-thrown w d e = ground arith

Step-thrown : {W : Wake → Type 0} {e f : Experiment} → Step W e f → e.thrown ≤ f.thrown
Step-thrown {e = e} (turn w d h) = omega (arith, body-thrown w d e)
Step-thrown (await h) = unfold ask in omega arith
Step-thrown (notify w h k) = unfold wake in omega arith
Step-thrown (stir w h) = unfold wake in omega arith
Step-thrown (time_out w h) = unfold wake in omega arith
Step-thrown (end_client others h) = unfold client_ends in omega arith
Step-thrown (throw_client others h) = unfold client_throws in omega arith

Reach-thrown : {W : Wake → Type 0} {e f : Experiment} → Reach W e f → e.thrown ≤ f.thrown
Reach-thrown stay = omega arith
Reach-thrown (then_step r st) = omega (arith, Reach-thrown r, Step-thrown st)

-- If an exception has ended a client, the status thread never ends where no wake-up is spurious, since
-- the client has not counted down.
pub thrown_client_blocks :
    (n : ℕ) (e f : Experiment)
    → Reach IsProper (started n) e
    → 0 < e.thrown
    → Reach IsProper e f
    → f.status ≢ ended
thrown_client_blocks n e f r h q =
    λ done. absurd (omega (arith, Reach-thrown q, status_waits_for_all n f (after_run r q) done))

-- With any number of clients, one spurious wake-up of the status thread in its first wait ends it
-- while all of them run and before it has called `Reset`.
pub spurious_ends_early :
    (n : ℕ)
    → (e : Experiment) × Reach (λ w. Unit {0}) (started (suc n)) e
      × (e.status ≡ ended)
      × (e.running ≡ suc n)
      × (e.resets ≡ 0)
unfolding status_body ask wake must_wait woken
spurious_ends_early n = (
  status_body false true woken_up,
  then_step
      (then_step (then_step (then_step stay (turn false false refl)) (await refl))
        (stir tt is_waiting))
      (turn false true refl),
  refl,
  refl,
  refl,
)
  where
    asked : Experiment
    asked = ask (status_body false false (started (suc n)))

    is_waiting : asked.status ≡ waiting
    is_waiting = ground arith

    woken_up : Experiment
    woken_up = wake spurious asked
