-- ===== src/Clients.antt =====
-- src/countdown_latch.h, `ClientThread` of src/client.h and `StatusThread` of src/benchmark.cc: the
-- threads of an experiment. The clients and the status thread are the steps of a relation; what the
-- clocks and the condition variable decide is left open.
pub mod Ending
pub mod Closing
pub mod Blocking
pub mod Counts
use taobench.Prelude.{
  ℕ, zero, suc, ◌+◌, ℤ, pos, negsuc, ltb_ℤ, List, [], ◌∷◌, ◌≡◌, Bool, true, false, if◌then◌else◌,
  not, ◌&&◌, Option, none, some,
}

-- `--count_`.
abbrev pub decrement : ℤ → ℤ
decrement (pos zero) = negsuc 0
decrement (pos (suc n)) = pos n
decrement (negsuc n) = negsuc (suc n)

-- How `wait_for` ends: by a notification, by a wake-up without one, or at the end of its time.
pub data Wake : Type 0 where
  notified spurious timed_out : Wake

-- `CountDownLatch`, and whether the waiting thread has been notified.
pub record Latch : Type 0 where
  pub count : ℤ
  pub is_notified : Bool

-- The constructor.
abbrev pub new_latch : ℤ → Latch
new_latch n = record { count = n; is_notified = false }

-- `CountDown`.
unfoldable pub count_down : Latch → Latch
count_down l = record {
  count = decrement l.count;
  is_notified = if ltb_ℤ (pos 0) (decrement l.count) then l.is_notified else true;
}

-- The test of `AwaitFor` under the lock: whether it waits.
unfoldable pub must_wait : Latch → Bool
must_wait l = ltb_ℤ (pos 0) l.count

-- The result of `wait_for(...) == no_timeout`; no predicate is tested again.
unfoldable pub woken : Wake → Bool
woken notified = true
woken spurious = true
woken timed_out = false

-- `StatusThread`: at the top of its loop with `done`, at the call of `AwaitFor`, in its wait, or at
-- its end.
pub data StatusPc : Type 0 where
  top : Bool → StatusPc
  asking waiting ended : StatusPc

-- An experiment: its latch, the clients that are still in `ClientThread` and those that an exception
-- has ended, the status thread with `reset_post_warmup`, and how often it has called `Reset`.
pub record Experiment : Type 0 where
  pub latch : Latch
  pub running : ℕ
  pub thrown : ℕ
  pub status : StatusPc
  pub has_reset : Bool
  pub resets : ℕ

-- The body of the loop of `StatusThread` up to the test of `done`.
unfoldable pub status_body : Bool → Bool → Experiment → Experiment
status_body past_warmup done e =
    if not e.has_reset && past_warmup
    then record e {
      has_reset = true;
      resets = e.resets + 1;
      status = if done then ended else asking;
    }
    else record e { status = if done then ended else asking }

-- `AwaitFor` up to the wait.
unfoldable pub ask : Experiment → Experiment
unfolding must_wait
ask e = record e { status = if must_wait e.latch then waiting else top true }

-- The end of a wait.
unfoldable pub wake : Wake → Experiment → Experiment
unfolding woken
wake w e = record e { status = top (woken w); latch = record (e.latch) { is_notified = false } }

-- The end of a `ClientThread`, and of one that an exception leaves before `CountDown`.
unfoldable pub client_ends : ℕ → Experiment → Experiment
unfolding count_down
client_ends others e = record e { running = others; latch = count_down e.latch }

unfoldable pub client_throws : ℕ → Experiment → Experiment
client_throws others e = record e { running = others; thrown = e.thrown + 1 }

-- A wake-up that is not spurious.
abbrev pub IsProper : Wake → Type 0
IsProper spurious = ⊥
IsProper _ = Unit

-- A step of an experiment, where the wake-ups are those of `W`.
pub data Step (W : Wake → Type 0) (e : Experiment) : Experiment → Type 0 where
  turn : (past_warmup done : Bool) → e.status ≡ top done → Step W e (status_body past_warmup done e)
  await : e.status ≡ asking → Step W e (ask e)
  notify : W notified → e.status ≡ waiting → e.latch.is_notified ≡ true → Step W e (wake notified e)
  stir : W spurious → e.status ≡ waiting → Step W e (wake spurious e)
  time_out : W timed_out → e.status ≡ waiting → Step W e (wake timed_out e)
  end_client : (others : ℕ) → e.running ≡ suc others → Step W e (client_ends others e)
  throw_client : (others : ℕ) → e.running ≡ suc others → Step W e (client_throws others e)

pub data Reach (W : Wake → Type 0) (e : Experiment) : Experiment → Type 0 where
  stay : Reach W e e
  then_step : {f g : Experiment} → Reach W e f → Step W f g → Reach W e g

-- An experiment with `n` clients, where the status thread is about to start.
abbrev pub started : ℕ → Experiment
started n = record {
  latch = new_latch (pos n);
  running = n;
  thrown = 0;
  status = top false;
  has_reset = false;
  resets = 0;
}

-- A turn of the loop of `ClientThread`: whether the request succeeded, whether the time of the
-- experiment was over after it, and whether it took longer than its share.
pub record Turn : Type 0 where
  pub succeeded : Bool
  pub is_over : Bool
  pub is_late : Bool

-- The counters are `int`; their overflow is not modelled.
pub record ClientThreadInfo : Type 0 where
  pub completed_ops : ℕ
  pub overtime_ops : ℕ
  pub failed_ops : ℕ

abbrev pub no_ops : ClientThreadInfo
no_ops = record { completed_ops = 0; overtime_ops = 0; failed_ops = 0 }

abbrev pub after_request : Bool → ClientThreadInfo → ClientThreadInfo
after_request true i = record i { completed_ops = i.completed_ops + 1 }
after_request false i = record i { failed_ops = i.failed_ops + 1 }

-- The loop of `ClientThread`; it goes on where the turns end before the time is over.
unfoldable pub client_loop : List Turn → ClientThreadInfo → Option ClientThreadInfo
client_loop [] i = none
client_loop (t ∷ ts) i = elim t.is_over [
  | true ↦ some (after_request t.succeeded i)
  | false ↦
      (let j = after_request t.succeeded i in
        client_loop ts (if t.is_late then record j { overtime_ops = j.overtime_ops + 1 } else j))
]
