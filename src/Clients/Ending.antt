-- ===== src/Clients/Ending.antt =====
-- When the status thread ends.
use taobench.Prelude.{
  ℕ, suc, ◌+◌, ◌≤◌, pos, ◌≡◌, refl, sym, ap, ◌∙◌, Bool, true, if◌then◌else◌, arith, subst,
}
use taobench.Clients.{
  decrement, Wake, notified, timed_out, count_down, must_wait, woken, StatusPc, top, asking, ended,
  Experiment, status_body, ask, wake, client_ends, client_throws, IsProper, Step, turn, await,
  notify, stir, time_out, end_client, throw_client, Reach, stay, then_step, started,
}

-- The latch counts the clients that have not counted down, and the status thread resets once.
pub record Inv (e : Experiment) : Type 0 where
  pub counted : e.latch.count ≡ pos (e.running + e.thrown)
  pub once : e.resets ≡ (if e.has_reset then 1 else 0)

status_body-Inv :
    (past_warmup done : Bool) (e : Experiment) → Inv e → Inv (status_body past_warmup done e)
unfolding status_body
status_body-Inv past_warmup done e inv = record { counted = ground arith; once = ground arith }

end_client-Inv :
    (others : ℕ) (e : Experiment) → e.running ≡ suc others → Inv e → Inv (client_ends others e)
unfolding client_ends count_down
end_client-Inv others e h inv = record {
  counted =
      (let one_less : e.running + e.thrown ≡ suc (others + e.thrown) = omega arith in
        ap decrement (inv.counted ∙ ap pos one_less));
  once = inv.once;
}

throw_client-Inv :
    (others : ℕ) (e : Experiment) → e.running ≡ suc others → Inv e → Inv (client_throws others e)
unfolding client_throws
throw_client-Inv others e h inv = record {
  counted = inv.counted ∙ ap pos (omega arith);
  once = inv.once;
}

pub Step-Inv : {W : Wake → Type 0} {e f : Experiment} → Step W e f → Inv e → Inv f
Step-Inv {e = e} (turn w d h) inv = status_body-Inv w d e inv
Step-Inv (await h) inv = unfold ask in record { counted = inv.counted; once = inv.once }
Step-Inv (notify w h k) inv = unfold wake in record { counted = inv.counted; once = inv.once }
Step-Inv (stir w h) inv = unfold wake in record { counted = inv.counted; once = inv.once }
Step-Inv (time_out w h) inv = unfold wake in record { counted = inv.counted; once = inv.once }
Step-Inv {e = e} (end_client others h) inv = end_client-Inv others e h inv
Step-Inv {e = e} (throw_client others h) inv = throw_client-Inv others e h inv

pub Reach-Inv : {W : Wake → Type 0} {e f : Experiment} → Inv e → Reach W e f → Inv f
Reach-Inv inv stay = inv
Reach-Inv inv (then_step r st) = Step-Inv st (Reach-Inv inv r)

pub started-Inv : (n : ℕ) → Inv (started n)
started-Inv n = record { counted = ap pos (omega arith); once = refl }

-- Where no wake-up is spurious: a notification, the last round and the end wait for all clients.
abbrev IsLate : StatusPc → Type 0
IsLate (top true) = Unit
IsLate ended = Unit
IsLate _ = ⊥

record Safe (e : Experiment) : Type 0 where
  inv : Inv e
  notified_last : e.latch.is_notified ≡ true → e.running + e.thrown ≡ 0
  late_last : IsLate e.status → e.running + e.thrown ≡ 0

started-Safe : (n : ℕ) → Safe (started n)
started-Safe n = record {
  inv = started-Inv n;
  notified_last = λ h. cc;
  late_last = λ h. elim h [ ];
}

turn-Safe :
    (past_warmup done : Bool) (e : Experiment)
    → e.status ≡ top done
    → Safe e
    → Safe (status_body past_warmup done e)
unfolding status_body
turn-Safe w d e h s = record {
  inv = status_body-Inv w d e s.inv;
  notified_last = λ k. ground (arith, s.notified_last);
  late_last = λ k. ground (arith, s.late_last);
}

ask-Safe : (e : Experiment) → e.status ≡ asking → Safe e → Safe (ask e)
unfolding ask must_wait
ask-Safe e h s = record {
  inv = record { counted = s.inv.counted; once = s.inv.once };
  notified_last = s.notified_last;
  late_last = λ k. ground (arith, s.inv.counted);
}

wake-Safe :
    (w : Wake) (e : Experiment)
    → (woken w ≡ true → e.running + e.thrown ≡ 0)
    → Safe e
    → Safe (wake w e)
unfolding wake
wake-Safe w e h s = record {
  inv = record { counted = s.inv.counted; once = s.inv.once };
  notified_last = λ k. cc;
  late_last = λ k. ground (arith, h);
}

client_ends-Safe :
    (others : ℕ) (e : Experiment) → e.running ≡ suc others → Safe e → Safe (client_ends others e)
unfolding client_ends count_down
client_ends-Safe others e h s = record {
  inv = end_client-Inv others e h s.inv;
  notified_last = λ k. ground (arith, s.notified_last, (end_client-Inv others e h s.inv).counted);
  late_last = λ k. omega (arith, s.late_last k);
}

client_throws-Safe :
    (others : ℕ) (e : Experiment) → e.running ≡ suc others → Safe e → Safe (client_throws others e)
unfolding client_throws
client_throws-Safe others e h s = record {
  inv = throw_client-Inv others e h s.inv;
  notified_last = λ k. omega (arith, s.notified_last k);
  late_last = λ k. omega (arith, s.late_last k);
}

Step-Safe : {e f : Experiment} → Step IsProper e f → Safe e → Safe f
Step-Safe {e = e} (turn w d h) s = turn-Safe w d e h s
Step-Safe {e = e} (await h) s = ask-Safe e h s
Step-Safe {e = e} (notify w h k) s = wake-Safe notified e (λ _. s.notified_last k) s
Step-Safe (stir w h) s = elim w [ ]
Step-Safe {e = e} (time_out w h) s = wake-Safe timed_out e (λ c. unfold woken in cc) s
Step-Safe {e = e} (end_client others h) s = client_ends-Safe others e h s
Step-Safe {e = e} (throw_client others h) s = client_throws-Safe others e h s

Reach-Safe : {e f : Experiment} → Safe e → Reach IsProper e f → Safe f
Reach-Safe s stay = s
Reach-Safe s (then_step r st) = Step-Safe st (Reach-Safe s r)

-- Where no wake-up of the condition variable is spurious, a status thread that has ended has waited
-- for every client, none has been left by an exception, and `Reset` has been called at most once.
pub status_waits_for_all :
    (n : ℕ) (e : Experiment)
    → Reach IsProper (started n) e
    → e.status ≡ ended
    → (e.running ≡ 0) × (e.thrown ≡ 0) × (e.resets ≤ 1)
status_waits_for_all n e r h =
    let s = Reach-Safe (started-Safe n) r in
    let none_left = s.late_last (subst IsLate (sym h) tt) in
    (omega arith, omega arith, ground (arith, s.inv.once))
