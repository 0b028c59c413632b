-- ===== src/Tests/Threads.antt =====
-- The theorems about the threads of an experiment at concrete inputs.
use mathlib.Core.List.{Perm}
use taobench.Prelude.{◌≤◌, List, [], ◌∷◌, ◌≡◌, ◌≢◌, ◌⊎◌, inl, inr, refl, arith, true, false}
use taobench.Measurements.{cleared, uint64_max}
use taobench.Measurements.Concurrent.{
  Cells, max_done, locked, Call, Step, add_count, add_sum, load_min, keep_min, swap_min, reload_min,
  load_max, keep_max, swap_max, reload_max, lock, push, unlock, here, there, step, Reach, stay,
  then_step, calls, fresh_cells,
}
use taobench.Measurements.Past.{record_all}
use taobench.Measurements.Finished.{returned, reports_in_order}
use taobench.Measurements.Progress.{AllReturned, never_stuck}
use taobench.Clients
use taobench.Clients.{
  Wake, notified, timed_out, top, waiting, ended, Experiment, status_body, ask, wake, client_ends,
  client_throws, IsProper, turn, await, notify, time_out, end_client, throw_client, started,
}
use taobench.Clients.Ending.{status_waits_for_all}
use taobench.Clients.Closing.{steps, status_ends}
use taobench.Clients.Blocking.{thrown_client_blocks, spurious_ends_early}

-- Two calls at once: the second loses a race for the least latency, and loads an old greatest one.
abbrev both_returned : Cells
both_returned = record {
  now = record {
    count = 2;
    latency_sum = 8;
    latency_min = 3;
    latency_max = 5;
    latencies = 3 ∷ 5 ∷ [];
  };
  old_mins = uint64_max ∷ [];
  old_maxs = 0 ∷ [];
  vector_lock = false;
}

-- The second call holds the lock, and the first waits for it.
abbrev lock_held : Cells
lock_held = record {
  now = record { count = 2; latency_sum = 8; latency_min = 3; latency_max = 5; latencies = [] };
  old_mins = uint64_max ∷ [];
  old_maxs = 0 ∷ [];
  vector_lock = true;
}

abbrev one_waits : List Call
one_waits = record { latency = 5; pc = max_done } ∷ record { latency = 3; pc = locked } ∷ []

to_lock : Reach fresh_cells (calls (5 ∷ 3 ∷ [])) lock_held one_waits
to_lock =
    then_step
      (then_step
        (then_step
          (then_step
            (then_step
              (then_step
                (then_step
                  (then_step
                    (then_step
                      (then_step
                        (then_step
                          (then_step
                            (then_step
                              (then_step (then_step stay (step add_count here))
                                (step add_count (there here)))
                              (step add_sum here))
                            (step add_sum (there here)))
                          (step (load_min uint64_max (inl refl)) here))
                        (step (load_min uint64_max (inl refl)) (there here)))
                      (step (swap_min uint64_max (omega arith) refl) (there here)))
                    (step (reload_min uint64_max 3 (omega arith) (inl refl)) here))
                  (step (keep_min 3 (omega arith)) here))
                (step (load_max 0 (inl refl)) here))
              (step (swap_max 0 (omega arith) refl) here))
            (step (load_max 0 (inr (inl refl))) (there here)))
          (step (reload_max 0 5 (omega arith) (inl refl)) (there here)))
        (step (keep_max 5 (omega arith)) (there here)))
      (step (lock refl) (there here))

interleaved : Reach fresh_cells (calls (5 ∷ 3 ∷ [])) both_returned (returned (calls (5 ∷ 3 ∷ [])))
interleaved =
    then_step
      (then_step
        (then_step
          (then_step (then_step to_lock (step push (there here))) (step unlock (there here)))
          (step (lock refl) here))
        (step push here))
      (step unlock here)

reports_in_order_example :
    Perm both_returned.now.latencies (5 ∷ 3 ∷ [])
    × (both_returned.now ≡ record_all (3 ∷ 5 ∷ []) cleared)
reports_in_order_example = reports_in_order (5 ∷ 3 ∷ []) both_returned interleaved

never_stuck_example :
    AllReturned one_waits ⊎ ((u : Cells) × (ds : List Call) × Step lock_held one_waits u ds)
never_stuck_example = never_stuck (5 ∷ 3 ∷ []) lock_held one_waits to_lock

-- One client: the status thread waits, the client counts down, and the status thread is notified.
abbrev waits : Experiment
waits = ask (status_body false false (started 1))

abbrev counted_down : Experiment
counted_down = client_ends 0 waits

abbrev at_its_end : Experiment
at_its_end = status_body false true (wake notified counted_down)

to_count_down : Clients.Reach IsProper (started 1) counted_down
unfolding status_body ask client_ends
to_count_down =
    Clients.then_step
      (Clients.then_step (Clients.then_step Clients.stay (turn false false refl)) (await refl))
      (end_client 0 refl)

to_its_end : Clients.Reach IsProper counted_down at_its_end
unfolding status_body ask client_ends wake
to_its_end =
    Clients.then_step (Clients.then_step Clients.stay (notify tt refl refl)) (turn false true refl)

status_waits_for_all_example :
    (at_its_end.running ≡ 0) × (at_its_end.thrown ≡ 0) × (at_its_end.resets ≤ 1)
unfolding status_body ask client_ends wake
status_waits_for_all_example =
    status_waits_for_all 1 at_its_end
      (Clients.then_step (Clients.then_step to_count_down (notify tt refl refl))
        (turn false true refl))
      refl

status_ends_example :
    (steps to_its_end ≤ 4)
    × ((at_its_end.status ≡ ended) ⊎ ((g : Experiment) × Clients.Step IsProper at_its_end g))
unfolding status_body ask client_ends
status_ends_example = status_ends 1 counted_down at_its_end tt to_count_down refl refl to_its_end

abbrev thrown_out : Experiment
thrown_out = client_throws 0 (started 1)

thrown_client_blocks_example : (status_body false false thrown_out).status ≢ ended
unfolding client_throws status_body
thrown_client_blocks_example =
    thrown_client_blocks 1 thrown_out (status_body false false thrown_out)
      (Clients.then_step Clients.stay (throw_client 0 refl)) (omega arith)
      (Clients.then_step Clients.stay (turn false false refl))

spurious_ends_early_example :
    (e : Experiment) × Clients.Reach (λ w. Unit {0}) (started 3) e
    × (e.status ≡ ended)
    × (e.running ≡ 3)
    × (e.resets ≡ 0)
spurious_ends_early_example = spurious_ends_early 2
