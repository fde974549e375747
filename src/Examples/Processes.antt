-- ===== src/Examples/Processes.antt =====
-- A process in the global queue and an idle CPU.
use dionys_os.Prelude.{◌≡◌, ◌==◌, true, false, ok, arith, refl, [], ◌∷◌}
use dionys_os.Queue.{Queue, fifo}
use dionys_os.Queue.Layout.{entry, IsQueue}
use dionys_os.Scheduler.RunQueues.{State, look_for_process}
use dionys_os.Scheduler.Claiming.{Waiting, look_for_process-moves}

abbrev empty_queue : Queue
empty_queue = record { head = 0; tail = 0; queue_mode = fifo; node_count = 0 }

-- The process 700 waits in the node 40.
abbrev idle_cpu : State
idle_cpu = record {
  nodes = record {
    live = λ b. b == 40;
    value = λ b. 700;
    next = λ b. 0;
    prev = λ b. 0;
    priority = λ b. 3;
  };
  local_run_queue = λ c. empty_queue;
  sched_global_queue = record { head = 40; tail = 40; queue_mode = fifo; node_count = 1 };
  running_process = λ c. 0;
  list_state = record {
    nodes = record { live = λ b. false; value = λ b. 0; next = λ b. 0; flags = λ b. 0 };
    free_nodes = record { head = 0; tail = 0; node_count = 0; list_flags = 0 };
    static_pool_setup = true;
  };
  dead_processes = λ c. record { head = 0; tail = 0; node_count = 0; list_flags = 0 };
  live_process = λ p. true;
  priority = λ p. 3;
  current_state = λ p. 4;
  current_cpu = λ p. 0;
  ticks_taken = λ p. 0;
  start_time = λ p. 0;
}

one_waits : Waiting idle_cpu 50 1 (entry 40 700 3) [] []
one_waits = record {
  global_mode = refl;
  local_mode = refl;
  global = record {
    chain = (refl, (λ e. omega (arith, e)), refl, refl, refl, refl);
    distinct = (tt, tt);
    count = refl;
    small = omega arith;
    tail_ok = refl;
  };
  local = record { chain = refl; distinct = tt; count = refl; small = omega arith; tail_ok = tt };
  apart = tt;
  fresh_out = tt;
  fresh_given = λ e. omega (arith, e);
  held_given = λ e. omega (arith, e);
  room = omega arith;
}

look_for_process-moves_example :
    (t : State) × (look_for_process 50 1 idle_cpu ≡ ok tt t)
    × IsQueue t.nodes (t.local_run_queue 1) (entry 50 700 3 ∷ [])
    × (t.sched_global_queue.node_count ≡ 0)
look_for_process-moves_example =
    look_for_process-moves 50 1 (entry 40 700 3) [] [] idle_cpu one_waits
