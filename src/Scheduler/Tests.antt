-- ===== src/Scheduler/Tests.antt =====
-- Three processes in the nodes 16, 48 and 32, of which the last is running.
use experimental_kernel.Common.{
  ℕ, ◌*◌, ◌<◌, ◌≡◌, refl, List, [], ◌∷◌, arith, ◌==◌, if◌then◌else◌, length,
}
use experimental_kernel.Heap.{ok}
use experimental_kernel.Scheduler.{
  Process, Scheduler, switch_task, push_back, put_node, fork, init, push_back_current, new_process,
}
use experimental_kernel.Scheduler.Robin.{Chain, Switches, switch_task-Switches}
use experimental_kernel.Scheduler.Append.{IsList}
use experimental_kernel.Scheduler.Turns.{IsTurn, Given, AllRunning, switch_all, switch_all_reaches}
use experimental_kernel.Scheduler.Runs.{IsValid, Forks, fork-Forks}
use experimental_kernel.Scheduler.Reach.{here, next, switches, Reach-IsValid}

abbrev process : ℕ → Process
process n = record { pid = n; esp = 0x1000 * n; ebp = 0; eip = 0x2000 * n; page_directory = n }

abbrev pub three : Scheduler
three = record {
  nodes = λ p.
      if p == 16
      then record { process = process 1; next = 48 }
      else if p == 48
      then record { process = process 2; next = 32 }
      else record { process = process 3; next = 0 };
  first = 16;
  last = 32;
  current_process = 32;
  pid_counter = 4;
  current_page_directory = 3;
}

pub three-Chain : Chain three.nodes three.first (16 ∷ 48 ∷ 32 ∷ [])
three-Chain = (refl, omega arith, (refl, omega arith, (refl, omega arith, refl)))

-- From the last process the turn goes to the first.
switched : (switch_task three 0x777 0x888 0x999).0.current_process ≡ 16
unfolding switch_task
switched = refl

pushed :
    (s : Scheduler) × (push_back three 64 (process 4) ≡ ok s)
    × Chain s.nodes s.first (16 ∷ 48 ∷ 32 ∷ 64 ∷ [])
unfolding push_back
pushed = (
  _,
  refl,
  (refl, omega arith, (refl, omega arith, (refl, omega arith, (refl, omega arith, refl)))),
)

switch_task-Switches_example :
    Switches three (16 ∷ 48 ∷ 32 ∷ []) [] 0x777 0x888 0x999 (switch_task three 0x777 0x888 0x999)
switch_task-Switches_example =
    switch_task-Switches three (16 ∷ 48 ∷ []) [] 0x777 0x888 0x999 three-Chain (omega arith)

three-IsTurn : IsTurn three (16 ∷ 48 ∷ 32 ∷ []) 2
three-IsTurn = record { chain = three-Chain; inside = omega arith; current = refl }

three-IsList : IsList three (16 ∷ 48 ∷ 32 ∷ [])
three-IsList = record {
  chain = three-Chain;
  ends = refl;
  distinct = ((omega arith, (omega arith, tt)), ((omega arith, tt), (tt, tt)));
}

three-IsValid : IsValid three (16 ∷ 48 ∷ 32 ∷ [])
three-IsValid = record {
  list = three-IsList;
  turn = 2;
  inside = omega arith;
  current = refl;
  pids = (
    omega arith,
    (omega arith, (omega arith, tt)),
    (omega arith, (omega arith, tt), (omega arith, tt, tt)),
  );
}

switch_all_reaches_example :
    (k : ℕ) × (k < 3)
    × ((gs : List Given)
        → AllRunning gs
        → length gs ≡ k
        → (switch_all three gs).current_process ≡ 48)
switch_all_reaches_example =
    switch_all_reaches three (16 ∷ 48 ∷ 32 ∷ []) 2 1 three-IsTurn (omega arith)

fork-Forks_example :
    Forks three (16 ∷ 48 ∷ 32 ∷ []) 9 64 0x777 0x888 0x999 (fork three 9 64 0x777 0x888 0x999)
fork-Forks_example =
    fork-Forks three (16 ∷ 48 ∷ 32 ∷ []) 9 64 0x777 0x888 0x999 three-IsValid
      (omega arith, (omega arith, (omega arith, tt))) (omega arith) (omega arith)

abbrev empty : Scheduler
empty = record three { first = 0; last = 0; current_process = 0 }

abbrev started : Scheduler
started = record empty {
  nodes = put_node three.nodes 80 (record {
    process = record { pid = 1; esp = 0; ebp = 0; eip = 0; page_directory = 3 };
    next = 0;
  });
  first = 80;
  last = 80;
  current_process = 80;
  pid_counter = 2;
}

start : init empty 80 ≡ ok started
unfolding init push_back_current push_back new_process
start = refl

Reach-IsValid_example : (ps : List ℕ) × IsValid (switch_task started 0x777 0x888 0x999).0 ps
Reach-IsValid_example =
    Reach-IsValid empty started (switch_task started 0x777 0x888 0x999).0 80 refl (omega arith)
      start (next here (switches 0x777 0x888 0x999 refl))
