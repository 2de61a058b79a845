-- ===== src/Scheduler/Reach.antt =====
-- Any run of `fork` and `switchTask` after `init`.
use experimental_kernel.Common.{
  ℕ, ◌+◌, ◌%◌, ◌^◌, ◌<◌, ◌≡◌, refl, sym, ap, ◌∙◌, ◌≢◌, inl, inr, List, [], ◌∷◌, ◌++◌, arith, ◌==◌,
  ==→eq, ==→ne, Bool-cases, length,
}
use mathlib.Core.Path.{subst}
use experimental_kernel.Heap.{ok}
use experimental_kernel.Scheduler.{
  Process, Node, Scheduler, put_node, init, fork, switch_task, push_back_current, new_process,
  dummy_eip,
}
use experimental_kernel.Scheduler.Append.{Apart, last_or, push_back-Appends}
use experimental_kernel.Scheduler.Turns.{switch_task-IsTurn}
use experimental_kernel.Scheduler.Runs.{HasPids, HasPids-same, IsValid, fork-Forks}

-- What a switch leaves of the list and the pids.
record Same (s r : Scheduler) : Type 0 where
  same_last : r.last ≡ s.last
  same_counter : r.pid_counter ≡ s.pid_counter
  same_pids : (a : ℕ) → (r.nodes a).process.pid ≡ (s.nodes a).process.pid

put_node-pid :
    (nodes : ℕ → Node) (c a : ℕ) (node : Node)
    → node.process.pid ≡ (nodes c).process.pid
    → (put_node nodes c node a).process.pid ≡ (nodes a).process.pid
put_node-pid nodes c a node e = elim (Bool-cases (a == c)) [
  | inl here ↦ rw here (e ∙ ap (λ b. (nodes b).process.pid) (sym (==→eq a c here)))
  | inr other ↦ rw other
]

switch_task-Same : (s : Scheduler) (eip esp ebp : ℕ) → Same s (switch_task s eip esp ebp).0
unfolding switch_task
switch_task-Same s eip esp ebp = elim (Bool-cases (s.current_process == 0)) [
  | inl idle ↦
      rw (switch_task, idle)
        (record { same_last = refl; same_counter = refl; same_pids = λ a. refl })
  | inr running ↦ elim (Bool-cases (eip == dummy_eip)) [
    | inl resumed ↦
        rw (switch_task, running, resumed)
          (record { same_last = refl; same_counter = refl; same_pids = λ a. refl })
    | inr first ↦
        rw (switch_task, running, first)
          (record {
            same_last = refl;
            same_counter = refl;
            same_pids = λ a. put_node-pid s.nodes s.current_process a _ refl;
          })
  ]
]

-- A process that comes back from a switch goes on with nothing changed.
switch_task-resumed : (s : Scheduler) (esp ebp : ℕ) → (switch_task s dummy_eip esp ebp).0 ≡ s
unfolding switch_task
switch_task-resumed s esp ebp = ground arith

switch_task-IsValid :
    (s : Scheduler) (ps : List ℕ) (eip esp ebp : ℕ)
    → IsValid s ps
    → IsValid (switch_task s eip esp ebp).0 ps
switch_task-IsValid s ps eip esp ebp v = elim (Bool-cases (eip == dummy_eip)) [
  | inl resumed ↦
      subst (λ x. IsValid (switch_task s x esp ebp).0 ps) (sym (==→eq eip dummy_eip resumed))
        (subst (λ r. IsValid r ps) (sym (switch_task-resumed s esp ebp)) v)
  | inr real ↦
      let same = switch_task-Same s eip esp ebp in
      let r = (switch_task s eip esp ebp).0 in
      let t =
        switch_task-IsTurn s ps v.turn eip esp ebp
          (record { chain = v.list.chain; inside = v.inside; current = v.current })
          (==→ne eip dummy_eip real) in
      record {
        list = record {
          chain = t.chain;
          ends = subst (λ l. l ≡ last_or l ps) (sym same.same_last) v.list.ends;
          distinct = v.list.distinct;
        };
        turn = (v.turn + 1) % length ps;
        inside = t.inside;
        current = t.current;
        pids =
            subst (λ n. HasPids r.nodes n ps) (sym same.same_counter)
              (HasPids-same s.nodes r.nodes s.pid_counter s.pid_counter ps (omega arith)
                (λ a. inr (same.same_pids a)) v.pids);
      }
]

-- One call, of whatever the machine gives it.
pub data Step (s : Scheduler) (r : Scheduler) : Type 0 where
  switches : (eip esp ebp : ℕ) → r ≡ (switch_task s eip esp ebp).0 → Step s r
  forks :
      (page_directory fresh eip esp ebp pid : ℕ)
      → fresh ≢ 0
      → ((ps : List ℕ) → IsValid s ps → Apart fresh ps)
      → s.pid_counter + 1 < 2 ^ 32
      → fork s page_directory fresh eip esp ebp ≡ ok (r, pid)
      → Step s r

pub data Reach (s : Scheduler) : Scheduler → Type 0 where
  here : Reach s s
  next : {t u : Scheduler} → Reach s t → Step t u → Reach s u

ok_injective : {A : Type 0} (a b : A) → ok a ≡ ok b → a ≡ b
ok_injective a b e = cc

Step-IsValid :
    (s r : Scheduler) (ps : List ℕ) → Step s r → IsValid s ps → (qs : List ℕ) × IsValid r qs
Step-IsValid s r ps (switches eip esp ebp e) v =
    (ps, subst (λ r. IsValid r ps) (sym e) (switch_task-IsValid s ps eip esp ebp v))
Step-IsValid s r ps (forks page_directory fresh eip esp ebp pid real new small e) v =
    let w = fork-Forks s ps page_directory fresh eip esp ebp v (new ps v) real small in
    (
      ps ++ fresh ∷ [],
      subst (λ r. IsValid r (ps ++ fresh ∷ []))
          (ap (λ p. p.0) (ok_injective (w.after, s.pid_counter) (r, pid) (sym w.returns ∙ e)))
          w.valid,
    )

-- `init` on an empty list makes a well-formed scheduler with one process, whose pid is 1.
init-IsValid :
    (s : Scheduler) (fresh : ℕ)
    → s.first ≡ 0
    → fresh ≢ 0
    → (r : Scheduler) × (init s fresh ≡ ok r)
      × IsValid r (fresh ∷ [])
      × ((r.nodes fresh).process.pid ≡ 1)
unfolding init push_back_current new_process
init-IsValid s fresh empty real =
    let s' : Scheduler = record s { pid_counter = 2 } in
    let process : Process = record {
      pid = 1;
      esp = 0;
      ebp = 0;
      eip = 0;
      page_directory = s.current_page_directory;
    } in
    let w =
      push_back-Appends s' [] fresh process (record { chain = empty; ends = refl; distinct = tt })
        tt real in
    let pid : (w.after.nodes fresh).process.pid ≡ 1 = ap (λ p. p.pid) w.held in
    (
      record w.after { current_process = w.after.last },
      rw (init, push_back_current, w.returns) refl,
      record {
        list = record { chain = w.list.chain; ends = w.list.ends; distinct = (tt, tt) };
        turn = 0;
        inside = omega arith;
        current = w.at_end;
        pids = (omega (arith, pid, w.kept.1), tt, tt);
      },
      pid,
    )

-- After `init` on an empty list, whatever calls of switchTask and `fork` follow, with new nodes that
-- are not null and not in the list and a pid counter that does not wrap, the processes stand in a
-- linked list without repetition that ends at `last_`, the current process is one of them, and no two
-- have the same pid.
pub Reach-IsValid :
    (s start t : Scheduler) (fresh : ℕ)
    → s.first ≡ 0
    → fresh ≢ 0
    → init s fresh ≡ ok start
    → Reach start t
    → (ps : List ℕ) × IsValid t ps
Reach-IsValid s start t fresh empty real e here =
    let (r, made, v, _) = init-IsValid s fresh empty real in
    (fresh ∷ [], subst (λ r. IsValid r (fresh ∷ [])) (ok_injective r start (sym made ∙ e)) v)
Reach-IsValid s start t fresh empty real e (next {t = u} run step) =
    let (ps, v) = Reach-IsValid s start u fresh empty real e run in Step-IsValid u t ps step v
