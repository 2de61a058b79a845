-- ===== src/Scheduler.antt =====
-- source/process.h, source/process.cpp and source/utils/linked_list.cpp: the list of processes and
-- the switch between them. Nodes are kept by their address, and 0 is null. What the machine gives
-- (registers, the address that `new` returns, a cloned page directory) is an argument.
pub mod Robin
pub mod Append
pub mod Turns
pub mod Runs
pub mod Reach
pub mod Tests
use experimental_kernel.Common.{
  ℕ, zero, suc, ◌+◌, ◌-◌, ◌*◌, ◌/◌, ◌%◌, ◌^◌, ◌≤◌, ◌<◌, min, max, bit_and, bit_or, ◌≡◌, refl, sym,
  ap, ◌∙◌, fun_ext, ◌≢◌, ◌↔◌, ◌⊎◌, inl, inr, Bool, true, false, not, ◌&&◌, ◌||◌, Option, none, some,
  List, [], ◌∷◌, ◌++◌, map, arith, ltb, leb, ◌==◌, if◌then◌else◌, lt→ltb, le→ltb, ltb→lt, ltb→le,
  ==→eq, ==→ne, eq→==, ne→==, Bool-cases, Option-cases, u32, u16, u8, ◌+ʷ◌, ◌-ʷ◌, length, get_elem?,
  get_or, set, replicate, length-append,
}
use experimental_kernel.Heap.{Run, ok, hang}

pub record Process : Type 0 where
  pub pid : ℕ
  pub esp : ℕ
  pub ebp : ℕ
  pub eip : ℕ
  pub page_directory : ℕ

pub record Node : Type 0 where
  pub process : Process
  pub next : ℕ

-- `processList_` with its nodes, `pidCounter_`, and pmmu.currentPageDirectory_.
pub record Scheduler : Type 0 where
  pub nodes : ℕ → Node
  pub first : ℕ
  pub last : ℕ
  pub current_process : ℕ
  pub pid_counter : ℕ
  pub current_page_directory : ℕ

abbrev pub put_node : (ℕ → Node) → ℕ → Node → ℕ → Node
put_node nodes a node = λ p. if p == a then node else nodes p

-- SLinkedList::pushBack, with the address of the new node.
unfoldable pub push_back : Scheduler → ℕ → Process → Run Scheduler
push_back s fresh process =
    let nodes = put_node s.nodes fresh (record { process = process; next = 0 }) in
    if fresh == 0
    then hang
    else if s.first == 0
    then ok (record s { nodes = nodes; first = fresh; last = fresh })
    else ok (record s {
      nodes = put_node nodes s.last (record (nodes s.last) { next = fresh });
      last = fresh;
    })

-- The registers that the switch loads before it jumps; cr3 gets the physical address of `directory`.
pub record Resume : Type 0 where
  pub esp : ℕ
  pub ebp : ℕ
  pub eip : ℕ
  pub directory : ℕ

abbrev pub dummy_eip : ℕ
dummy_eip = 0xABC123

-- switchTask where get_eip gave `eip`. With `none` it returns, otherwise it jumps.
unfoldable pub switch_task : Scheduler → ℕ → ℕ → ℕ → Scheduler × Option Resume
switch_task s eip esp ebp =
    if s.current_process == 0
    then (s, none)
    else if eip == dummy_eip
    then (s, none)
    else (let old = s.nodes s.current_process in
        let saved = record old {
          process = record old.process { esp = esp; ebp = ebp; eip = eip };
        } in
        let nodes = put_node s.nodes s.current_process saved in
        let next = (nodes s.current_process).next in
        let chosen = if next == 0 then s.first else next in
        let process = (nodes chosen).process in
        (
          record s {
            nodes = nodes;
            current_process = chosen;
            current_page_directory = process.page_directory;
          },
          some (record {
            esp = process.esp;
            ebp = process.ebp;
            eip = process.eip;
            directory = process.page_directory;
          }),
        ))

-- The constructor Process(pidCounter, pageDirectory), which counts the pid up.
unfoldable pub new_process : Scheduler → ℕ → Scheduler × Process
new_process s page_directory = (
  record s { pid_counter = s.pid_counter +ʷ 1 },
  record { pid = s.pid_counter; esp = 0; ebp = 0; eip = 0; page_directory = page_directory },
)

-- ProcessSLinkedList::pushBackCurrent.
unfoldable pub push_back_current : Scheduler → ℕ → Process → Run Scheduler
unfolding push_back
push_back_current s fresh process = elim (push_back s fresh process) [
  | ok s' ↦ ok (record s' { current_process = s'.last })
  | hang ↦ hang
]

-- Sheduler::init, without the change of the stack.
unfoldable pub init : Scheduler → ℕ → Run Scheduler
unfolding new_process push_back_current
init s fresh =
    let (s', process) = new_process (record s { pid_counter = 1 }) s.current_page_directory in
    push_back_current s' fresh process

-- The end of `fork`, from where get_eip returned: in the parent at once, and in the child when its
-- turn comes. `parent` is the node of the process that called.
unfoldable pub fork_end : Scheduler → ℕ → Process → ℕ → ℕ → ℕ → ℕ → Run (Scheduler × ℕ)
unfolding push_back
fork_end s parent child fresh eip esp ebp =
    if s.current_process == parent
    then elim (push_back s fresh (record child { esp = esp; ebp = ebp; eip = eip })) [
      | ok s' ↦ ok (s', child.pid)
      | hang ↦ hang
    ]
    else ok (s, 0)

-- Sheduler::fork in the parent, with the page directory that clonePageDirectory gave.
unfoldable pub fork : Scheduler → ℕ → ℕ → ℕ → ℕ → ℕ → Run (Scheduler × ℕ)
unfolding new_process fork_end
fork s page_directory fresh eip esp ebp =
    let (s', child) = new_process s page_directory in
    fork_end s' s.current_process child fresh eip esp ebp
