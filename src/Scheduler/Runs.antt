-- ===== src/Scheduler/Runs.antt =====
-- Any run of `fork` and `switchTask` after `init`.
use experimental_kernel.Common.{
  ℕ, zero, suc, ◌+◌, ◌^◌, ◌≤◌, ◌<◌, ◌≡◌, refl, sym, ap, ◌∙◌, ◌≢◌, ◌⊎◌, inl, inr, true, false, List,
  [], ◌∷◌, ◌++◌, arith, ◌==◌, ==→eq, ==→ne, eq→==, ne→==, Bool-cases, ◌+ʷ◌, length, get_or,
  length-append,
}
use mathlib.Core.Path.{subst}
use experimental_kernel.Heap.{Run, ok}
use experimental_kernel.Scheduler.{Process, Node, Scheduler, fork, fork_end, push_back, new_process}
use experimental_kernel.Scheduler.Append.{Apart, IsList, Appends, push_back-Appends, Apart-get_or}

-- The pids of the processes in the list lie below `n`, and no two are the same.
abbrev pub NoPid : (ℕ → Node) → ℕ → List ℕ → Type 0
NoPid nodes pid [] = Unit
NoPid nodes pid (a ∷ ps) = ((nodes a).process.pid ≢ pid) × NoPid nodes pid ps

abbrev pub HasPids : (ℕ → Node) → ℕ → List ℕ → Type 0
HasPids nodes n [] = Unit
HasPids nodes n (a ∷ ps) =
    ((nodes a).process.pid < n) × NoPid nodes (nodes a).process.pid ps × HasPids nodes n ps

-- A well-formed scheduler: its list of nodes, the place of the current one, and the pids.
pub record IsValid (s : Scheduler) (ps : List ℕ) : Type 0 where
  pub list : IsList s ps
  pub turn : ℕ
  pub inside : turn < length ps
  pub current : s.current_process ≡ get_or ps turn 0
  pub pids : HasPids s.nodes s.pid_counter ps

NoPid-same :
    (nodes nodes' : ℕ → Node) (pid : ℕ) (ps : List ℕ)
    → ((a : ℕ) → Apart a ps ⊎ ((nodes' a).process.pid ≡ (nodes a).process.pid))
    → NoPid nodes pid ps
    → NoPid nodes' pid ps
NoPid-same nodes nodes' pid [] same h = tt
NoPid-same nodes nodes' pid (a ∷ ps) same h = (
  elim (same a) [ inl apart ↦ absurd (apart.0 refl) | inr e ↦ λ q. h.0 (sym e ∙ q) ],
  NoPid-same nodes nodes' pid ps (λ b. elim (same b) [ inl p ↦ inl p.1 | inr e ↦ inr e ]) h.1,
)

pub HasPids-same :
    (nodes nodes' : ℕ → Node) (n k : ℕ) (ps : List ℕ)
    → n ≤ k
    → ((a : ℕ) → Apart a ps ⊎ ((nodes' a).process.pid ≡ (nodes a).process.pid))
    → HasPids nodes n ps
    → HasPids nodes' k ps
HasPids-same nodes nodes' n k [] le same h = tt
HasPids-same nodes nodes' n k (a ∷ ps) le same h = elim (same a) [
  | inl apart ↦ absurd (apart.0 refl)
  | inr e ↦
      let later : (b : ℕ) → Apart b ps ⊎ ((nodes' b).process.pid ≡ (nodes b).process.pid) =
        λ b. elim (same b) [ inl p ↦ inl p.1 | inr q ↦ inr q ] in
      (
        omega (arith, e, h.0),
        subst (λ pid. NoPid nodes' pid ps) (sym e) (NoPid-same nodes nodes' _ ps later h.1),
        HasPids-same nodes nodes' n k ps le later h.2,
      )
]

NoPid-append :
    (nodes : ℕ → Node) (pid b : ℕ) (ps : List ℕ)
    → NoPid nodes pid ps
    → (nodes b).process.pid ≢ pid
    → NoPid nodes pid (ps ++ b ∷ [])
NoPid-append nodes pid b [] h ne = (ne, tt)
NoPid-append nodes pid b (a ∷ ps) h ne = (h.0, NoPid-append nodes pid b ps h.1 ne)

HasPids-append :
    (nodes : ℕ → Node) (n b : ℕ) (ps : List ℕ)
    → HasPids nodes n ps
    → (nodes b).process.pid ≡ n
    → HasPids nodes (n + 1) (ps ++ b ∷ [])
HasPids-append nodes n b [] h e = (omega (arith, e), tt, tt)
HasPids-append nodes n b (a ∷ ps) h e = (
  omega (arith, h.0),
  NoPid-append nodes _ b ps h.1 (λ q. omega (arith, q, e, h.0)),
  HasPids-append nodes n b ps h.2 e,
)

get_or-append : (ps qs : List ℕ) (i d : ℕ) → i < length ps → get_or (ps ++ qs) i d ≡ get_or ps i d
get_or-append [] qs i d h = absurd (omega arith)
get_or-append (p ∷ ps) qs zero d h = refl
get_or-append (p ∷ ps) qs (suc i) d h = get_or-append ps qs i d (omega arith)

-- The process that `fork` makes.
abbrev pub child_of : Scheduler → ℕ → ℕ → ℕ → ℕ → Process
child_of s page_directory eip esp ebp = record {
  pid = s.pid_counter;
  esp = esp;
  ebp = ebp;
  eip = eip;
  page_directory = page_directory;
}

-- What a call of `fork` promises: in the parent, and where the child comes back from it.
pub record Forks (s : Scheduler) (ps : List ℕ) (page_directory fresh eip esp ebp : ℕ)
    (r : Run (Scheduler × ℕ)) : Type 0 where
  pub after : Scheduler
  pub returns : r ≡ ok (after, s.pid_counter)
  pub valid : IsValid after (ps ++ fresh ∷ [])
  pub child : (after.nodes fresh).process ≡ child_of s page_directory eip esp ebp
  pub others : (a : ℕ) → a ≢ fresh → (after.nodes a).process ≡ (s.nodes a).process
  pub same_current : after.current_process ≡ s.current_process
  pub in_child :
      (q : Scheduler) (process : Process) (eip' esp' ebp' : ℕ)
      → q.current_process ≡ fresh
      → fork_end q s.current_process process fresh eip' esp' ebp' ≡ ok (q, 0)

Appends-IsValid :
    (s s' : Scheduler) (ps : List ℕ) (fresh : ℕ) (process : Process) (r : Run Scheduler)
    → IsValid s ps
    → Apart fresh ps
    → s'.nodes ≡ s.nodes
    → s'.pid_counter ≡ s.pid_counter + 1
    → s'.current_process ≡ s.current_process
    → process.pid ≡ s.pid_counter
    → (w : Appends s' ps fresh process r) → IsValid w.after (ps ++ fresh ∷ [])
Appends-IsValid s s' ps fresh process r v apart nodes counter current pid w = record {
  list = w.list;
  turn = v.turn;
  inside = omega (arith, v.inside, length-append ps (fresh ∷ []));
  current = w.kept.0 ∙ current ∙ v.current ∙ sym (get_or-append ps (fresh ∷ []) v.turn 0 v.inside);
  pids =
      subst (λ n. HasPids w.after.nodes n (ps ++ fresh ∷ [])) (sym (w.kept.1 ∙ counter))
        (HasPids-append w.after.nodes s.pid_counter fresh ps
          (HasPids-same s.nodes w.after.nodes s.pid_counter s.pid_counter ps (omega arith) same
            v.pids)
          (ap (λ p. p.pid) w.held ∙ pid));
}
  where
    same : (a : ℕ) → Apart a ps ⊎ ((w.after.nodes a).process.pid ≡ (s.nodes a).process.pid)
    same a = elim (Bool-cases (a == fresh)) [
      | inl new ↦ inl (subst (λ x. Apart x ps) (sym (==→eq a fresh new)) apart)
      | inr old ↦ inr (
          ap (λ p. p.pid) (w.others a (==→ne a fresh old))
          ∙ ap (λ (f : ℕ → Node). (f a).process.pid) nodes)
    ]

-- `fork` from a well-formed scheduler ends without a hang when `new` gives a node that is not null
-- and not in the list, and the pid counter does not wrap. The parent gets the child's pid, which no
-- process in the list had. The scheduler stays well formed, with the child at the end of the list and
-- the parent running on. Where the child comes back from the call, on its own turn, it gets 0.
pub fork-Forks :
    (s : Scheduler) (ps : List ℕ) (page_directory fresh eip esp ebp : ℕ)
    → IsValid s ps
    → Apart fresh ps
    → fresh ≢ 0
    → s.pid_counter + 1 < 2 ^ 32
    → Forks s ps page_directory fresh eip esp ebp (fork s page_directory fresh eip esp ebp)
unfolding fork new_process fork_end
fork-Forks s ps page_directory fresh eip esp ebp v apart real small =
    let self : (s.current_process == s.current_process) ≡ true = eq→== _ _ refl in
    let s' : Scheduler = record s { pid_counter = s.pid_counter +ʷ 1 } in
    let child = child_of s page_directory eip esp ebp in
    let list : IsList s' ps = record {
      chain = v.list.chain;
      ends = v.list.ends;
      distinct = v.list.distinct;
    } in
    let w = push_back-Appends s' ps fresh child list apart real in
    let other : fresh ≢ s.current_process =
      λ e. Apart-get_or fresh 0 ps v.turn apart v.inside (e ∙ v.current) in
    record {
      after = w.after;
      returns = rw (self, w.returns);
      valid =
          Appends-IsValid s s' ps fresh child (push_back s' fresh child) v apart refl (omega arith)
            refl refl w;
      child = w.held;
      others = w.others;
      same_current = w.kept.0;
      in_child = λ q process eip' esp' ebp' turn.
          (let e : (q.current_process == s.current_process) ≡ false =
              ne→== _ _ (λ e. other (sym turn ∙ e)) in
            rw e);
    }
