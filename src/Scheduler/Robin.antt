-- ===== src/Scheduler/Robin.antt =====
-- The processes take turns.
use experimental_kernel.Common.{
  ℕ, ◌≡◌, ◌≢◌, ◌==◌, if◌then◌else◌, refl, arith, List, [], ◌∷◌, ◌++◌, Option, some, ap, ◌∙◌, sym,
  Bool-cases, inl, inr, eq→==, ne→==, ==→eq, true, false,
}
use experimental_kernel.Scheduler.{Node, Scheduler, Resume, put_node, switch_task, dummy_eip}

-- From `p` on the nodes `ps` are linked, and the last has no next.
abbrev pub Chain : (ℕ → Node) → ℕ → List ℕ → Type 0
Chain nodes p [] = p ≡ 0
Chain nodes p (a ∷ ps) = (p ≡ a) × (a ≢ 0) × Chain nodes (nodes a).next ps

-- The first of a list, or a default.
abbrev pub head_or : ℕ → List ℕ → ℕ
head_or d [] = d
head_or d (a ∷ ps) = a

-- A chain does not see what the nodes hold.
Chain-same :
    (nodes nodes' : ℕ → Node) (p : ℕ) (ps : List ℕ)
    → ((a : ℕ) → (nodes' a).next ≡ (nodes a).next)
    → Chain nodes p ps
    → Chain nodes' p ps
Chain-same nodes nodes' p [] same h = h
Chain-same nodes nodes' p (a ∷ ps) same (e, real, rest) =
    (e, real, Chain-same nodes nodes' (nodes' a).next ps same (rw (same a) rest))

Chain-behind :
    (nodes : ℕ → Node) (p : ℕ) (pre : List ℕ) (c : ℕ) (post : List ℕ)
    → Chain nodes p (pre ++ c ∷ post)
    → (c ≢ 0) × Chain nodes (nodes c).next post
Chain-behind nodes p [] c post (e, real, rest) = (real, rest)
Chain-behind nodes p (a ∷ pre) c post (e, real, rest) =
    Chain-behind nodes (nodes a).next pre c post rest

-- The node behind `p`, or the front where there is none.
chosen-head_or :
    (nodes : ℕ → Node) (p front : ℕ) (ps : List ℕ)
    → Chain nodes p ps
    → (if p == 0 then front else p) ≡ head_or front ps
chosen-head_or nodes p front [] e = ground (arith, e)
chosen-head_or nodes p front (a ∷ ps) (e, real, rest) = ground (arith, e, real)

-- A node that keeps its link keeps the chain.
Chain-put_node :
    (nodes : ℕ → Node) (c p : ℕ) (node : Node) (ps : List ℕ)
    → node.next ≡ (nodes c).next
    → Chain nodes p ps
    → Chain (put_node nodes c node) p ps
Chain-put_node nodes c p node ps kept = Chain-same nodes (put_node nodes c node) p ps same
  where
    same : (a : ℕ) → (put_node nodes c node a).next ≡ (nodes a).next
    same a = elim (Bool-cases (a == c)) [
      | inl here ↦ rw here (kept ∙ ap (λ b. (nodes b).next) (sym (==→eq a c here)))
      | inr other ↦ rw other
    ]

-- What a switch from the current process, with `post` behind it, promises.
pub record Switches (s : Scheduler) (ps post : List ℕ) (eip esp ebp : ℕ)
    (r : Scheduler × Option Resume) : Type 0 where
  pub turn : r.0.current_process ≡ head_or s.first post
  pub linked : Chain r.0.nodes r.0.first ps
  pub saved :
      ((r.0.nodes s.current_process).process.eip ≡ eip)
      × ((r.0.nodes s.current_process).process.esp ≡ esp)
      × ((r.0.nodes s.current_process).process.ebp ≡ ebp)
      × ((r.0.nodes s.current_process).process.pid ≡ (s.nodes s.current_process).process.pid)
  pub others : (a : ℕ) → a ≢ s.current_process → r.0.nodes a ≡ s.nodes a
  pub resumed :
      (let next = (r.0.nodes r.0.current_process).process in
        r.1
        ≡ some (record {
          esp = next.esp;
          ebp = next.ebp;
          eip = next.eip;
          directory = next.page_directory;
        }))
  pub directory :
      r.0.current_page_directory ≡ (r.0.nodes r.0.current_process).process.page_directory

-- A switch from the current process of a linked list saves its registers in its node, and no other
-- node changes. The turn goes to the next process, or from the last to the first, whose saved
-- registers and page directory are loaded. The list stays linked in the same order. The
-- instruction pointer is not the number that marks a resumed process.
pub switch_task-Switches :
    (s : Scheduler) (pre post : List ℕ) (eip esp ebp : ℕ)
    → Chain s.nodes s.first (pre ++ s.current_process ∷ post)
    → eip ≢ dummy_eip
    → Switches s (pre ++ s.current_process ∷ post) post eip esp ebp (switch_task s eip esp ebp)
unfolding switch_task
switch_task-Switches s pre post eip esp ebp chain real_eip =
    let c = s.current_process in
    let (real, behind) = Chain-behind s.nodes s.first pre c post chain in
    let present : (c == 0) ≡ false = ne→== _ _ real in
    let running : (eip == dummy_eip) ≡ false = ne→== _ _ real_eip in
    let self : (c == c) ≡ true = eq→== _ _ refl in
    rw (present, running)
      (record {
        turn = rw self (chosen-head_or s.nodes (s.nodes c).next s.first post behind);
        linked = Chain-put_node s.nodes c s.first _ (pre ++ c ∷ post) refl chain;
        saved = rw self (refl, refl, refl, refl);
        others = λ a other. (let e : (a == c) ≡ false = ne→== _ _ other in rw e);
        resumed = refl;
        directory = refl;
      })
