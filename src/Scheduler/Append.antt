-- ===== src/Scheduler/Append.antt =====
-- Adding a process at the end of the list.
use experimental_kernel.Common.{
  ℕ, zero, suc, ◌<◌, ◌≡◌, refl, sym, ap, ◌∙◌, ◌≢◌, inl, inr, true, false, List, [], ◌∷◌, ◌++◌,
  arith, ◌==◌, ==→eq, ==→ne, eq→==, ne→==, Bool-cases, length, get_or,
}
use mathlib.Core.Path.{subst}
use experimental_kernel.Heap.{Run, ok}
use experimental_kernel.Scheduler.{Process, Node, Scheduler, put_node, push_back}
use experimental_kernel.Scheduler.Robin.{Chain}

-- A node that is none of the list, and a list without repetition.
abbrev pub Apart : ℕ → List ℕ → Type 0
Apart x [] = Unit
Apart x (a ∷ ps) = (x ≢ a) × Apart x ps

abbrev pub Distinct : List ℕ → Type 0
Distinct [] = Unit
Distinct (a ∷ ps) = Apart a ps × Distinct ps

abbrev pub last_or : ℕ → List ℕ → ℕ
last_or d [] = d
last_or d (a ∷ ps) = last_or a ps

-- The list of processes as the list of its nodes.
pub record IsList (s : Scheduler) (ps : List ℕ) : Type 0 where
  pub chain : Chain s.nodes s.first ps
  pub ends : s.last ≡ last_or s.last ps
  pub distinct : Distinct ps

pub Apart-get_or : (x d : ℕ) (ps : List ℕ) (i : ℕ) → Apart x ps → i < length ps → x ≢ get_or ps i d
Apart-get_or x d [] i h lt = absurd (omega arith)
Apart-get_or x d (a ∷ ps) zero h lt = h.0
Apart-get_or x d (a ∷ ps) (suc i) h lt = Apart-get_or x d ps i h.1 (omega arith)

Apart-last_or : (x d : ℕ) (ps : List ℕ) → x ≢ d → Apart x ps → x ≢ last_or d ps
Apart-last_or x d [] ne h = ne
Apart-last_or x d (a ∷ ps) ne h = Apart-last_or x a ps h.0 h.1

Apart-append : (x y : ℕ) (ps : List ℕ) → Apart x ps → x ≢ y → Apart x (ps ++ y ∷ [])
Apart-append x y [] h ne = (ne, tt)
Apart-append x y (a ∷ ps) h ne = (h.0, Apart-append x y ps h.1 ne)

Distinct-append : (y : ℕ) (ps : List ℕ) → Distinct ps → Apart y ps → Distinct (ps ++ y ∷ [])
Distinct-append y [] d h = (tt, tt)
Distinct-append y (a ∷ ps) d h =
    (Apart-append a y ps d.0 (λ e. h.0 (sym e)), Distinct-append y ps d.1 h.1)

last_or-append : (d y : ℕ) (ps : List ℕ) → last_or d (ps ++ y ∷ []) ≡ y
last_or-append d y [] = refl
last_or-append d y (a ∷ ps) = last_or-append a y ps

-- The nodes once `fresh` is linked behind `last`.
abbrev linked : (ℕ → Node) → ℕ → ℕ → Process → ℕ → Node
linked nodes last fresh process =
    let nodes' = put_node nodes fresh (record { process = process; next = 0 }) in
    put_node nodes' last (record (nodes' last) { next = fresh })

linked-other :
    (nodes : ℕ → Node) (last fresh a : ℕ) (process : Process)
    → a ≢ last
    → a ≢ fresh
    → linked nodes last fresh process a ≡ nodes a
linked-other nodes last fresh a process l f =
    let e : (a == last) ≡ false = ne→== _ _ l in
    let g : (a == fresh) ≡ false = ne→== _ _ f in rw (e, g)

linked-last :
    (nodes : ℕ → Node) (last fresh : ℕ) (process : Process)
    → (linked nodes last fresh process last).next ≡ fresh
linked-last nodes last fresh process = let e : (last == last) ≡ true = eq→== _ _ refl in rw e

linked-fresh :
    (nodes : ℕ → Node) (last fresh : ℕ) (process : Process)
    → fresh ≢ last
    → linked nodes last fresh process fresh ≡ record { process = process; next = 0 }
linked-fresh nodes last fresh process l =
    let e : (fresh == last) ≡ false = ne→== _ _ l in
    let g : (fresh == fresh) ≡ true = eq→== _ _ refl in rw (e, g)

pub linked-process :
    (nodes : ℕ → Node) (last fresh a : ℕ) (process : Process)
    → a ≢ fresh
    → (linked nodes last fresh process a).process ≡ (nodes a).process
linked-process nodes last fresh a process f = elim (Bool-cases (a == last)) [
  | inl here ↦
      let same : a ≡ last = ==→eq _ _ here in
      let e : (last == last) ≡ true = eq→== _ _ refl in
      let g : (last == fresh) ≡ false = ne→== _ _ (λ q. f (same ∙ q)) in rw (same, e, g)
  | inr other ↦ ap (λ n. n.process) (linked-other nodes last fresh a process (==→ne _ _ other) f)
]

Chain-linked :
    (nodes : ℕ → Node) (p a fresh : ℕ) (ps : List ℕ) (process : Process)
    → Chain nodes p (a ∷ ps)
    → Distinct (a ∷ ps)
    → Apart fresh (a ∷ ps)
    → fresh ≢ 0
    → Chain (linked nodes (last_or a ps) fresh process) p (a ∷ ps ++ fresh ∷ [])
Chain-linked nodes p a fresh [] process chain d apart real = (
  chain.0,
  chain.1,
  (
    linked-last nodes a fresh process,
    real,
    ap (λ n. n.next) (linked-fresh nodes a fresh process apart.0),
  ),
)
Chain-linked nodes p a fresh (b ∷ ps) process chain d apart real =
    let same =
      linked-other nodes (last_or b ps) fresh a process (Apart-last_or a b ps d.0.0 d.0.1)
        (λ e. apart.0 (sym e)) in
    (
      chain.0,
      chain.1,
      rw same (Chain-linked nodes (nodes a).next b fresh ps process chain.2 d.1 apart.1 real),
    )

-- What pushBack promises.
pub record Appends (s : Scheduler) (ps : List ℕ) (fresh : ℕ) (process : Process) (r : Run Scheduler)
    : Type 0 where
  pub after : Scheduler
  pub returns : r ≡ ok after
  pub list : IsList after (ps ++ fresh ∷ [])
  pub held : (after.nodes fresh).process ≡ process
  pub others : (a : ℕ) → a ≢ fresh → (after.nodes a).process ≡ (s.nodes a).process
  pub kept :
      (after.current_process ≡ s.current_process)
      × (after.pid_counter ≡ s.pid_counter)
      × (after.current_page_directory ≡ s.current_page_directory)
  pub at_end : after.last ≡ fresh

-- pushBack with a new node that is not null ends without a hang. It adds the process at the end of
-- the list, and changes the process of no other node.
pub push_back-Appends :
    (s : Scheduler) (ps : List ℕ) (fresh : ℕ) (process : Process)
    → IsList s ps
    → Apart fresh ps
    → fresh ≢ 0
    → Appends s ps fresh process (push_back s fresh process)
unfolding push_back
push_back-Appends s [] fresh process v apart real =
    let given : (fresh == 0) ≡ false = ne→== _ _ real in
    let none_yet : (s.first == 0) ≡ true = eq→== _ _ v.chain in
    let self : (fresh == fresh) ≡ true = eq→== _ _ refl in
    rw (given, none_yet)
      (record {
        after = record s {
          nodes = put_node s.nodes fresh (record { process = process; next = 0 });
          first = fresh;
          last = fresh;
        };
        returns = refl;
        list = record { chain = (refl, real, rw self); ends = refl; distinct = (tt, tt) };
        held = rw self;
        others = λ a other. (let e : (a == fresh) ≡ false = ne→== _ _ other in rw e);
        kept = (refl, refl, refl);
        at_end = refl;
      })
push_back-Appends s (a ∷ ps) fresh process v apart real =
    let given : (fresh == 0) ≡ false = ne→== _ _ real in
    let some_yet : (s.first == 0) ≡ false = ne→== _ _ (λ e. v.chain.1 (sym v.chain.0 ∙ e)) in
    let end : s.last ≡ last_or a ps = v.ends in
    rw (given, some_yet)
      (record {
        after = record s { nodes = linked s.nodes s.last fresh process; last = fresh };
        returns = refl;
        list = record {
          chain =
              subst (λ l. Chain (linked s.nodes l fresh process) s.first (a ∷ ps ++ fresh ∷ []))
                (sym end)
                (Chain-linked s.nodes s.first a fresh ps process v.chain v.distinct apart real);
          ends = sym (last_or-append a fresh ps);
          distinct = Distinct-append fresh (a ∷ ps) v.distinct apart;
        };
        held =
            ap (λ n. n.process)
              (linked-fresh s.nodes s.last fresh process
                (λ e. Apart-last_or fresh a ps apart.0 apart.1 (e ∙ end)));
        others = λ b other. linked-process s.nodes s.last fresh b process other;
        kept = (refl, refl, refl);
        at_end = refl;
      })
