-- ===== src/Scheduler/Turns.antt =====
-- Whose turn it is after some switches.
use experimental_kernel.Common.{
  ℕ, zero, suc, ◌+◌, ◌-◌, ◌%◌, ◌<◌, ◌≡◌, refl, sym, ap, ◌∙◌, ◌≢◌, inl, inr, List, [], ◌∷◌, ◌++◌,
  arith, leb, Bool-cases, length, get_or, length-append,
}
use mathlib.Core.Path.{subst}
use native.Mathlib.Nat.{mod_self, mod-eq_of_lt, mod-add-mod, mod-lt, add-mod_right}
use experimental_kernel.Scheduler.{Node, Scheduler, switch_task, dummy_eip}
use experimental_kernel.Scheduler.Robin.{Chain, head_or, Switches, switch_task-Switches}

get_or-behind :
    (pre : List ℕ) (c d : ℕ) (post : List ℕ) → get_or (pre ++ c ∷ d ∷ post) (length pre + 1) 0 ≡ d
get_or-behind [] c d post = refl
get_or-behind (p ∷ pre) c d post =
    let e : length (p ∷ pre) + 1 ≡ suc (length pre + 1) = omega arith in
    rw e (get_or-behind pre c d post)

head_or-mod :
    (pre : List ℕ) (c : ℕ) (post : List ℕ)
    → let ps = pre ++ c ∷ post in
      head_or (get_or ps 0 0) post ≡ get_or ps ((length pre + 1) % length ps) 0
head_or-mod pre c [] =
    let e : length (pre ++ c ∷ []) ≡ length pre + 1 = omega (arith, length-append pre (c ∷ [])) in
    rw (e, mod_self (length pre + 1))
head_or-mod pre c (d ∷ post) =
    let e = length-append pre (c ∷ d ∷ post) in
    let small : length pre + 1 < length (pre ++ c ∷ d ∷ post) = omega (arith, e) in
    rw (mod-eq_of_lt small) (sym (get_or-behind pre c d post))

split_at :
    (ps : List ℕ) (i : ℕ)
    → i < length ps
    → (pre : List ℕ) × (post : List ℕ) × (ps ≡ pre ++ get_or ps i 0 ∷ post) × (length pre ≡ i)
split_at [] i h = absurd (omega arith)
split_at (p ∷ ps) zero h = ([], ps, refl, refl)
split_at (p ∷ ps) (suc i) h =
    let (pre, post, e, l) = split_at ps i (omega arith) in
    (p ∷ pre, post, ap (λ t. p ∷ t) e, omega (arith, l))

-- The processes `ps` are linked, and it is the turn of the one at index `t`.
pub record IsTurn (s : Scheduler) (ps : List ℕ) (t : ℕ) : Type 0 where
  pub chain : Chain s.nodes s.first ps
  pub inside : t < length ps
  pub current : s.current_process ≡ get_or ps t 0

first-get_or :
    (nodes : ℕ → Node) (p : ℕ) (ps : List ℕ) → Chain nodes p ps → 0 < length ps → p ≡ get_or ps 0 0
first-get_or nodes p [] chain some_there = absurd (omega arith)
first-get_or nodes p (a ∷ ps) chain some_there = chain.0

-- At a list in parts.
switch_task-parts :
    (s : Scheduler) (pre post : List ℕ) (c eip esp ebp : ℕ)
    → Chain s.nodes s.first (pre ++ c ∷ post)
    → s.current_process ≡ c
    → eip ≢ dummy_eip
    → IsTurn
        (switch_task s eip esp ebp).0
        (pre ++ c ∷ post)
        ((length pre + 1) % length (pre ++ c ∷ post))
switch_task-parts s pre post c eip esp ebp chain here real =
    let ps = pre ++ c ∷ post in
    let some_there : 0 < length ps = omega (arith, length-append pre (c ∷ post)) in
    let r : Switches s ps post eip esp ebp (switch_task s eip esp ebp) =
      subst (λ d. Switches s (pre ++ d ∷ post) post eip esp ebp (switch_task s eip esp ebp)) here
        (switch_task-Switches s pre post eip esp ebp
          (subst (λ d. Chain s.nodes s.first (pre ++ d ∷ post)) (sym here) chain) real) in
    record {
      chain = r.linked;
      inside = mod-lt (length pre + 1) some_there;
      current =
          r.turn
          ∙ ap (λ d. head_or d post) (first-get_or s.nodes s.first ps chain some_there)
          ∙ head_or-mod pre c post;
    }

pub switch_task-IsTurn :
    (s : Scheduler) (ps : List ℕ) (t eip esp ebp : ℕ)
    → IsTurn s ps t
    → eip ≢ dummy_eip
    → IsTurn (switch_task s eip esp ebp).0 ps ((t + 1) % length ps)
switch_task-IsTurn s ps t eip esp ebp v real =
    let (pre, post, e, l) = split_at ps t v.inside in
    subst (λ i. IsTurn (switch_task s eip esp ebp).0 ps ((i + 1) % length ps)) l
      (subst (λ qs. IsTurn (switch_task s eip esp ebp).0 qs ((length pre + 1) % length qs)) (sym e)
        (switch_task-parts s pre post (get_or ps t 0) eip esp ebp
          (subst (Chain s.nodes s.first) e v.chain) v.current real))

-- What one switch is given: the instruction pointer, the stack pointer and the base pointer.
abbrev pub Given : Type 0
Given = ℕ × ℕ × ℕ

-- The scheduler after a switch for each of these.
unfoldable pub switch_all : Scheduler → List Given → Scheduler
switch_all s [] = s
switch_all s ((eip, esp, ebp) ∷ gs) = switch_all (switch_task s eip esp ebp).0 gs

abbrev pub AllRunning : List Given → Type 0
AllRunning [] = Unit
AllRunning ((eip, esp, ebp) ∷ gs) = (eip ≢ dummy_eip) × AllRunning gs

-- The turns go round: after any number of switches from running processes, the turn has moved on by
-- that number of places, around the list.
pub switch_all-IsTurn :
    (s : Scheduler) (ps : List ℕ) (t : ℕ) (gs : List Given)
    → IsTurn s ps t
    → AllRunning gs
    → IsTurn (switch_all s gs) ps ((t + length gs) % length ps)
unfolding switch_all
switch_all-IsTurn s ps t [] v real =
    let e : t + 0 ≡ t = omega arith in
    subst (IsTurn s ps) (sym (ap (λ i. i % length ps) e ∙ mod-eq_of_lt v.inside)) v
switch_all-IsTurn s ps t ((eip, esp, ebp) ∷ gs) v real =
    let s' = (switch_task s eip esp ebp).0 in
    let e : t + suc (length gs) ≡ t + 1 + length gs = omega arith in
    subst (IsTurn (switch_all s' gs) ps)
      (mod-add-mod (t + 1) (length ps) (length gs) ∙ ap (λ i. i % length ps) (sym e))
      (switch_all-IsTurn s' ps ((t + 1) % length ps) gs
        (switch_task-IsTurn s ps t eip esp ebp v real.0) real.1)

-- Every process gets its turn: for each place of the list there is a number of switches, below the
-- number of processes, after which the process there is the current one.
pub switch_all_reaches :
    (s : Scheduler) (ps : List ℕ) (t j : ℕ)
    → IsTurn s ps t
    → j < length ps
    → (k : ℕ) × (k < length ps)
      × ((gs : List Given)
          → AllRunning gs
          → length gs ≡ k
          → (switch_all s gs).current_process ≡ get_or ps j 0)
switch_all_reaches s ps t j v inside = elim (Bool-cases (leb t j)) [
  | inl ahead ↦
      let e : t + (j - t) ≡ j = ground arith in
      (
        j - t,
        omega arith,
        λ gs real l. reached (j - t) gs real l (ap (λ i. i % length ps) e ∙ mod-eq_of_lt inside),
      )
  | inr behind ↦
      let e : t + (j + length ps - t) ≡ j + length ps = omega (arith, v.inside) in
      (
        j + length ps - t,
        ground (arith, v.inside),
        λ gs real l.
            reached (j + length ps - t) gs real l
              (ap (λ i. i % length ps) e ∙ add-mod_right j (length ps) ∙ mod-eq_of_lt inside),
      )
]
  where
    reached :
        (k : ℕ) (gs : List Given)
        → AllRunning gs
        → length gs ≡ k
        → (t + k) % length ps ≡ j
        → (switch_all s gs).current_process ≡ get_or ps j 0
    reached k gs real l e =
        (switch_all-IsTurn s ps t gs v real).current
        ∙ ap (λ i. get_or ps i 0) (ap (λ n. (t + n) % length ps) l ∙ e)
