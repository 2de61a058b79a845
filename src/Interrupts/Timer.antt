-- ===== src/Interrupts/Timer.antt =====
-- The timer interrupt drives the scheduler.
use experimental_kernel.Common.{
  ℕ, ◌+◌, ◌%◌, ◌^◌, ◌<◌, ◌≡◌, refl, sym, ap, ◌∙◌, inl, inr, some, List, [], ◌∷◌, arith,
  Option-cases, ◌+ʷ◌, length, set,
}
use mathlib.Core.Path.{subst}
use experimental_kernel.Scheduler.{switch_task}
use experimental_kernel.Scheduler.Turns.{IsTurn, switch_all, switch_all-IsTurn, Given, AllRunning}
use experimental_kernel.Interrupts.{
  Registers, Machine, pic_timer_callback, Ending, returns, jumps, hangs, irq_handler, irq_end,
  run_handler, timer_callback,
}

-- The machine that a handler leaves, when it returns or jumps.
abbrev pub machine_after : Machine → Ending → Machine
machine_after m (returns m') = m'
machine_after m (jumps m' resume) = m'
machine_after m (hangs messages) = m

-- A timer interrupt from each of these places, in their order.
unfoldable pub tick_all : Machine → Registers → List Given → Machine
tick_all m r [] = m
tick_all m r ((eip, esp, ebp) ∷ gs) =
    tick_all (machine_after m (irq_handler m r 0 eip esp ebp).1) r gs

-- What one timer interrupt does.
record Ticks (m : Machine) (eip esp ebp : ℕ) (after : Machine) : Type 0 where
  counted : after.tick ≡ m.tick +ʷ 1
  switched : after.scheduler ≡ (switch_task m.scheduler eip esp ebp).0
  same_handlers : after.irq_handlers ≡ m.irq_handlers

timer_callback-Ticks :
    (m : Machine) (eip esp ebp : ℕ)
    → Ticks m eip esp ebp (machine_after m (irq_end (timer_callback m eip esp ebp)))
unfolding timer_callback irq_end
timer_callback-Ticks m eip esp ebp = elim (Option-cases (switch_task m.scheduler eip esp ebp).1) [
  | inl stays ↦
      rw (timer_callback, stays) (record { counted = refl; switched = refl; same_handlers = refl })
  | inr (resume, leaves) ↦
      rw (timer_callback, leaves) (record { counted = refl; switched = refl; same_handlers = refl })
]

irq_handler-Ticks :
    (m : Machine) (r : Registers) (eip esp ebp : ℕ)
    → m.irq_handlers 0 ≡ some pic_timer_callback
    → r.int_number ≡ 32
    → Ticks m eip esp ebp (machine_after m (irq_handler m r 0 eip esp ebp).1)
unfolding irq_handler run_handler
irq_handler-Ticks m r eip esp ebp set number = rw (number, set) (timer_callback-Ticks m eip esp ebp)

module _ (r : Registers) (number : r.int_number ≡ 32) where
  tick-tick_all :
      (m : Machine) (gs : List Given)
      → m.irq_handlers 0 ≡ some pic_timer_callback
      → m.tick < 2 ^ 32
      → (tick_all m r gs).tick ≡ (m.tick + length gs) % 2 ^ 32
  unfolding tick_all
  tick-tick_all m [] set small = omega arith
  tick-tick_all m ((eip, esp, ebp) ∷ gs) set small =
      let k = irq_handler-Ticks m r eip esp ebp set number in
      let m' = machine_after m (irq_handler m r 0 eip esp ebp).1 in
      tick-tick_all m' gs (ap (λ f. f 0) k.same_handlers ∙ set) (omega (arith, k.counted))
      ∙ omega (arith, k.counted)

  scheduler-tick_all :
      (m : Machine) (gs : List Given)
      → m.irq_handlers 0 ≡ some pic_timer_callback
      → (tick_all m r gs).scheduler ≡ switch_all m.scheduler gs
  unfolding tick_all switch_all
  scheduler-tick_all m [] set = refl
  scheduler-tick_all m ((eip, esp, ebp) ∷ gs) set =
      let k = irq_handler-Ticks m r eip esp ebp set number in
      let m' = machine_after m (irq_handler m r 0 eip esp ebp).1 in
      scheduler-tick_all m' gs (ap (λ f. f 0) k.same_handlers ∙ set)
      ∙ ap (λ s. switch_all s gs) k.switched

-- With the timer's handler registered, any number of timer interrupts counts the ticks up by that
-- number, as a 32-bit count, and moves the turn on by that number of places around the list of
-- processes. The interrupted processes are none that just come back from a switch.
pub tick_all-IsTurn :
    (m : Machine) (r : Registers) (ps : List ℕ) (t : ℕ) (gs : List Given)
    → m.irq_handlers 0 ≡ some pic_timer_callback
    → r.int_number ≡ 32
    → m.tick < 2 ^ 32
    → IsTurn m.scheduler ps t
    → AllRunning gs
    → ((tick_all m r gs).tick ≡ (m.tick + length gs) % 2 ^ 32)
      × IsTurn (tick_all m r gs).scheduler ps ((t + length gs) % length ps)
tick_all-IsTurn m r ps t gs set number small v real = (
  tick-tick_all r number m gs set small,
  subst (λ s. IsTurn s ps ((t + length gs) % length ps))
      (sym (scheduler-tick_all r number m gs set)) (switch_all-IsTurn m.scheduler ps t gs v real),
)
