-- ===== src/Interrupts/Tests.antt =====
-- Timer interrupts at three processes, an exception and a system call.
use experimental_kernel.Common.{
  ℕ, ◌+◌, ◌%◌, ◌^◌, ◌≡◌, refl, true, false, none, some, List, [], ◌∷◌, arith, length,
}
use experimental_kernel.Scheduler.Tests.{three, three-Chain}
use experimental_kernel.Scheduler.Turns.{IsTurn, Given}
use experimental_kernel.Interrupts.{
  Registers, Machine, pic_timer_callback, system_call_handler, page_fault_handler, hangs,
  page_fault, fault_handler, irq_handler,
}
use experimental_kernel.Interrupts.Timer.{tick_all, tick_all-IsTurn}
use experimental_kernel.Interrupts.Faults.{Registration, register_all, fault_handler-shown}

abbrev bare : Machine
bare = record {
  isr_handlers = λ i. none;
  irq_handlers = λ i. none;
  tick = 7;
  scheduler = three;
  screen = record { x = 0; y = 0; attribute = 15 };
}

abbrev registers : ℕ → ℕ → Registers
registers number eax = record { ebx = 0x5000; eax = eax; int_number = number; err_code = 6 }

-- An interrupt of the slave controller without a handler.
keyboard : (irq_handler bare (registers 40 0) 0 1 2 3).0 ≡ (0x20, 0xA0) ∷ (0x20, 0x20) ∷ []
unfolding irq_handler
keyboard = refl

abbrev places : List Given
places = (0x777, 1, 2) ∷ (0x778, 3, 4) ∷ []

abbrev timed : Machine
timed = record bare { irq_handlers = λ i. some pic_timer_callback; tick = 0 }

tick_all-IsTurn_example :
    ((tick_all timed (registers 32 0) places).tick ≡ (0 + length places) % 2 ^ 32)
    × IsTurn
        (tick_all timed (registers 32 0) places).scheduler
        (16 ∷ 48 ∷ 32 ∷ [])
        ((2 + length places) % 3)
tick_all-IsTurn_example =
    tick_all-IsTurn timed (registers 32 0) (16 ∷ 48 ∷ 32 ∷ []) 2 places refl refl (omega arith)
      (record { chain = three-Chain; inside = omega arith; current = refl })
      (omega arith, (omega arith, tt))

-- The handlers of page faults and of system calls, and one that takes the place of another.
abbrev registered : List Registration
registered = (14, system_call_handler) ∷ (14, page_fault_handler) ∷ (128, system_call_handler) ∷ []

fault_handler-shown_example :
    fault_handler (register_all registered bare) (registers 14 0) 0x1234 1 2 3
    ≡ hangs (page_fault false true true false 0x1234 ∷ [])
fault_handler-shown_example =
    fault_handler-shown registered bare (registers 14 0) 0x1234 1 2 3 (λ n. refl) tt
