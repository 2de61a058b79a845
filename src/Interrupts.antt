-- ===== src/Interrupts.antt =====
-- source/isr.cpp, source/pic_timer.cpp, source/system_calls.cpp, and pageFaultHandler of
-- source/paging_management.cpp: which handler an interrupt leads to, and what the handlers do. The
-- stubs that call fault_handler and irq_handler are assembly, and the registers they push are an
-- argument. Output to ports is a list of ports and bytes.
pub mod Timer
pub mod Faults
pub mod Tests
use experimental_kernel.Common.{
  ℕ, zero, suc, ◌+◌, ◌-◌, ◌*◌, ◌/◌, ◌%◌, ◌^◌, ◌≤◌, ◌<◌, min, max, bit_and, bit_or, ◌≡◌, refl, sym,
  ap, ◌∙◌, fun_ext, ◌≢◌, ◌↔◌, ◌⊎◌, inl, inr, Bool, true, false, not, ◌&&◌, ◌||◌, Option, none, some,
  List, [], ◌∷◌, ◌++◌, map, arith, ltb, leb, ◌==◌, if◌then◌else◌, lt→ltb, le→ltb, ltb→lt, ltb→le,
  ==→eq, ==→ne, eq→==, ne→==, Bool-cases, Option-cases, u32, u16, u8, ◌+ʷ◌, ◌-ʷ◌, length, get_elem?,
  get_or, set, replicate, length-append,
}
use experimental_kernel.Screen.{Screen, set_text_color}
use experimental_kernel.Scheduler.{Scheduler, Resume, switch_task}

-- The fields of `registers` that the handlers read.
pub record Registers : Type 0 where
  pub ebx : ℕ
  pub eax : ℕ
  pub int_number : ℕ
  pub err_code : ℕ

-- The functions that the kernel registers.
pub data Handler : Type 0 where
  page_fault_handler system_call_handler pic_timer_callback : Handler

-- The handler tables, and the state that the handlers change. `none` is null.
pub record Machine : Type 0 where
  pub isr_handlers : ℕ → Option Handler
  pub irq_handlers : ℕ → Option Handler
  pub tick : ℕ
  pub scheduler : Scheduler
  pub screen : Screen

abbrev pub put_handler : (ℕ → Option Handler) → ℕ → Handler → ℕ → Option Handler
put_handler handlers num handler = λ k. if k == num then some handler else handlers k

unfoldable pub register_isr_handler : Machine → ℕ → Handler → Machine
register_isr_handler m num handler = record m {
  isr_handlers = put_handler m.isr_handlers num handler;
}

unfoldable pub register_irq_handler : Machine → ℕ → Handler → Machine
register_irq_handler m num handler = record m {
  irq_handlers = put_handler m.irq_handlers num handler;
}

-- A port and the byte that goes to it.
abbrev pub Output : Type 0
Output = ℕ × ℕ

-- What stands on the screen before the kernel stops: the message of an exception by its index in
-- `exception_messages` (`none` where the index is past its end), the text of a system call by its
-- address, or the bits of a page fault with its address.
pub data Message : Type 0 where
  exception_message : Option ℕ → Message
  user_text : ℕ → Message
  page_fault : Bool → Bool → Bool → Bool → ℕ → Message

-- How a handler ends: it returns, switchTask jumps into another process, or it loops forever.
pub data Ending : Type 0 where
  returns : Machine → Ending
  jumps : Machine → Resume → Ending
  hangs : List Message → Ending

-- PicTimer::init.
unfoldable pub timer_init : Machine → Machine × List Output
unfolding register_irq_handler
timer_init m = (
  register_irq_handler (record m { tick = 0 }) 0 pic_timer_callback,
  (0x43, 0x36) ∷ (0x40, 37) ∷ (0x40, 0x5D) ∷ [],
)

-- pic_timer_callback.
unfoldable pub timer_callback : Machine → ℕ → ℕ → ℕ → Ending
unfolding switch_task
timer_callback m eip esp ebp =
    let (s, resume) = switch_task m.scheduler eip esp ebp in
    let m' : Machine = record m { tick = m.tick +ʷ 1; scheduler = s } in
    elim resume [ none ↦ returns m' | some r ↦ jumps m' r ]

-- pageFaultHandler, with the address of cr2.
unfoldable pub handle_page_fault : Registers → ℕ → Ending
handle_page_fault r cr2 =
    let flag = λ (mask : ℕ). not (bit_and r.err_code mask == 0) in
    hangs (page_fault (flag 1) (flag 2) (flag 4) (flag 8) cr2 ∷ [])

-- SystemCallManagement::NUMBER.
abbrev pub call_number : ℕ
call_number = 3

-- system_call_handler. The three calls print the text that their first argument points to, and the
-- handler loops forever behind the call.
unfoldable pub handle_system_call : Machine → Registers → Ending
handle_system_call m r = if leb call_number r.eax then returns m else hangs (user_text r.ebx ∷ [])

-- SystemCallManagement::init.
unfoldable pub system_call_init : Machine → Machine
unfolding register_isr_handler
system_call_init m = register_isr_handler m 128 system_call_handler

unfoldable pub run_handler : Handler → Machine → Registers → ℕ → ℕ → ℕ → ℕ → Ending
unfolding timer_callback handle_page_fault handle_system_call
run_handler page_fault_handler m r cr2 eip esp ebp = handle_page_fault r cr2
run_handler system_call_handler m r cr2 eip esp ebp = handle_system_call m r
run_handler pic_timer_callback m r cr2 eip esp ebp = timer_callback m eip esp ebp

-- fault_handler: whatever the handler does, `for(;;);` follows when it returns.
unfoldable pub fault_handler : Machine → Registers → ℕ → ℕ → ℕ → ℕ → Ending
unfolding run_handler
fault_handler m r cr2 eip esp ebp =
    if ltb r.int_number 33 || r.int_number == 128
    then elim (m.isr_handlers r.int_number) [
      | none ↦
          hangs (exception_message (if ltb r.int_number 33 then some r.int_number else none) ∷ [])
      | some handler ↦ elim (run_handler handler m r cr2 eip esp ebp) [
        | returns m' ↦ hangs []
        | jumps m' resume ↦ jumps m' resume
        | hangs messages ↦ hangs messages
      ]
    ]
    else returns m

-- The text colour at the end of irq_handler, which a jump does not reach.
unfoldable pub irq_end : Ending → Ending
unfolding set_text_color
irq_end (returns m) = returns (record m { screen = set_text_color m.screen 0 15 })
irq_end (jumps m resume) = jumps m resume
irq_end (hangs messages) = hangs messages

-- irq_handler, with the end-of-interrupt bytes that it sends first.
unfoldable pub irq_handler : Machine → Registers → ℕ → ℕ → ℕ → ℕ → List Output × Ending
unfolding run_handler irq_end
irq_handler m r cr2 eip esp ebp =
    let master = (0x20, 0x20) ∷ [] in
    (
      if leb 40 r.int_number then (0x20, 0xA0) ∷ master else master,
      irq_end (
          if r.int_number == 32
          then elim (m.irq_handlers (r.int_number - 32)) [
            | none ↦ returns m
            | some handler ↦ run_handler handler m r cr2 eip esp ebp
          ]
          else returns m),
    )
