-- ===== src/Interrupts/Faults.antt =====
-- Exceptions and system calls: when the kernel goes on.
use experimental_kernel.Common.{
  ℕ, ◌^◌, ◌≡◌, ◌≢◌, ◌∙◌, refl, inl, inr, true, false, not, ◌||◌, Option, none, some, List, [], ◌∷◌,
  arith, ltb, leb, ◌==◌, if◌then◌else◌, Bool-cases, Option-cases, bit_and,
}
use experimental_kernel.Bits.{bit, bit_and_pow-zero}
use experimental_kernel.Interrupts.{
  Registers, Machine, Handler, page_fault_handler, system_call_handler, pic_timer_callback, returns,
  hangs, Message, page_fault, user_text, exception_message, fault_handler, run_handler,
  handle_page_fault, handle_system_call, system_call_init, register_isr_handler, call_number,
}

-- A number and the handler registered for it.
abbrev pub Registration : Type 0
Registration = ℕ × Handler

unfoldable pub register_all : List Registration → Machine → Machine
register_all [] m = m
register_all ((number, handler) ∷ rest) m =
    register_all rest (register_isr_handler m number handler)

-- The handler that was registered last for a number.
abbrev pub last_registered : ℕ → List Registration → Option Handler
last_registered number [] = none
last_registered number ((n, handler) ∷ rest) = elim (last_registered number rest) [
  | some later ↦ some later
  | none ↦ if number == n then some handler else none
]

-- No handler that switches tasks.
abbrev pub Plain : List Registration → Type 0
Plain [] = Unit
Plain ((n, page_fault_handler) ∷ rest) = Plain rest
Plain ((n, system_call_handler) ∷ rest) = Plain rest
Plain ((n, pic_timer_callback) ∷ rest) = ⊥

-- What an exception leaves on the screen: the bits of the error code and the address of a page fault, the
-- text of a system call with one of the numbers 0 to 2, or, with no handler, the exception's own message,
-- which number 128 does not have.
abbrev pub shown : Registers → ℕ → Option Handler → List Message
shown r cr2 none = exception_message (if ltb r.int_number 33 then some r.int_number else none) ∷ []
shown r cr2 (some page_fault_handler) =
    (let flag = λ (i : ℕ). bit r.err_code i == 1 in
      page_fault (flag 0) (flag 1) (flag 2) (flag 3) cr2)
    ∷ []
shown r cr2 (some system_call_handler) = if ltb r.eax 3 then user_text r.ebx ∷ [] else []
shown r cr2 (some pic_timer_callback) = []

-- The table after the registrations.
register_all-table :
    (regs : List Registration) (m : Machine) (n : ℕ)
    → (register_all regs m).isr_handlers n
      ≡ (elim (last_registered n regs) [ some handler ↦ some handler | none ↦ m.isr_handlers n ])
unfolding register_all register_isr_handler
register_all-table [] m n = refl
register_all-table ((number, handler) ∷ rest) m n =
    register_all-table rest (register_isr_handler m number handler) n
    ∙ (elim (Option-cases (last_registered n rest)) [
      | inl e ↦ rw e (elim (Bool-cases (n == number)) [ inl h ↦ rw h refl | inr h ↦ rw h refl ])
      | inr (h, e) ↦ rw e refl
    ])

last_registered-Plain :
    (n : ℕ) (regs : List Registration)
    → Plain regs
    → last_registered n regs ≢ some pic_timer_callback
last_registered-Plain n [] plain e = cc
last_registered-Plain n ((k, page_fault_handler) ∷ rest) plain e =
    let ih = last_registered-Plain n rest plain in ground (arith, e, ih)
last_registered-Plain n ((k, system_call_handler) ∷ rest) plain e =
    let ih = last_registered-Plain n rest plain in ground (arith, e, ih)
last_registered-Plain n ((k, pic_timer_callback) ∷ rest) plain e = absurd plain

flag_lem : (w i : ℕ) → not (bit_and w (2 ^ i) == 0) ≡ (bit w i == 1)
flag_lem w i = rw (bit_and_pow-zero i w) (ground arith)

page_fault_shown :
    (m : Machine) (r : Registers) (cr2 eip esp ebp : ℕ)
    → run_handler page_fault_handler m r cr2 eip esp ebp
      ≡ hangs (shown r cr2 (some page_fault_handler))
unfolding run_handler handle_page_fault
page_fault_shown m r cr2 eip esp ebp =
    rw (flag_lem r.err_code 0, flag_lem r.err_code 1, flag_lem r.err_code 2, flag_lem r.err_code 3)
      refl

fault_handler_for :
    (o : Option Handler) (m : Machine) (r : Registers) (cr2 eip esp ebp : ℕ)
    → m.isr_handlers r.int_number ≡ o
    → o ≢ some pic_timer_callback
    → (ltb r.int_number 33 || r.int_number == 128) ≡ true
    → fault_handler m r cr2 eip esp ebp ≡ hangs (shown r cr2 o)
unfolding fault_handler run_handler handle_system_call
fault_handler_for none m r cr2 eip esp ebp e plain inside = rw (fault_handler, inside, e) refl
fault_handler_for (some page_fault_handler) m r cr2 eip esp ebp e plain inside =
    rw (fault_handler, inside, e, page_fault_shown m r cr2 eip esp ebp) refl
fault_handler_for (some system_call_handler) m r cr2 eip esp ebp e plain inside =
    rw (fault_handler, inside, e)
      (elim (Bool-cases (leb call_number r.eax)) [
        | inl unknown ↦ let e : ltb r.eax 3 ≡ false = ground arith in rw (unknown, e) refl
        | inr known ↦ let e : ltb r.eax 3 ≡ true = ground arith in rw (known, e) refl
      ])
fault_handler_for (some pic_timer_callback) m r cr2 eip esp ebp e plain inside = absurd (plain refl)

fault_handler_ignores :
    (m : Machine) (r : Registers) (cr2 eip esp ebp : ℕ)
    → (ltb r.int_number 33 || r.int_number == 128) ≡ false
    → fault_handler m r cr2 eip esp ebp ≡ returns m
unfolding fault_handler
fault_handler_ignores m r cr2 eip esp ebp outside = rw (fault_handler, outside) refl

-- After any registrations of handlers that do not switch tasks, in a kernel that had none, an exception
-- from 0 to 32 or of number 128 is handled by the handler that was registered last for its number. What
-- that shows (the exception's own message where there is none) stays on the screen, and the kernel stops
-- for good. Any other number returns with nothing changed.
pub fault_handler-shown :
    (regs : List Registration) (m : Machine) (r : Registers) (cr2 eip esp ebp : ℕ)
    → ((n : ℕ) → m.isr_handlers n ≡ none)
    → Plain regs
    → fault_handler (register_all regs m) r cr2 eip esp ebp ≡ (
        if ltb r.int_number 33 || r.int_number == 128
        then hangs (shown r cr2 (last_registered r.int_number regs))
        else returns (register_all regs m))
fault_handler-shown regs m r cr2 eip esp ebp empty plain =
    elim (Bool-cases (ltb r.int_number 33 || r.int_number == 128)) [
      | inr outside ↦
          rw outside (fault_handler_ignores (register_all regs m) r cr2 eip esp ebp outside)
      | inl inside ↦ rw inside (
          fault_handler_for (last_registered r.int_number regs) (register_all regs m) r cr2 eip esp
            ebp (register_all-table regs m r.int_number ∙ found (last_registered r.int_number regs))
            (last_registered-Plain r.int_number regs plain) inside)
    ]
  where
    found :
        (o : Option Handler)
        → (elim o [ some handler ↦ some handler | none ↦ m.isr_handlers r.int_number ]) ≡ o
    found none = empty r.int_number
    found (some handler) = refl

-- A system call, with its handler registered, shows the text that ebx points to when its number is
-- one of the three, shows nothing otherwise, and in both cases never comes back to the program.
pub system_call_stops :
    (m : Machine) (r : Registers) (cr2 eip esp ebp : ℕ)
    → r.int_number ≡ 128
    → fault_handler (system_call_init m) r cr2 eip esp ebp
      ≡ hangs (if ltb r.eax call_number then user_text r.ebx ∷ [] else [])
unfolding fault_handler run_handler handle_system_call system_call_init register_isr_handler
system_call_stops m r cr2 eip esp ebp number =
    rw number (elim (Bool-cases (leb call_number r.eax)) [
      | inl unknown ↦ let e : ltb r.eax call_number ≡ false = ground arith in rw (unknown, e) refl
      | inr known ↦ let e : ltb r.eax call_number ≡ true = ground arith in rw (known, e) refl
    ])
