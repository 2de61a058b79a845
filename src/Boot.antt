-- ===== src/Boot.antt =====
-- kernel_main of source/kernel_main.cpp up to the process that reads the initrd.
pub mod Mapped
pub mod Tests
use experimental_kernel.Common.{ℕ, ◌+◌, ◌==◌, true, false, none, some, ◌+ʷ◌}
use experimental_kernel.Memory.{read32}
use experimental_kernel.Heap.{Run, ok, hang}
use experimental_kernel.Kmalloc.{Kernel}
use experimental_kernel.Clone
use experimental_kernel.Setup.{System, initialise_paging}
use experimental_kernel.Stack.{change_stack}
use experimental_kernel.Scheduler
use experimental_kernel.Scheduler.{Scheduler}
use experimental_kernel.Interrupts.{timer_init, system_call_init}
use experimental_kernel.Interrupts
use experimental_kernel.Initrd.{InitrdFs, Places}
use experimental_kernel.Initrd

-- pmmu with the kernel's memory, the handlers and the scheduler, `initialEsp`, esp and ebp.
pub record Boot : Type 0 where
  pub system : System
  pub interrupts : Interrupts.Machine
  pub initial_esp : ℕ
  pub esp : ℕ
  pub ebp : ℕ

-- The initrd is the first module of the multiboot header: `placement_address` goes to its end, and the
-- result is its location.
unfoldable pub at_initrd : ℕ → System → System × ℕ
at_initrd header s =
    let k = s.machine.kernel in
    let mods_addr = read32 k.mem (header +ʷ 24) in
    let kernel : Kernel = record k { placement_address = read32 k.mem (mods_addr +ʷ 4) } in
    (record s { machine = record (s.machine) { kernel = kernel } }, read32 k.mem mods_addr)

-- initialisePaging, and the handler of system calls.
unfoldable pub with_paging : ℕ → (ℕ → ℕ) → Boot → Run Boot
with_paging fuel cells b =
    elim (initialise_paging fuel cells
      (record (b.system) { isr_handlers = b.interrupts.isr_handlers })) [
        | hang ↦ hang
        | ok s ↦ ok (record b {
          system = s;
          interrupts = system_call_init (record (b.interrupts) { isr_handlers = s.isr_handlers });
        })
      ]

-- Sheduler::init with the change of the stack. The addresses of the new node and of the current directory
-- are arguments.
unfoldable pub with_scheduler : ℕ → ℕ → ℕ → Boot → Run Boot
with_scheduler fuel fresh directory_at b =
    elim (change_stack fuel b.system.machine b.esp b.ebp b.initial_esp 0xE0000000 0x2000) [
      | hang ↦ hang
      | ok (m, esp, ebp) ↦
          elim (Scheduler.init
            (record (b.interrupts.scheduler) { current_page_directory = directory_at }) fresh) [
              | hang ↦ hang
              | ok s ↦ ok (record {
                system = record (b.system) { machine = m };
                interrupts = record (b.interrupts) { scheduler = s };
                initial_esp = b.initial_esp;
                esp = esp;
                ebp = ebp;
              })
            ]
    ]

-- kernel_main from the check of the magic number to InitrdFs::init. `kernel_end` is overwritten before
-- kmalloc reads `placement_address`.
unfoldable pub start_kernel :
    ℕ → (ℕ → ℕ) → ℕ → ℕ → ℕ → ℕ → ℕ → Places → Boot → Run (Boot × InitrdFs)
start_kernel fuel cells header magic stack_ptr fresh directory_at places b =
    elim (magic == 0x2BADB002) [
      | false ↦ hang
      | true ↦
          (let (system, location) = at_initrd header b.system in
            let (interrupts, _) = timer_init b.interrupts in
            elim (with_paging fuel cells
              (record b { system = system; interrupts = interrupts; initial_esp = stack_ptr })) [
                | hang ↦ hang
                | ok b1 ↦ elim (with_scheduler fuel fresh directory_at b1) [
                  | hang ↦ hang
                  | ok b2 ↦ elim (Initrd.init fuel places location b2.system.machine.kernel.mem) [
                    | none ↦ hang
                    | some (mem, fs) ↦
                        (let m = b2.system.machine in
                          let m' : Clone.Machine = record m {
                            kernel = record (m.kernel) { mem = mem };
                          } in
                          ok (record b2 { system = record (b2.system) { machine = m' } }, fs))
                  ]
                ]
              ])
    ]
