-- ===== src/Stack.antt =====
-- Sheduler::changeStack of source/process.cpp. The registers esp and ebp are arguments, and their new
-- values results. A loop that is still running when its fuel is out has the result `hang`.
pub mod Supply
pub mod Frames
pub mod Granted
pub mod Rebase
pub mod Words
pub mod Moved
pub mod Tests
use experimental_kernel.Common.{
  ℕ, zero, suc, ltb, leb, true, false, ◌&&◌, if◌then◌else◌, ◌+ʷ◌, ◌-ʷ◌,
}
use experimental_kernel.Memory.{Mem, read32, write32, memcpy}
use experimental_kernel.Heap.{Run, ok, hang, page_size}
use experimental_kernel.Clone.{Machine}
use experimental_kernel.Setup.{alloc_page}

-- for (i = start; i >= start - size; i -= Page::SIZE)
unfoldable pub grant_pages : ℕ → ℕ → ℕ → Machine → Run Machine
grant_pages zero address bottom m = hang
grant_pages (suc fuel) address bottom m = elim (leb bottom address) [
  | false ↦ ok m
  | true ↦ elim (alloc_page address m) [
    | hang ↦ hang
    | ok m' ↦ grant_pages fuel (address -ʷ page_size) bottom m'
  ]
]

-- A word between `old_esp` and `initial_esp` moves by the offset.
unfoldable pub rebase_word : ℕ → ℕ → ℕ → ℕ → Mem → Mem
rebase_word old_esp initial_esp offset address mem =
    let word = read32 mem address in
    if ltb old_esp word && ltb word initial_esp then write32 mem address (word +ʷ offset) else mem

-- for (i = start; i > start - size; i -= sizeof(int))
unfoldable pub rebase : ℕ → ℕ → ℕ → (Mem → ℕ → Mem) → Mem → Run Mem
rebase zero address bottom change mem = hang
rebase (suc fuel) address bottom change mem = elim (ltb bottom address) [
  | false ↦ ok mem
  | true ↦ rebase fuel (address -ʷ 4) bottom change (change mem address)
]

-- The new machine, and the new esp and ebp.
unfoldable pub change_stack : ℕ → Machine → ℕ → ℕ → ℕ → ℕ → ℕ → Run (Machine × ℕ × ℕ)
change_stack fuel m old_esp old_ebp initial_esp start size =
    let bottom = start -ʷ size in
    elim (grant_pages fuel start bottom m) [
      | hang ↦ hang
      | ok m1 ↦
          (let offset = start -ʷ initial_esp in
            let new_esp = start +ʷ (old_esp -ʷ initial_esp) in
            let new_ebp = start +ʷ (old_ebp -ʷ initial_esp) in
            let copied = memcpy new_esp old_esp (initial_esp -ʷ old_esp) m1.kernel.mem in
            elim (rebase fuel start bottom (λ mem i. rebase_word old_esp initial_esp offset i mem)
              copied) [
                | hang ↦ hang
                | ok mem ↦
                    ok (record m1 { kernel = record (m1.kernel) { mem = mem } }, new_esp, new_ebp)
              ])
    ]
