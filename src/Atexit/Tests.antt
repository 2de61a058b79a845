-- ===== src/Atexit/Tests.antt =====
-- A table with one function, and two more registered.
use experimental_kernel.Common.{ℕ, suc, ◌-◌, ◌^◌, ◌≡◌, refl, arith, none, some, [], ◌∷◌, List}
use experimental_kernel.Atexit.{Entry, Atexit, cxa_atexit, cxa_finalize, finalize_all}
use experimental_kernel.Atexit.Order.{register_all, latest_first, cxa_finalize-register_all}
use experimental_kernel.Atexit.Endless.{rounds, cxa_finalize_endless}

abbrev entry : ℕ → ℕ → Entry
entry f obj = record { destructor_func = f; obj_ptr = obj; dso_handle = 0 }

abbrev table : Atexit
table = record { funcs = λ i. entry 100 1; count = 1 }

latest :
    cxa_finalize 0 (cxa_atexit table (entry 200 2)).0 0
    ≡ some ((cxa_atexit table (entry 200 2)).0, (200, 2) ∷ (100, 1) ∷ [])
unfolding cxa_atexit cxa_finalize finalize_all
latest = refl

abbrev more : List Entry
more = entry 200 2 ∷ entry 300 3 ∷ []

cxa_finalize-register_all_example :
    cxa_finalize 0 (register_all table more) 0
    ≡ some (register_all table more, latest_first more (finalize_all table.count table.funcs))
cxa_finalize-register_all_example =
    cxa_finalize-register_all 0 table more (omega arith) (omega arith, (omega arith, tt))

cxa_finalize_endless_example :
    ((fuel : ℕ) → cxa_finalize fuel table 100 ≡ none)
    × ((rounds
          (suc table.count)
          100
          (record { index = table.count; funcs = table.funcs; calls = [] })).index
        ≡ 2 ^ 32 - 1)
cxa_finalize_endless_example = cxa_finalize_endless table 100 (omega arith) (omega arith)
