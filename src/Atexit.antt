-- ===== src/Atexit.antt =====
-- source/icxxabi.h and source/icxxabi.cpp: the table of destructors. A function is its address, 0 is
-- null, and a call of one is an entry of a list: what it does is not modelled, and it is taken not
-- to touch the table.
pub mod Order
pub mod Endless
pub mod Tests
use experimental_kernel.Common.{
  ℕ, zero, suc, ◌+◌, ◌-◌, ◌^◌, ◌==◌, leb, if◌then◌else◌, ◌-ʷ◌, ◌+ʷ◌, Option, none, some, List, [],
  ◌∷◌,
}

pub record Entry : Type 0 where
  pub destructor_func : ℕ
  pub obj_ptr : ℕ
  pub dso_handle : ℕ

-- ATEXIT_MAX_FUNCS.
abbrev pub max_funcs : ℕ
max_funcs = 128

-- `__atexit_funcs` and `__atexit_func_count`. The entries are a function of the index, since the
-- code reads behind the table.
pub record Atexit : Type 0 where
  pub funcs : ℕ → Entry
  pub count : ℕ

abbrev pub put_entry : (ℕ → Entry) → ℕ → Entry → ℕ → Entry
put_entry funcs i e = λ k. if k == i then e else funcs k

-- __cxa_atexit; the result -1 is the pattern 2 ^ 32 - 1.
unfoldable pub cxa_atexit : Atexit → Entry → Atexit × ℕ
cxa_atexit s e =
    if leb max_funcs s.count
    then (s, 2 ^ 32 - 1)
    else (record { funcs = put_entry s.funcs s.count e; count = s.count + 1 }, 0)

-- One call of a destructor: the function and its object.
abbrev pub DestructorCall : Type 0
DestructorCall = ℕ × ℕ

-- while (i--) { if (__atexit_funcs[i].destructor_func) ... }
unfoldable pub finalize_all : ℕ → (ℕ → Entry) → List DestructorCall
finalize_all zero funcs = []
finalize_all (suc i) funcs =
    let rest = finalize_all i funcs in
    if (funcs i).destructor_func == 0
    then rest
    else ((funcs i).destructor_func, (funcs i).obj_ptr) ∷ rest

-- The state of the second loop.
pub record Pass : Type 0 where
  pub index : ℕ
  pub funcs : ℕ → Entry
  pub calls : List DestructorCall

-- One round of it. The calls are kept with the latest first.
unfoldable pub finalize_round : ℕ → Pass → Pass
finalize_round f p =
    let e = p.funcs p.index in
    if e.destructor_func == f
    then record {
      index = p.index -ʷ 1;
      funcs = put_entry p.funcs p.index (record e { destructor_func = 0 });
      calls = (e.destructor_func, e.obj_ptr) ∷ p.calls;
    }
    else record p { index = p.index -ʷ 1 }

-- for ( ; i >= 0; --i), with fuel; `none` means that it ran out.
unfoldable pub finalize_loop : ℕ → ℕ → Pass → Option Pass
unfolding finalize_round
finalize_loop zero f p = none
finalize_loop (suc fuel) f p =
    let rest = finalize_loop fuel f (finalize_round f p) in if leb 0 p.index then rest else some p

-- __cxa_finalize, with the calls that it makes.
unfoldable pub cxa_finalize : ℕ → Atexit → ℕ → Option (Atexit × List DestructorCall)
unfolding finalize_all finalize_loop
cxa_finalize fuel s f =
    if f == 0
    then some (s, finalize_all s.count s.funcs)
    else elim (finalize_loop fuel f (record { index = s.count; funcs = s.funcs; calls = [] })) [
      | none ↦ none
      | some p ↦ some (record s { funcs = p.funcs }, p.calls)
    ]
