-- ===== src/Atexit/Order.antt =====
-- The order in which all destructors run.
use experimental_kernel.Common.{
  ℕ, zero, suc, ◌+◌, ◌≤◌, ◌<◌, ◌≡◌, refl, ap, ◌∙◌, ◌≢◌, true, false, some, List, [], ◌∷◌, arith,
  leb, ◌==◌, eq→==, ne→==, length, set,
}
use experimental_kernel.Atexit.{
  Entry, Atexit, DestructorCall, put_entry, cxa_atexit, finalize_all, cxa_finalize, max_funcs,
}

-- Registering several functions, the first of the list first.
unfoldable pub register_all : Atexit → List Entry → Atexit
register_all s [] = s
register_all s (e ∷ es) = register_all (cxa_atexit s e).0 es

-- The calls of the entries in front of other calls, the last entry first.
unfoldable pub latest_first : List Entry → List DestructorCall → List DestructorCall
latest_first [] calls = calls
latest_first (e ∷ es) calls = latest_first es ((e.destructor_func, e.obj_ptr) ∷ calls)

abbrev pub AllSet : List Entry → Type 0
AllSet [] = Unit
AllSet (e ∷ es) = (e.destructor_func ≢ 0) × AllSet es

-- The entries from `i` on do not matter.
finalize_all-put_entry :
    (i k : ℕ) (funcs : ℕ → Entry) (e : Entry)
    → i ≤ k
    → finalize_all i (put_entry funcs k e) ≡ finalize_all i funcs
unfolding finalize_all
finalize_all-put_entry zero k funcs e h = refl
finalize_all-put_entry (suc i) k funcs e h =
    let other : (i == k) ≡ false = ne→== i k (omega arith) in
    rw (other, finalize_all-put_entry i k funcs e (omega arith))

finalize_all-cxa_atexit :
    (s : Atexit) (e : Entry)
    → s.count < max_funcs
    → e.destructor_func ≢ 0
    → finalize_all (cxa_atexit s e).0.count (cxa_atexit s e).0.funcs
      ≡ (e.destructor_func, e.obj_ptr) ∷ finalize_all s.count s.funcs
unfolding cxa_atexit finalize_all
finalize_all-cxa_atexit s e room set =
    let free : leb max_funcs s.count ≡ false = ground arith in
    let next : s.count + 1 ≡ suc s.count = omega arith in
    let here : (s.count == s.count) ≡ true = eq→== _ _ refl in
    let real : (e.destructor_func == 0) ≡ false = ne→== _ _ set in
    rw (free, next, here, real, finalize_all-put_entry s.count s.count s.funcs e (omega arith))

count-cxa_atexit :
    (s : Atexit) (e : Entry) → s.count < max_funcs → (cxa_atexit s e).0.count ≡ s.count + 1
unfolding cxa_atexit
count-cxa_atexit s e room = ground arith

finalize_all-register_all :
    (s : Atexit) (es : List Entry)
    → s.count + length es ≤ max_funcs
    → AllSet es
    → finalize_all (register_all s es).count (register_all s es).funcs
      ≡ latest_first es (finalize_all s.count s.funcs)
unfolding register_all latest_first
finalize_all-register_all s [] room set = refl
finalize_all-register_all s (e ∷ es) room set =
    finalize_all-register_all (cxa_atexit s e).0 es
      (omega (arith, count-cxa_atexit s e (omega arith))) set.1
    ∙ ap (latest_first es) (finalize_all-cxa_atexit s e (omega arith) set.0)

-- After any functions are registered for which the table has room, none of them null,
-- __cxa_finalize(0) calls each of them once with its object, the one registered last first, and then
-- what it would have called before. It leaves the table as it is.
pub cxa_finalize-register_all :
    (fuel : ℕ) (s : Atexit) (es : List Entry)
    → s.count + length es ≤ max_funcs
    → AllSet es
    → cxa_finalize fuel (register_all s es) 0
      ≡ some (register_all s es, latest_first es (finalize_all s.count s.funcs))
unfolding cxa_finalize
cxa_finalize-register_all fuel s es room set =
    ap (λ calls. some (register_all s es, calls)) (finalize_all-register_all s es room set)
