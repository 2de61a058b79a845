-- ===== src/Atexit/Endless.antt =====
-- The loop over an unsigned index that waits for it to become negative.
use experimental_kernel.Common.{
  ℕ, zero, suc, ◌-◌, ◌^◌, ◌≤◌, ◌<◌, ◌≡◌, refl, ap, ◌∙◌, ◌≢◌, true, false, none, [], arith, leb,
  ◌==◌, ne→==, ◌-ʷ◌,
}
use experimental_kernel.Atexit.{
  Atexit, Pass, finalize_round, finalize_loop, cxa_finalize, max_funcs,
}

-- The state of the loop after some rounds.
unfoldable pub rounds : ℕ → ℕ → Pass → Pass
rounds zero f p = p
rounds (suc n) f p = rounds n f (finalize_round f p)

index-finalize_round : (f : ℕ) (p : Pass) → (finalize_round f p).index ≡ p.index -ʷ 1
unfolding finalize_round
index-finalize_round f p = ground arith

index-rounds :
    (n f : ℕ) (p : Pass) → p.index < 2 ^ 32 → n ≤ p.index → (rounds n f p).index ≡ p.index - n
unfolding rounds
index-rounds zero f p small le = omega arith
index-rounds (suc n) f p small le =
    let e = index-finalize_round f p in
    index-rounds n f (finalize_round f p) (omega (arith, e)) (omega (arith, e)) ∙ omega (arith, e)

rounds-suc : (n f : ℕ) (p : Pass) → rounds (suc n) f p ≡ finalize_round f (rounds n f p)
unfolding rounds
rounds-suc zero f p = refl
rounds-suc (suc n) f p = rounds-suc n f (finalize_round f p)

finalize_loop-none : (fuel f : ℕ) (p : Pass) → finalize_loop fuel f p ≡ none
unfolding finalize_loop
finalize_loop-none zero f p = refl
finalize_loop-none (suc fuel) f p =
    let always : leb 0 p.index ≡ true = ground arith in
    rw always (finalize_loop-none fuel f (finalize_round f p))

-- __cxa_finalize(f) for a function `f` never returns: no fuel is enough. After the rounds for the
-- entries from `count` down to 0 the index is 2 ^ 32 - 1, far behind the table, and the loop goes on
-- there.
pub cxa_finalize_endless :
    (s : Atexit) (f : ℕ)
    → f ≢ 0
    → s.count ≤ max_funcs
    → ((fuel : ℕ) → cxa_finalize fuel s f ≡ none)
      × ((rounds (suc s.count) f (record { index = s.count; funcs = s.funcs; calls = [] })).index
          ≡ 2 ^ 32 - 1)
unfolding cxa_finalize
cxa_finalize_endless s f real room =
    let start : Pass = record { index = s.count; funcs = s.funcs; calls = [] } in
    let given : (f == 0) ≡ false = ne→== f 0 real in
    let last = index-rounds s.count f start (omega arith) (omega arith) in
    (
      λ fuel. rw (given, finalize_loop-none fuel f start),
      ap (λ p. p.index) (rounds-suc s.count f start)
          ∙ index-finalize_round f (rounds s.count f start)
          ∙ omega (arith, last),
    )
