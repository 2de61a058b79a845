-- ===== src/Clone/Pages.antt =====
-- What clonePageTable leaves in the new table.
use experimental_kernel.Common.{
  ℕ, zero, suc, ◌+◌, ◌*◌, ◌^◌, ◌≤◌, ◌≡◌, refl, sym, ap, ◌∙◌, ◌≢◌, ◌⊎◌, inl, inr, true, arith, ◌==◌,
  ==→eq, ==→ne, Bool-cases,
}
use mathlib.Core.Path.{subst}
use mathlib.Core.Bool.{true≢false}
use experimental_kernel.Paging.{Page}
use experimental_kernel.Paging.Search.{is_busy}
use experimental_kernel.Clone.{Copy, clone_page, clone_pages}
use experimental_kernel.Clone.Rounds.{
  Full, SameFields, Fresh, Entry, Clones, Round, clone_page-Round,
}

-- The frame of an entry is busy after the round that gave it, so it differs from one that is free then.
Entry-distinct :
    (src src' : Page) (j k : ℕ) (s t u : Copy)
    → Entry src j s t
    → Entry src' k t u
    → u.pages j ≡ t.pages j
    → ((f : ℕ) → is_busy t.paging.frames f ≡ true → is_busy u.paging.frames f ≡ true)
    → u.paging.frame_number ≡ t.paging.frame_number
    → src.frame ≢ 0
    → src'.frame ≢ 0
    → ((u.pages j).frame ≢ (u.pages k).frame) ⊎ Full u
Entry-distinct src src' j k s t u (inl (none_, _)) e same busy number a b = absurd (a none_)
Entry-distinct src src' j k s t u (inr (_, _, first)) (inl (none_, _)) same busy number a b =
    absurd (b none_)
Entry-distinct src src' j k s t u (inr (_, _, inr full)) (inr e) same busy number a b =
    inr (λ f lt. busy f (full f (omega (arith, number, lt))))
Entry-distinct src src' j k s t u (inr (_, _, inl f)) (inr (_, _, inr full)) same busy number a b =
    inr full
Entry-distinct src src' j k s t u (inr (_, _, inl f)) (inr (_, _, inl g)) same busy number a b =
    inl (λ e.
      true≢false
        (sym f.busy ∙ ap (is_busy t.paging.frames) (sym (ap Page.frame same) ∙ e) ∙ g.was_free))

-- Later rounds keep what a round made of its entry.
Entry-later :
    (src : Page) (k : ℕ) (s t u : Copy)
    → Entry src k s t
    → is_busy s.paging.frames 0 ≡ true
    → u.pages k ≡ t.pages k
    → ((f : ℕ) → is_busy t.paging.frames f ≡ true → is_busy u.paging.frames f ≡ true)
    → ((f : ℕ) → f ≢ 0 → is_busy t.paging.frames f ≡ true → u.physical f ≡ t.physical f)
    → u.paging.frame_number ≡ t.paging.frame_number
    → Entry src k s u
Entry-later src k s t u (inl (none_, kept)) zero_busy same busy contents number =
    inl (none_, same ∙ kept)
Entry-later src k s t u (inr (used, fields, inr full)) zero_busy same busy contents number = inr (
  used,
  subst (SameFields src) (sym same) fields,
  inr (λ f lt. busy f (full f (omega (arith, number, lt)))),
)
Entry-later src k s t u (inr (used, fields, inl f)) zero_busy same busy contents number =
    let n = (t.pages k).frame in
    let ne : n ≢ 0 =
      λ e. true≢false (sym zero_busy ∙ ap (is_busy s.paging.frames) (sym e) ∙ f.was_free) in
    inr (
      used,
      subst (SameFields src) (sym same) fields,
      inl (
          subst (λ p. Fresh src p.frame s u) (sym same)
            (record {
              was_free = f.was_free;
              busy = busy n f.busy;
              content = contents n ne f.busy ∙ f.content;
            })),
    )

-- What a round leaves for the later ones is what they would find without it.
Entry-earlier :
    (src : Page) (k : ℕ) (s t u : Copy)
    → Entry src k t u
    → t.pages k ≡ s.pages k
    → ((f : ℕ) → is_busy s.paging.frames f ≡ true → is_busy t.paging.frames f ≡ true)
    → (src.frame ≢ 0 → t.physical src.frame ≡ s.physical src.frame)
    → Entry src k s u
Entry-earlier src k s t u (inl (none_, kept)) same busy content = inl (none_, kept ∙ same)
Entry-earlier src k s t u (inr (used, fields, inr full)) same busy content =
    inr (used, fields, inr full)
Entry-earlier src k s t u (inr (used, fields, inl f)) same busy content = inr (
  used,
  fields,
  inl (record {
    was_free = elim (Bool-cases (is_busy s.paging.frames (u.pages k).frame)) [
      | inl held ↦ absurd (true≢false (sym (busy _ held) ∙ f.was_free))
      | inr free ↦ free
    ];
    busy = f.busy;
    content = f.content ∙ content used;
  }),
)

Clones-cons :
    (src : ℕ → Page) (i n : ℕ) (s t u : Copy)
    → is_busy s.paging.frames 0 ≡ true
    → ((k : ℕ) → (src k).frame ≢ 0 → is_busy s.paging.frames (src k).frame ≡ true)
    → Round (src i) i s t
    → Clones src (i + 1) n t u
    → Clones src i (suc n) s u
Clones-cons src i n s t u zero_busy held r c = record {
  frame_number = c.frame_number ∙ r.frame_number;
  busy = λ f b. c.busy f (r.busy f b);
  contents = λ f ne b. c.contents f ne (r.busy f b) ∙ r.contents f ne b;
  entries = λ k lo hi. elim (Bool-cases (i == k)) [
    | inl here ↦
        subst (λ k. Entry (src k) k s u) (==→eq _ _ here)
          (Entry-later (src i) i s t u r.entry zero_busy (c.others i (omega arith)) c.busy
            c.contents c.frame_number)
    | inr later ↦
        Entry-earlier (src k) k s t u (c.entries k (omega (arith, ==→ne _ _ later)) (omega arith))
          (r.others k (λ e. ==→ne _ _ later (sym e))) r.busy
          (λ used. r.contents (src k).frame used (held k used))
  ];
  others = λ k out. c.others k (omega (arith, out)) ∙ r.others k (omega (arith, out));
  distinct = λ j k lo mid hi a b. elim (Bool-cases (i == j)) [
    | inl here ↦
        subst (λ j. ((u.pages j).frame ≢ (u.pages k).frame) ⊎ Full u) (==→eq _ _ here)
          (Entry-distinct (src i) (src k) i k s t u r.entry
            (c.entries k (omega (arith, ==→eq _ _ here)) (omega arith)) (c.others i (omega arith))
            c.busy c.frame_number (subst (λ j. (src j).frame ≢ 0) (sym (==→eq _ _ here)) a) b)
    | inr later ↦ c.distinct j k (omega (arith, ==→ne _ _ later)) mid (omega arith) a b
  ];
}

-- The loop of clonePageTable over a table whose entries without frames are left alone. Each entry with
-- a frame gets the fields of its source and a frame of its own, that was free before, is busy
-- afterwards and holds a copy of the source's frame, unless all visited frames are busy at the end. No
-- two entries get the same frame, no busy frame but frame 0 changes, and none is freed. Frame 0 and the
-- frames of the source are busy, the entries of the new table are empty, and the frames fit an entry.
pub clone_pages-Clones :
    (n i : ℕ) (src : ℕ → Page) (s : Copy)
    → is_busy s.paging.frames 0 ≡ true
    → ((k : ℕ) → (src k).frame ≢ 0 → is_busy s.paging.frames (src k).frame ≡ true)
    → ((k : ℕ) → i ≤ k → (s.pages k).frame ≡ 0)
    → s.paging.frame_number * 32 ≤ 2 ^ 20
    → Clones src i n s (clone_pages n i src s)
unfolding clone_pages
clone_pages-Clones zero i src s zero_busy held empty small = record {
  frame_number = refl;
  busy = λ f b. b;
  contents = λ f ne b. refl;
  entries = λ k lo hi. absurd (omega arith);
  others = λ k out. refl;
  distinct = λ j k lo mid hi a b. absurd (omega arith);
}
clone_pages-Clones (suc n) i src s zero_busy held empty small =
    let r = clone_page-Round (src i) i s (empty i (omega arith)) small in
    Clones-cons src i n s (clone_page (src i) i s)
      (clone_pages n (i + 1) src (clone_page (src i) i s)) zero_busy held r
      (clone_pages-Clones n (i + 1) src (clone_page (src i) i s) (r.busy 0 zero_busy)
        (λ k used. r.busy (src k).frame (held k used))
        (λ k lo. ap Page.frame (r.others k (omega arith)) ∙ empty k (omega arith))
        (subst (λ w. w * 32 ≤ 2 ^ 20) (sym r.frame_number) small))
