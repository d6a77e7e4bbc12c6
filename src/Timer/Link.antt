-- ===== src/Timer/Link.antt =====
-- What `insert_timer` makes of the links, `pending_timers` and `next_timeout`.
use winix.Prelude.{
  ℕ, ◌≡◌, ◌≢◌, refl, ap, sym, ◌∙◌, true, false, List, [], ◌∷◌, arith, ltb, ◌==◌, Bool-cases, inl,
  inr,
}
use mathlib.Core.Path.{subst}
use winix.Ready.{Ptr, null, update}
use winix.Ready.Chain.{has, Chain, Chain-same, ne_of_has}
use winix.Ready.Remove.{Chain-ne_null}
use winix.Timer.{Timers, link_timer}
use winix.Timer.Insert.{insert, prev_place, next_place, prev_place-has, linked, splice_in}

-- Linking changes neither the times nor the flags.
pub link_timer-fields :
    (t : Timers) (p : Ptr) (at : Ptr × Ptr)
    → let t' = link_timer t p at in (t'.time_out ≡ t.time_out) × (t'.flags ≡ t.flags)
unfolding link_timer
link_timer-fields t p (b, a) = elim (Bool-cases (b == null)) [
  | inl e ↦ rw e (refl, refl)
  | inr e ↦ rw e (refl, refl)
]

-- What linking makes of the chain that it found its place in.
unfoldable pub Linked : Timers → Ptr → List Ptr → Timers → Type 0
Linked t p xs t' =
    Chain t'.next t'.pending_timers (insert t.time_out p xs)
    × (t'.next_timeout ≡ t.time_out t'.pending_timers)

link_timer_later :
    (t : Timers) (p b a : Ptr)
    → b ≢ null
    → link_timer t p (b, a) ≡ record t { next = linked t.next b p a }
unfolding link_timer
link_timer_later t p b a ne = let later : (b == null) ≡ false = ground arith in rw later refl

link_timer_first :
    (t : Timers) (p a : Ptr)
    → link_timer t p (null, a) ≡ record t {
      next = update t.next p t.pending_timers;
      pending_timers = p;
      next_timeout = t.time_out p;
    }
unfolding link_timer
link_timer_first t p a = refl

module _ (time : Ptr → ℕ) (n prev x : Ptr) (xs : List Ptr) where
  prev_place_there :
      ltb (time x) n ≡ true → prev_place time n prev (x ∷ xs) ≡ prev_place time n x xs
  unfolding prev_place
  prev_place_there e = rw e refl

  prev_place_here : ltb (time x) n ≡ false → prev_place time n prev (x ∷ xs) ≡ prev
  unfolding prev_place
  prev_place_here e = rw e refl

  next_place_there : ltb (time x) n ≡ true → next_place time n (x ∷ xs) ≡ next_place time n xs
  unfolding next_place
  next_place_there e = rw e refl

module _ (time : Ptr → ℕ) (p x : Ptr) (xs : List Ptr) where
  insert_there : ltb (time x) (time p) ≡ true → insert time p (x ∷ xs) ≡ x ∷ insert time p xs
  unfolding insert
  insert_there e = rw e refl

  insert_here : ltb (time x) (time p) ≡ false → insert time p (x ∷ xs) ≡ p ∷ x ∷ xs
  unfolding insert
  insert_here e = rw e refl

-- The place that the walk finds.
unfoldable pub place : Timers → Ptr → List Ptr → Ptr × Ptr
place t p xs =
    (prev_place t.time_out (t.time_out p) null xs, next_place t.time_out (t.time_out p) xs)

place_nil : (t : Timers) (p : Ptr) → place t p [] ≡ (null, null)
unfolding place prev_place next_place
place_nil t p = refl

place_here :
    (t : Timers) (p x : Ptr) (xs : List Ptr)
    → ltb (t.time_out x) (t.time_out p) ≡ false
    → place t p (x ∷ xs) ≡ (null, next_place t.time_out (t.time_out p) (x ∷ xs))
unfolding place
place_here t p x xs e =
    ap (λ b. (b, next_place t.time_out (t.time_out p) (x ∷ xs)))
      (prev_place_here t.time_out (t.time_out p) null x xs e)

place_there :
    (t : Timers) (p x : Ptr) (xs : List Ptr)
    → ltb (t.time_out x) (t.time_out p) ≡ true
    → place t p (x ∷ xs)
      ≡ (prev_place t.time_out (t.time_out p) x xs, next_place t.time_out (t.time_out p) xs)
unfolding place
place_there t p x xs e =
    rw
      (
        prev_place_there t.time_out (t.time_out p) null x xs e,
        next_place_there t.time_out (t.time_out p) null x xs e,
      )
      refl

pub link_timer-Linked :
    (t : Timers) (p : Ptr) (xs : List Ptr)
    → Chain t.next t.pending_timers xs
    → (xs ≢ [] → t.next_timeout ≡ t.time_out t.pending_timers)
    → p ≢ null
    → has p xs ≡ false
    → Linked t p xs (link_timer t p (place t p xs))
unfolding has insert Linked
link_timer-Linked t p [] c soon ne out =
    subst (Linked t p []) (sym (ap (link_timer t p) (place_nil t p) ∙ link_timer_first t p null))
      ((refl, ne, refl, ground (arith, c)), refl)
link_timer-Linked t p (x ∷ xs) c soon ne out =
    let n = t.time_out p in
    elim (Bool-cases (ltb (t.time_out x) n)) [
      | inl e ↦
          let b = prev_place t.time_out n x xs in
          let a = next_place t.time_out n xs in
          let b_ne =
            Chain-ne_null t.next t.pending_timers b (x ∷ xs) c (prev_place-has t.time_out n x xs) in
          subst (Linked t p (x ∷ xs))
            (sym (ap (link_timer t p) (place_there t p x xs e) ∙ link_timer_later t p b a b_ne))
            (rw (insert_there t.time_out p x xs e) (
              splice_in t.time_out t.next p b a t.pending_timers x xs refl refl c ne out,
              soon (λ e. cc),
            ))
      | inr e ↦
          let link : update t.next p t.pending_timers p ≡ t.pending_timers = ground arith in
          let kept =
            Chain-same {next' = update t.next p t.pending_timers} t.pending_timers (x ∷ xs) c
              (λ a m. rw (ne_of_has a p (x ∷ xs) m out) refl) in
          let first = ap (link_timer t p) (place_here t p x xs e) in
          subst (Linked t p (x ∷ xs))
            (sym (first ∙ link_timer_first t p (next_place t.time_out n (x ∷ xs))))
            (rw (insert_here t.time_out p x xs e) ((refl, ne, out, rw link kept), refl))
    ]
