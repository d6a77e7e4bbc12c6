-- ===== src/Ready/Remove.antt =====
-- `dequeue_schedule`: the process leaves the chain, but the tail pointer is not always moved.
use winix.Prelude.{
  zero, suc, ◌+◌, ◌≤◌, ◌<◌, ◌≡◌, ◌≢◌, refl, ap, ◌∙◌, true, false, List, [], ◌∷◌, arith, ◌==◌,
  if◌then◌else◌, length, Bool-cases, ==_iff, inl, inr, some,
}
use winix.Errno.{ok, err}
use winix.Ready.{
  Ptr, null, update, queue, Links, links, find_link, unlink, dequeue_schedule, max_procs,
}
use winix.Ready.Chain.{has, Chain, IsQueue, Chain-same, ne_of_has}

-- The list without the first `h`.
unfoldable pub erase : Ptr → List Ptr → List Ptr
erase h [] = []
erase h (x ∷ xs) = if x == h then xs else x ∷ erase h xs

-- The process before `h`, `prev` if `h` comes first.
unfoldable pub before : Ptr → Ptr → List Ptr → Ptr
before h prev [] = prev
before h prev (x ∷ xs) = if x == h then prev else before h x xs

-- The walk over a chain ends at `h`, or at NULL if `h` is not on it.
pub find_link-before :
    (next : Ptr → Ptr) (h fuel prev curr : Ptr) (xs : List Ptr)
    → Chain next curr xs
    → h ≢ null
    → length xs < fuel
    → find_link next h fuel prev curr ≡ some ((if has h xs then h else null), before h prev xs)
unfolding find_link has before
find_link-before next h zero prev curr xs c ne enough = absurd (omega arith)
find_link-before next h (suc fuel) prev curr [] c ne enough = ground (arith, c)
find_link-before next h (suc fuel) prev curr (x ∷ xs) c ne enough = elim (Bool-cases (x == h)) [
  | inl e ↦ ground (arith, c)
  | inr e ↦
      let rest = find_link-before next h fuel x (next x) xs c.3 ne (omega arith) in
      let off : (h == x) ≡ false = ground arith in
      let go : (curr == h) ≡ false = ground (arith, c) in
      let more : (curr == null) ≡ false = ground (arith, c) in
      rw (e, off, go, more, ap next c.0, c.0) rest
]

pub has-erase_le : (a h : Ptr) (xs : List Ptr) → has a xs ≡ false → has a (erase h xs) ≡ false
unfolding has erase
has-erase_le a h [] out = refl
has-erase_le a h (x ∷ xs) out = ground (arith, has-erase_le a h xs)

-- `before` is the first process or one of the list.
pub has-before : (h x : Ptr) (xs : List Ptr) → has (before h x xs) (x ∷ xs) ≡ true
unfolding has before
has-before h x [] = ground arith
has-before h x (y ∷ xs) = ground (arith, has-before h y xs)

module _ (h prev x : Ptr) (xs : List Ptr) where
  pub before_here : (x == h) ≡ true → before h prev (x ∷ xs) ≡ prev
  unfolding before
  before_here e = rw e

  pub before_there : (x == h) ≡ false → before h prev (x ∷ xs) ≡ before h x xs
  unfolding before
  before_there e = rw e

pub erase_here : (h x : Ptr) (xs : List Ptr) → (x == h) ≡ true → erase h (x ∷ xs) ≡ xs
unfolding erase
erase_here h x xs e = rw e

pub erase_there : (h x : Ptr) (xs : List Ptr) → (x == h) ≡ false → erase h (x ∷ xs) ≡ x ∷ erase h xs
unfolding erase
erase_there h x xs e = rw e

-- A process that is not the first is on the rest.
pub has_there :
    (h x : Ptr) (xs : List Ptr) → (x == h) ≡ false → has h (x ∷ xs) ≡ true → has h xs ≡ true
unfolding has
has_there h x xs e on = ground arith

-- Linking past `h` takes it out of the chain behind the first process.
pub splice :
    (next : Ptr → Ptr) (h b p x : Ptr) (xs : List Ptr)
    → b ≡ before h x xs
    → Chain next p (x ∷ xs)
    → has h xs ≡ true
    → Chain (update next b (next h)) p (x ∷ erase h xs)
unfolding has
splice next h b p x [] is c on = cc
splice next h b p x (y ∷ xs) is c on = elim (Bool-cases (y == h)) [
  | inl e ↦
      let same : y ≡ h = (==_iff _ _).0 e in
      let here : b ≡ x = is ∙ before_here h x y xs e in
      let link : update next b (next h) x ≡ next h = ground arith in
      let kept : Chain (update next b (next h)) (next h) xs =
        Chain-same (next h) xs (rw same at c.3.3)
          (λ a m. rw (here, ne_of_has a x xs m (ground (arith, c.2)))) in
      rw (erase_here h y xs e) (c.0, c.1, ground (arith, c.2), rw link kept)
  | inr e ↦
      let there : b ≡ before h y xs = is ∙ before_there h x y xs e in
      let off : (x == b) ≡ false =
        rw there (ground (arith, ne_of_has (before h y xs) x (y ∷ xs) (has-before h y xs) c.2)) in
      let link : update next b (next h) x ≡ next x = rw off in
      let rest = splice next h b (next x) y xs there c.3 (has_there h y xs e on) in
      rw (erase_there h y xs e) (c.0, c.1, ground (arith, has-erase_le x h xs, c.2), rw link rest)
]

dequeue_schedule_at :
    (s : Links) (h : Ptr) {at : Ptr × Ptr}
    → find_link s.next h (max_procs + 1) null s.q.head ≡ some at
    → dequeue_schedule s h ≡ some (unlink s at)
unfolding dequeue_schedule
dequeue_schedule_at s h e = rw (e, dequeue_schedule) refl

module _ (s : Links) (xs : List Ptr) (h : Ptr) (v : IsQueue s xs) (ne : h ≢ null)
    (few : length xs ≤ max_procs) where
  walk :
      find_link s.next h (max_procs + 1) null s.q.head
      ≡ some ((if has h xs then h else null), before h null xs)
  walk = find_link-before s.next h (max_procs + 1) null s.q.head xs v.chain ne (omega arith)

  -- A process that is not on the queue: ERR, and nothing changes.
  pub dequeue_schedule_absent : has h xs ≡ false → dequeue_schedule s h ≡ some (err, s)
  unfolding unlink
  dequeue_schedule_absent out = dequeue_schedule_at s h walk ∙ (rw out refl)

-- What is left of a queue that held `h`: the chain without it, and the tail that was there, or NULL
-- if nothing is left.
pub record Removed (s : Links) (xs : List Ptr) (h : Ptr) (s' : Links) : Type 0 where
  pub chain : Chain s'.next s'.q.head (erase h xs)
  pub tail : erase h xs ≢ [] → s'.q.tail ≡ s.q.tail

unlink_first :
    (s : Links) (x : Ptr) (xs : List Ptr)
    → IsQueue s (x ∷ xs)
    → (s' : Links) × (unlink s (x, null) ≡ (ok, s'))
      × Chain s'.next s'.q.head xs
      × (xs ≢ [] → s'.q.tail ≡ s.q.tail)
unfolding unlink
unlink_first s x [] v = (
  links s.next (queue (s.next x) null),
  ground (arith, v.chain),
  v.chain.3,
  λ ne. absurd (ne refl),
)
unlink_first s x (y ∷ xs) v = (
  links s.next (queue (s.next x) s.q.tail),
  ground (arith, v.chain, v.chain.3),
  v.chain.3,
  λ ne. refl,
)

unlink_later :
    (s : Links) (h prev : Ptr)
    → h ≢ null
    → prev ≢ null
    → unlink s (h, prev) ≡ (ok, links (update s.next prev (s.next h)) s.q)
unfolding unlink
unlink_later s h prev ne ne' = ground arith

pub Chain-ne_null :
    (next : Ptr → Ptr) (p a : Ptr) (xs : List Ptr) → Chain next p xs → has a xs ≡ true → a ≢ null
unfolding has
Chain-ne_null next p a [] c on = cc
Chain-ne_null next p a (x ∷ xs) c on = elim (Bool-cases (a == x)) [
  | inl e ↦ let same : a ≡ x = (==_iff _ _).0 e in rw same c.1
  | inr e ↦ Chain-ne_null next (next x) a xs c.3 (ground arith)
]

-- On a queue of at most ten processes that holds `h`, `dequeue_schedule` answers OK, and the links
-- lead from the new head through the other processes in order; the tail pointer is the old one.
pub dequeue_schedule-Removed :
    (s : Links) (xs : List Ptr) (h : Ptr)
    → IsQueue s xs
    → length xs ≤ max_procs
    → has h xs ≡ true
    → (s' : Links) × (dequeue_schedule s h ≡ some (ok, s')) × Removed s xs h s'
unfolding has
dequeue_schedule-Removed s [] h v few on = cc
dequeue_schedule-Removed s (x ∷ xs) h v few on =
    let ne = Chain-ne_null s.next s.q.head h (x ∷ xs) v.chain on in
    let found = walk s (x ∷ xs) h v ne few in
    elim (Bool-cases (x == h)) [
      | inl e ↦
          let same : x ≡ h = (==_iff _ _).0 e in
          let (s', u, c, t) = unlink_first s x xs v in
          (
            s',
            dequeue_schedule_at s h found
                ∙ (rw (on, before_here h null x xs e, ← same) (ap some u)),
            record { chain = rw (erase_here h x xs e) c; tail = rw (erase_here h x xs e) t },
          )
      | inr e ↦
          let on' = has_there h x xs e on in
          let prev_on = has-before h x xs in
          let prev_ne = Chain-ne_null s.next s.q.head (before h x xs) (x ∷ xs) v.chain prev_on in
          (
            links (update s.next (before h x xs) (s.next h)) s.q,
            dequeue_schedule_at s h found
                ∙ (rw (on, before_there h null x xs e)
                    (ap some (unlink_later s h (before h x xs) ne prev_ne))),
            record {
              chain =
                  rw (erase_there h x xs e)
                    (splice s.next h (before h x xs) s.q.head x xs refl v.chain on');
              tail = λ _. refl;
            },
          )
    ]
