-- ===== src/Path/Name.antt =====
-- `get_name`: the first name of a path, and the rest.
use winix.Prelude.{
  ℕ, zero, suc, ◌+◌, ◌-◌, ◌≤◌, ◌<◌, ◌≡◌, refl, ◌∙◌, ap, true, false, some, ltb, leb, ◌==◌,
  if◌then◌else◌, arith, Bool-cases, inl, inr, ◌⊎◌,
}
use winix.Ready.{update}
use winix.Strings.{Memory}
use winix.Path.{
  path_max, name_max, slash, skip_leading, Copied, in_name, copy_name, skip_trailing, after_slashes,
  get_name,
}

-- `k` slashes from `p` on, and no slash behind them.
pub record IsSlashes (mem : Memory) (p k : ℕ) : Type 0 where
  pub slashes : (i : ℕ) → i < k → (mem (p + i) == slash) ≡ true
  pub ends : (mem (p + k) == slash) ≡ false

-- A name of `n` characters from `p` on.
pub record IsName (mem : Memory) (p n : ℕ) : Type 0 where
  pub chars : (i : ℕ) → i < n → in_name (mem (p + i)) ≡ true
  pub ends : in_name (mem (p + n)) ≡ false

IsSlashes-rest : {mem : Memory} {p k : ℕ} → IsSlashes mem p (suc k) → IsSlashes mem (p + 1) k
IsSlashes-rest {mem} {p} {k} v = record {
  slashes = λ i lt.
      let same : p + 1 + i ≡ p + (i + 1) = omega arith in rw same (v.slashes (i + 1) (omega arith));
  ends = let same : p + 1 + k ≡ p + suc k = omega arith in rw same v.ends;
}

IsSlashes-first : {mem : Memory} {p k : ℕ} → IsSlashes mem p (suc k) → (mem p == slash) ≡ true
IsSlashes-first {mem} {p} v =
    let same : p + 0 ≡ p = omega arith in rw same at (v.slashes 0 (omega arith))

IsSlashes-none : {mem : Memory} {p : ℕ} → IsSlashes mem p 0 → (mem p == slash) ≡ false
IsSlashes-none {mem} {p} v = let same : p + 0 ≡ p = omega arith in rw same at v.ends

skip_leading-IsSlashes :
    (fuel p k : ℕ) (mem : Memory)
    → IsSlashes mem p k
    → k < fuel
    → skip_leading fuel p mem ≡ some (p + k)
unfolding skip_leading
skip_leading-IsSlashes zero p k mem v lt = absurd (omega arith)
skip_leading-IsSlashes (suc fuel) p zero mem v lt = rw (IsSlashes-none v) (ap some (omega arith))
skip_leading-IsSlashes (suc fuel) p (suc k) mem v lt = rw (IsSlashes-first v) (
    skip_leading-IsSlashes fuel (p + 1) k mem (IsSlashes-rest v) (omega arith)
    ∙ ap some (omega arith))

skip_trailing-IsSlashes :
    (left p k : ℕ) (mem : Memory) → IsSlashes mem p k → k < left → skip_trailing left p mem ≡ p + k
unfolding skip_trailing
skip_trailing-IsSlashes zero p k mem v lt = absurd (omega arith)
skip_trailing-IsSlashes (suc left) p zero mem v lt = rw (IsSlashes-none v) (omega arith)
skip_trailing-IsSlashes (suc left) p (suc k) mem v lt =
    rw (IsSlashes-first v)
      (skip_trailing-IsSlashes left (p + 1) k mem (IsSlashes-rest v) (omega arith) ∙ omega arith)

IsName-first : {mem : Memory} {p n : ℕ} → IsName mem p (suc n) → in_name (mem p) ≡ true
IsName-first {mem} {p} v =
    let same : p + 0 ≡ p = omega arith in rw same at (v.chars 0 (omega arith))

IsName-none : {mem : Memory} {p : ℕ} → IsName mem p 0 → in_name (mem p) ≡ false
IsName-none {mem} {p} v = let same : p + 0 ≡ p = omega arith in rw same at v.ends

-- The rest of a name is a name, also after a write elsewhere.
IsName-rest :
    {mem mem' : Memory} {p n : ℕ}
    → IsName mem p (suc n)
    → ((i : ℕ) → i ≤ n → mem' (p + 1 + i) ≡ mem (p + 1 + i))
    → IsName mem' (p + 1) n
IsName-rest {mem} {p} {n} v same = record {
  chars = λ i lt.
      let e : p + 1 + i ≡ p + (i + 1) = omega arith in
      ap in_name (same i (omega arith) ∙ ap mem e) ∙ v.chars (i + 1) (omega arith);
  ends =
      let e : p + 1 + n ≡ p + suc n = omega arith in
      ap in_name (same n (omega arith) ∙ ap mem e) ∙ v.ends;
}

-- What the copying loop does with a name of `n` characters: as many as fit are at `np`.
record IsCopied (mem : Memory) (rnp np limit n : ℕ) (c : Copied) : Type 0 where
  read : c.rnp ≡ rnp + n
  written : c.np ≡ (if leb (np + n) limit then np + n else limit)
  kept : (a : ℕ) → (a < np) ⊎ ((limit ≤ a) ⊎ (np + n ≤ a)) → c.mem a ≡ mem a
  name : (i : ℕ) → i < n → np + i < limit → c.mem (np + i) ≡ mem (rnp + i)

-- The characters at `np`, when the first is put there and the others behind it.
name_step :
    (mem m : Memory) (rnp np limit n : ℕ)
    → m np ≡ mem rnp
    → ((i : ℕ) → i < n → np + 1 + i < limit → m (np + 1 + i) ≡ mem (rnp + 1 + i))
    → (i : ℕ) → i < suc n
    → np + i < limit
    → m (np + i) ≡ mem (rnp + i)
name_step mem m rnp np limit n first others zero below inner =
    let e : np + 0 ≡ np = omega arith in
    let e' : rnp ≡ rnp + 0 = omega arith in ap m e ∙ first ∙ ap mem e'
name_step mem m rnp np limit n first others (suc i) below inner =
    let e : np + suc i ≡ np + 1 + i = omega arith in
    let e' : rnp + 1 + i ≡ rnp + suc i = omega arith in
    ap m e ∙ others i (omega arith) (omega arith) ∙ ap mem e'

copy_name-IsCopied :
    (n left rnp np limit : ℕ) (mem : Memory)
    → n < left
    → IsName mem rnp n
    → np ≤ limit
    → (rnp + n < np) ⊎ (limit ≤ rnp)
    → IsCopied mem rnp np limit n (copy_name left rnp np limit mem)
unfolding copy_name
copy_name-IsCopied n zero rnp np limit mem lt v le apart = absurd (omega arith)
copy_name-IsCopied zero (suc left) rnp np limit mem lt v le apart = rw (IsName-none v) (record {
  read = omega arith;
  written = ground arith;
  kept = λ a _. refl;
  name = λ i below. absurd (omega arith);
})
copy_name-IsCopied (suc n) (suc left) rnp np limit mem lt v le apart =
    elim (Bool-cases (ltb np limit)) [
      | inl fits ↦
          let mem1 = update mem np (mem rnp) in
          let same : (i : ℕ) → i ≤ n → mem1 (rnp + 1 + i) ≡ mem (rnp + 1 + i) =
            λ i below. let other : (rnp + 1 + i == np) ≡ false = ground arith in rw other refl in
          let c =
            copy_name-IsCopied n left (rnp + 1) (np + 1) limit mem1 (omega arith)
              (IsName-rest v same) (ground arith) (ground arith) in
          rw (IsName-first v, fits)
            (record {
              read = omega (arith, c.read);
              written = ground (arith, c.written);
              kept = λ a outside.
                  let other : (a == np) ≡ false = ground arith in
                  c.kept a (ground arith) ∙ rw other refl;
              name =
                  let self : (np == np) ≡ true = ground arith in
                  name_step mem ((copy_name left (rnp + 1) (np + 1) limit mem1).mem) rnp np limit n
                    (c.kept np (inl (omega arith)) ∙ rw self refl)
                    (λ i below inner. c.name i below inner ∙ same i (omega arith));
            })
      | inr full ↦
          let c =
            copy_name-IsCopied n left (rnp + 1) np limit mem (omega arith)
              (IsName-rest v (λ i below. refl)) le (ground arith) in
          rw (IsName-first v, full)
            (record {
              read = omega (arith, c.read);
              written = ground (arith, c.written);
              kept = λ a outside. c.kept a (ground arith);
              name = λ i below inner. absurd (ground arith);
            })
    ]

-- What `get_name` leaves at `string`, for a name of `n` characters at `p`.
pub record IsNamed (mem : Memory) (p n string : ℕ) (mem' : Memory) : Type 0 where
  pub name : (i : ℕ) → i < n → i < name_max → mem' (string + i) ≡ mem (p + i)
  pub nul : n < name_max → mem' (string + n) ≡ 0
  pub kept : (a : ℕ) → (a < string) ⊎ ((string + name_max ≤ a) ⊎ (string + n < a)) → mem' a ≡ mem a

after_slashes-IsNamed :
    (end string rnp n j : ℕ) (mem : Memory)
    → IsName mem rnp n
    → IsSlashes mem (rnp + n) j
    → rnp + n + j < end
    → (end ≤ string) ⊎ (string + name_max ≤ rnp)
    → (mem' : Memory) × (after_slashes end (string + name_max) string rnp mem ≡ (rnp + n + j, mem'))
      × IsNamed mem rnp n string mem'
unfolding after_slashes
after_slashes-IsNamed end string rnp n j mem v trailing lt apart =
    let limit = string + name_max in
    let c =
      copy_name-IsCopied n (end - rnp) rnp string limit mem (omega arith) v (omega arith)
        (ground arith) in
    let copy = copy_name (end - rnp) rnp string limit mem in
    let unchanged : (i : ℕ) → i ≤ j → copy.mem (rnp + n + i) ≡ mem (rnp + n + i) =
      λ i le. c.kept (rnp + n + i) (ground arith) in
    let trailing' : IsSlashes copy.mem (rnp + n) j = record {
      slashes =
          λ i below. ap (λ w. w == slash) (unchanged i (omega arith)) ∙ trailing.slashes i below;
      ends = ap (λ w. w == slash) (unchanged j (omega arith)) ∙ trailing.ends;
    } in
    let last : skip_trailing (end - copy.rnp) copy.rnp copy.mem ≡ rnp + n + j =
      rw c.read
        (skip_trailing-IsSlashes (end - (rnp + n)) (rnp + n) j copy.mem trailing' (omega arith)) in
    let inside_path : leb end (rnp + n + j) ≡ false = ground arith in
    (
      (if ltb copy.np limit then update copy.mem copy.np 0 else copy.mem),
      rw (last, inside_path) refl,
      record {
        name = λ i below inner. elim (Bool-cases (ltb copy.np limit)) [
          | inl e ↦
              let other : (string + i == copy.np) ≡ false = ground (arith, c.written) in
              rw (e, other) (c.name i below (omega arith))
          | inr e ↦ rw e (c.name i below (omega arith))
        ];
        nul = λ short.
            let at : copy.np ≡ string + n = ground (arith, c.written) in
            let e : ltb copy.np limit ≡ true = ground (arith, at) in
            let here : (string + n == copy.np) ≡ true = ground (arith, at) in rw (e, here) refl;
        kept = λ a outside. elim (Bool-cases (ltb copy.np limit)) [
          | inl e ↦
              let other : (a == copy.np) ≡ false = ground (arith, c.written) in
              rw (e, other) (c.kept a (ground arith))
          | inr e ↦ rw e (c.kept a (ground (arith, c.written)))
        ];
      },
    )

get_name-after_slashes :
    (fuel p string rnp : ℕ) (mem : Memory)
    → skip_leading fuel p mem ≡ some rnp
    → get_name fuel p string mem
      ≡ some (after_slashes (p + path_max) (string + name_max) string rnp mem)
unfolding get_name
get_name-after_slashes fuel p string rnp mem e = rw e refl

-- For `k` slashes, then a name, possibly empty, then `j` slashes, with fewer than PATH_MAX
-- characters in all and `string` apart from them, get_name returns within `k` + 1 rounds of its
-- unbounded loop: it answers the address behind them, `string` has the first characters of the
-- name, at most NAME_MAX, with a NUL behind a shorter one, and no word of memory but these changes.
pub get_name-IsNamed :
    (fuel p string k n j : ℕ) (mem : Memory)
    → IsSlashes mem p k
    → IsName mem (p + k) n
    → IsSlashes mem (p + k + n) j
    → k + n + j < path_max
    → k < fuel
    → (p + path_max ≤ string) ⊎ (string + name_max ≤ p)
    → (mem' : Memory) × (get_name fuel p string mem ≡ some (p + k + n + j, mem'))
      × IsNamed mem (p + k) n string mem'
get_name-IsNamed fuel p string k n j mem leading name trailing lt enough apart =
    let (mem', run, named) =
      after_slashes-IsNamed (p + path_max) string (p + k) n j mem name trailing (omega arith)
        (ground arith) in
    (
      mem',
      get_name-after_slashes fuel p string (p + k) mem
            (skip_leading-IsSlashes fuel p k mem leading enough)
          ∙ ap some run,
      named,
    )
