-- ===== src/Strings.antt =====
-- lib/ansi/string.c on a memory of words: `Memory` gives the word at each address, NUL is 0. A loop
-- that runs up to a NUL takes fuel and answers `none` when it runs out; a loop that counts down
-- recurses on its count.
pub mod Copy
pub mod Length
pub mod Compare
mod Tests
use winix.Prelude.{
  ℕ, zero, suc, ◌+◌, ◌-◌, ◌*◌, ◌^◌, ◌%◌, Bool, true, false, not, ◌&&◌, ◌||◌, Option, none, some,
  ltb, leb, ◌==◌, if◌then◌else◌,
}
use winix.Ready.{update}

abbrev pub Memory : Type 0
Memory = ℕ → ℕ

-- The loop of `memcpy`, with `n` words left.
unfoldable pub copy_loop : (n p1 p2 : ℕ) → Memory → Memory
copy_loop zero p1 p2 mem = mem
copy_loop (suc n) p1 p2 mem = copy_loop n (p1 + 1) (p2 + 1) (update mem p1 (mem p2))

-- The functions that return their first argument return the memory only.
pub memcpy : (s1 s2 n : ℕ) → Memory → Memory
unfolding copy_loop
memcpy s1 s2 n mem = copy_loop n s1 s2 mem

-- The loop that copies from the end, with `n` words left.
unfoldable copy_back : (n to from : ℕ) → Memory → Memory
copy_back zero to from mem = mem
copy_back (suc n) to from mem = copy_back n to from (update mem (to + n) (mem (from + n)))

-- `d < (int)n` for a positive distance between two pointers: from 2 ^ 31 on, `(int)n` is negative.
abbrev pub below_int : (d n : ℕ) → Bool
below_int d n = ltb n (2 ^ 31) && ltb d n

unfoldable pub memmove : (dest src n : ℕ) → Memory → Memory
unfolding copy_back memcpy copy_loop
memmove dest src n mem =
    if (src == dest) || (n == 0)
    then mem
    else if ltb src dest && below_int (dest - src) n
    then copy_back n dest src mem
    else if ltb dest src && below_int (src - dest) n
    then copy_loop n dest src mem
    else memcpy dest src n mem

-- The loop of `memset`, with `n` words left.
unfoldable pub memset : (dst c n : ℕ) → Memory → Memory
memset dst c zero mem = mem
memset dst c (suc n) mem = memset (dst + 1) c n (update mem dst c)

-- The difference `*s1 - *s2` is given by its two words.
unfoldable pub strcmp : (fuel s1 s2 : ℕ) → Memory → Option (ℕ × ℕ)
strcmp zero s1 s2 mem = none
strcmp (suc fuel) s1 s2 mem =
    let rest = strcmp fuel (s1 + 1) (s2 + 1) mem in
    if not (mem s1 == 0) && not (mem s2 == 0)
    then if not (mem s1 == mem s2) then some (mem s1, mem s2) else rest
    else some (mem s1, mem s2)

-- `size` counts down, so that no fuel is needed.
unfoldable pub strncmp : (s1 s2 size : ℕ) → Memory → ℕ × ℕ
strncmp s1 s2 zero mem = (mem s1, mem s2)
strncmp s1 s2 (suc size) mem =
    let rest = strncmp (s1 + 1) (s2 + 1) size mem in
    if not (mem s1 == 0) && not (mem s2 == 0)
    then if not (mem s1 == mem s2) then (mem s1, mem s2) else rest
    else (mem s1, mem s2)

-- Where the loop of `strlen` stops.
unfoldable pub end_of : (fuel s : ℕ) → Memory → Option ℕ
end_of zero s mem = none
end_of (suc fuel) s mem = let rest = end_of fuel (s + 1) mem in if mem s == 0 then some s else rest

unfoldable pub strlen : (fuel s : ℕ) → Memory → Option ℕ
strlen fuel s mem = elim (end_of fuel s mem) [ none ↦ none | some e ↦ some (e - s) ]

-- `while (*dest++ = *src++);` : it returns `dest` behind the NUL.
unfoldable pub copy_string : (fuel dest src : ℕ) → Memory → Option (ℕ × Memory)
copy_string zero dest src mem = none
copy_string (suc fuel) dest src mem =
    let mem' = update mem dest (mem src) in
    let rest = copy_string fuel (dest + 1) (src + 1) mem' in
    if mem src == 0 then some (dest + 1, mem') else rest

-- The copy, and the second NUL behind it.
unfoldable pub strcpy : (fuel dest src : ℕ) → Memory → Option Memory
strcpy fuel dest src mem = elim (copy_string fuel dest src mem) [
  | none ↦ none
  | some (d, mem') ↦ some (update mem' d 0)
]

-- The loop of `strncpy` and the NUL behind it.
unfoldable pub strncpy : (dest src n : ℕ) → Memory → Memory
strncpy dest src zero mem = update mem dest 0
strncpy dest src (suc n) mem =
    let rest = strncpy (dest + 1) (src + 1) n (update mem dest (mem src)) in
    if not (mem src == 0) then rest else update mem dest 0

unfoldable pub strcat : (fuel dest src : ℕ) → Memory → Option Memory
strcat fuel dest src mem = elim (end_of fuel dest mem) [
  | none ↦ none
  | some e ↦ strcpy fuel e src mem
]

-- `n -= dst_len` wraps around, and `n <= 0` on a `size_t` is `n == 0`.
unfoldable pub strncat : (fuel dest src n : ℕ) → Memory → Option Memory
strncat fuel dest src n mem = elim (end_of fuel dest mem) [
  | none ↦ none
  | some e ↦
      let left = (n + 2 ^ 32 - (e - dest)) % 2 ^ 32 in
      some (if left == 0 then mem else strncpy e src left mem)
]

-- The loop of `substring`, with `n` words left, and the NUL.
unfoldable substring_loop : (n buffer original : ℕ) → Memory → Memory
substring_loop zero buffer original mem = update mem buffer 0
substring_loop (suc n) buffer original mem =
    substring_loop n (buffer + 1) (original + 1) (update mem buffer (mem original))

-- It returns the count; a length that is negative as an `int` copies nothing.
unfoldable pub substring : (buffer original start_index length : ℕ) → Memory → ℕ × Memory
unfolding substring_loop
substring buffer original start_index length mem =
    if leb (2 ^ 31) length
    then (0, update mem buffer 0)
    else (length, substring_loop length buffer (original + start_index) mem)

-- NULL is `some none`.
unfoldable pub index : (fuel string c : ℕ) → Memory → Option (Option ℕ)
index zero s c mem = none
index (suc fuel) s c mem =
    let rest = index fuel (s + 1) c mem in
    if not (mem s == 0) && not (mem s == c)
    then rest
    else some (if not (mem s == 0) then some s else none)

-- Whether `Y` is a prefix of `X`.
unfoldable pub compare : (fuel X Y : ℕ) → Memory → Option Bool
compare zero X Y mem = none
compare (suc fuel) X Y mem =
    let rest = compare fuel (X + 1) (Y + 1) mem in
    if not (mem X == 0) && not (mem Y == 0)
    then if not (mem X == mem Y) then some false else rest
    else some (mem Y == 0)

unfoldable pub strstr : (fuel haystack needle : ℕ) → Memory → Option (Option ℕ)
strstr zero X Y mem = none
strstr (suc fuel) X Y mem =
    let rest = strstr fuel (X + 1) Y mem in
    if not (mem X == 0)
    then if mem X == mem Y
      then elim (compare (suc fuel) X Y mem) [
        | none ↦ none
        | some true ↦ some (some X)
        | some false ↦ rest
      ]
      else rest
    else some none

-- `strchr` is `index`; what both functions count from here on.
abbrev pub one_more : Option ℕ → Option ℕ
one_more none = none
one_more (some n) = some (n + 1)

unfoldable pub strcspn : (fuel s1 s2 : ℕ) → Memory → Option ℕ
strcspn zero s1 s2 mem = none
strcspn (suc fuel) s1 s2 mem =
    let rest = strcspn fuel (s1 + 1) s2 mem in
    if not (mem s1 == 0)
    then elim (index (suc fuel) s2 (mem s1) mem) [
      | none ↦ none
      | some (some _) ↦ some 0
      | some none ↦ one_more rest
    ]
    else some 0

unfoldable pub strspn : (fuel s1 s2 : ℕ) → Memory → Option ℕ
strspn zero s1 s2 mem = none
strspn (suc fuel) s1 s2 mem =
    let rest = strspn fuel (s1 + 1) s2 mem in
    if not (mem s1 == 0)
    then elim (index (suc fuel) s2 (mem s1) mem) [
      | none ↦ none
      | some (some _) ↦ one_more rest
      | some none ↦ some 0
    ]
    else some 0
