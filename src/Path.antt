-- ===== src/Path.antt =====
-- get_name of fs/path.c, which splits a path, and the strings of fs/util.c, on a memory of words.
pub mod Name
mod Tests
use winix.Prelude.{
  ℕ, zero, suc, ◌+◌, ◌-◌, Bool, true, false, not, ◌&&◌, Option, none, some, ltb, leb, ◌==◌,
  if◌then◌else◌,
}
use winix.Ready.{Ptr, null, update}
use winix.Strings.{Memory}

abbrev pub path_max : ℕ
path_max = 128

abbrev pub name_max : ℕ
name_max = 32

abbrev pub slash : ℕ
slash = 47

-- `while ( (c = *rnp) == '/')` : there is no bound, so that it takes fuel.
unfoldable pub skip_leading : (fuel rnp : ℕ) → Memory → Option ℕ
skip_leading zero rnp mem = none
skip_leading (suc fuel) rnp mem =
    let rest = skip_leading fuel (rnp + 1) mem in if mem rnp == slash then rest else some rnp

-- What the copying loop leaves.
pub record Copied : Type 0 where
  pub rnp : ℕ
  pub np : ℕ
  pub mem : Memory

abbrev pub copied : (rnp np : ℕ) → Memory → Copied
copied rnp np mem = record { rnp = rnp; np = np; mem = mem }

-- `c != '/' && c != '\0'`
abbrev pub in_name : ℕ → Bool
in_name c = not (c == slash) && not (c == 0)

-- The copying loop, with `left` words up to the end of `old_name`; `limit` is the end of `string`.
unfoldable pub copy_name : (left rnp np limit : ℕ) → Memory → Copied
copy_name zero rnp np limit mem = copied rnp np mem
copy_name (suc left) rnp np limit mem =
    let fits = ltb np limit in
    let rest =
      copy_name left (rnp + 1) (if fits then np + 1 else np) limit
        (if fits then update mem np (mem rnp) else mem) in
    if in_name (mem rnp) then rest else copied rnp np mem

-- The loop over trailing slashes.
unfoldable pub skip_trailing : (left rnp : ℕ) → Memory → ℕ
skip_trailing zero rnp mem = rnp
skip_trailing (suc left) rnp mem =
    let rest = skip_trailing left (rnp + 1) mem in if mem rnp == slash then rest else rnp

-- What follows the leading slashes, with the end of `old_name` and that of `string`.
unfoldable pub after_slashes : (end limit np rnp : ℕ) → Memory → Ptr × Memory
after_slashes end limit np rnp mem =
    let c = copy_name (end - rnp) rnp np limit mem in
    let last = skip_trailing (end - c.rnp) c.rnp c.mem in
    (if leb end last then null else last, if ltb c.np limit then update c.mem c.np 0 else c.mem)

abbrev pub name_after : (old_name string : ℕ) → Memory → Option ℕ → Option (Ptr × Memory)
name_after old_name string mem none = none
name_after old_name string mem (some rnp) =
    some (after_slashes (old_name + path_max) (string + name_max) string rnp mem)

-- The part of the path that is left, NULL if the path is too long, and the memory with the name.
unfoldable pub get_name : (fuel old_name string : ℕ) → Memory → Option (Ptr × Memory)
get_name fuel old_name string mem = name_after old_name string mem (skip_leading fuel old_name mem)

-- The loop of char32_strcpy, then the second NUL.
unfoldable pub char32_strcpy : (fuel dest src : ℕ) → Memory → Option Memory
char32_strcpy zero dest src mem = none
char32_strcpy (suc fuel) dest src mem =
    let mem' = update mem dest (mem src) in
    let rest = char32_strcpy fuel (dest + 1) (src + 1) mem' in
    if mem src == 0 then some (update mem' (dest + 1) 0) else rest

unfoldable pub char32_strncpy : (n dest src : ℕ) → Memory → Memory
char32_strncpy zero dest src mem = update mem dest 0
char32_strncpy (suc n) dest src mem =
    let rest = char32_strncpy n (dest + 1) (src + 1) (update mem dest (mem src)) in
    if not (mem src == 0) then rest else update mem dest 0

-- Where the loop of char32_strlen stops, from `s` on.
unfoldable pub char32_strlen : (fuel s : ℕ) → Memory → Option ℕ
char32_strlen zero s mem = none
char32_strlen (suc fuel) s mem =
    let rest = char32_strlen fuel (s + 1) mem in
    if mem s == 0 then some 0 else elim rest [ none ↦ none | some n ↦ some (n + 1) ]

-- The difference `*s1 - *s2` is given by its two words.
unfoldable pub char32_strcmp : (fuel s1 s2 : ℕ) → Memory → Option (ℕ × ℕ)
char32_strcmp zero s1 s2 mem = none
char32_strcmp (suc fuel) s1 s2 mem =
    let rest = char32_strcmp fuel (s1 + 1) (s2 + 1) mem in
    if not (mem s1 == 0) && not (mem s2 == 0)
    then if not (mem s1 == mem s2) then some (mem s1, mem s2) else rest
    else some (mem s1, mem s2)
