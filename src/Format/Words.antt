-- ===== src/Format/Words.antt =====
-- The words of a buffer after one more is stored, and after some are copied in.
use mathlib.Core.List.{append_assoc, append-nil}
use winix.Prelude.{
  ℕ, zero, suc, ◌+◌, ◌<◌, ◌≡◌, refl, ◌∙◌, sym, ap, true, false, [], ◌∷◌, ◌++◌, ◌==◌, arith, length,
}
use winix.Ready.{update}
use winix.Strings.{Memory}
use winix.Format.{words, copy_in}

words-update : (mem : Memory) (a n b c : ℕ) → b < a → words (update mem b c) a n ≡ words mem a n
unfolding words
words-update mem a zero b c lt = refl
words-update mem a (suc n) b c lt =
    let e : (a == b) ≡ false = ground arith in
    rw (e, words-update mem (a + 1) n b c (omega arith)) refl

store_from :
    (buffer : Memory) (a n c : ℕ)
    → words (update buffer (a + n) c) a (suc n) ≡ words buffer a n ++ (c ∷ [])
unfolding words
store_from buffer a zero c = let e : (a == a + 0) ≡ true = ground arith in rw e refl
store_from buffer a (suc n) c =
    let other : (a == a + 1 + n) ≡ false = ground arith in
    let same : a + suc n ≡ a + 1 + n = omega arith in
    ap (λ i. words (update buffer i c) a (suc (suc n))) same
    ∙ rw other (ap (λ l. buffer a ∷ l) (store_from buffer (a + 1) n c))

pub words-store :
    (buffer : Memory) (pos c : ℕ)
    → words (update buffer pos c) 0 (pos + 1) ≡ words buffer 0 pos ++ (c ∷ [])
words-store buffer pos c =
    let e : pos + 1 ≡ suc pos = omega arith in
    let e' : pos ≡ 0 + pos = omega arith in
    ap (words (update buffer pos c) 0) e
    ∙ ap (λ p. words (update buffer p c) 0 (suc pos)) e'
    ∙ store_from buffer 0 pos c

pub words-copy_in :
    (n p s : ℕ) (mem buffer : Memory)
    → words (copy_in n p s mem buffer) 0 (p + n) ≡ words buffer 0 p ++ words mem s n
unfolding copy_in words
words-copy_in zero p s mem buffer =
    let e : p + 0 ≡ p = omega arith in rw e (sym (append-nil (words buffer 0 p)))
words-copy_in (suc n) p s mem buffer =
    let e : p + suc n ≡ p + 1 + n = omega arith in
    rw e (
      words-copy_in n (p + 1) (s + 1) mem (update buffer p (mem s))
      ∙ ap (λ l. l ++ words mem (s + 1) n) (words-store buffer p (mem s))
      ∙ append_assoc (words buffer 0 p) (mem s ∷ []) (words mem (s + 1) n))

pub length-words : (mem : Memory) (a n : ℕ) → length (words mem a n) ≡ n
unfolding words
length-words mem a zero = refl
length-words mem a (suc n) = ap suc (length-words mem (a + 1) n)
