-- ===== src/Bitmap/Reverse.antt =====
-- `bitmap_search_reverse` finds the last run of free pages that is long enough.
use mathlib.Core.Bool.{false≢true}
use winix.Prelude.{
  ℕ, zero, suc, ◌+◌, ◌*◌, ◌≤◌, ◌<◌, ◌≡◌, ◌≢◌, refl, sym, inl, inr, true, false, List, Option, none,
  some, arith, leb, ◌==◌, ==_iff, if◌then◌else◌, Bool-cases, dec_lt,
}
use winix.Bitmap.{
  Scan, found, going, is_clear, scan_word_back, scan_words_back, bitmap_search_reverse,
}
use winix.Bitmap.Masks.{page_on, is_clear-page_on}
use winix.Bitmap.Search.{FreeRun}

scan_back_busy :
    (map : List ℕ) (num i j count : ℕ)
    → is_clear map i j ≡ false
    → scan_word_back map num i (suc j) count ≡ scan_word_back map num i j 0
unfolding scan_word_back
scan_back_busy map num i j count e = ground arith

scan_back_free :
    (map : List ℕ) (num i j count : ℕ)
    → is_clear map i j ≡ true
    → scan_word_back map num i (suc j) count
      ≡ (if count + 1 == num then found (i * 32 + j) else scan_word_back map num i j (count + 1))
unfolding scan_word_back
scan_back_free map num i j count e = ground arith

scan_words_back_step :
    (map : List ℕ) (num i count : ℕ) {out : Scan}
    → scan_word_back map num i 32 count ≡ out
    → scan_words_back map num (suc i) count
      ≡ elim out [ found r ↦ some r | going count' ↦ scan_words_back map num i count' ]
unfolding scan_words_back
scan_words_back_step map num i count e = rw (e, scan_words_back) refl

-- `r` is the last place at which `num` free pages lie before `end`.
pub record IsLast (map : List ℕ) (num end r : ℕ) : Type 0 where
  pub inside : r + num ≤ end
  pub free : FreeRun map r num
  pub last : (s : ℕ) → r < s → s + num ≤ end → ¬ FreeRun map s num

-- What a search for `num` free pages before `end` may answer: the last run, or `none` if there is
-- no run.
abbrev pub FindsLast : List ℕ → (num end : ℕ) → Option ℕ → Type 0
FindsLast map num end none = (s : ℕ) → s + num ≤ end → ¬ FreeRun map s num
FindsLast map num end (some r) = IsLast map num end r

module _ (map : List ℕ) (num end : ℕ) where
  -- What the loops know when page `p` is the lowest that they have seen.
  record Ahead (p count : ℕ) : Type 0 where
    few : count < num
    within : p + count ≤ end
    run : (k : ℕ) → p ≤ k → k < p + count → page_on map k ≡ false
    later : (s : ℕ) → p + count < s + num → s + num ≤ end → ¬ FreeRun map s num

  Ahead-step_clear :
      {p count : ℕ} (q : ℕ)
      → p ≡ q + 1
      → Ahead p count
      → page_on map q ≡ false
      → count + 1 ≢ num
      → Ahead q (count + 1)
  Ahead-step_clear q e a clear more = record {
    few = omega (arith, a.few);
    within = omega (arith, a.within);
    run = λ k lo hi. elim (dec_lt q k) [
      | yes lt ↦ a.run k (omega arith) (omega arith)
      | no ge ↦ let same : k ≡ q = omega arith in rw same clear
    ];
    later = λ s lt. a.later s (omega arith);
  }

  Ahead-step_set :
      {p count : ℕ} (q : ℕ) → p ≡ q + 1 → Ahead p count → page_on map q ≡ true → Ahead q 0
  Ahead-step_set {p} {count} q e a set = record {
    few = omega (arith, a.few);
    within = omega (arith, a.within);
    run = λ k lo hi. absurd (omega arith);
    later = λ s lt room free. elim (dec_lt (p + count) (s + num)) [
      | yes after ↦ a.later s after room free
      | no over ↦ false≢true (rw set at (sym (free q (omega (arith, a.few)) (omega arith))))
    ];
  }

  Ahead-found :
      {p count : ℕ} (q : ℕ)
      → p ≡ q + 1
      → Ahead p count
      → page_on map q ≡ false
      → count + 1 ≡ num
      → IsLast map num end q
  Ahead-found q e a clear enough = record {
    inside = omega (arith, a.within);
    free = λ k lo hi. elim (dec_lt q k) [
      | yes lt ↦ a.run k (omega arith) (omega arith)
      | no ge ↦ let same : k ≡ q = omega arith in rw same clear
    ];
    last = λ s lt. a.later s (omega arith);
  }

  Scanned : (p : ℕ) → Scan → Type 0
  Scanned p (found r) = IsLast map num end r
  Scanned p (going count) = Ahead p count

  scan_back-Scanned :
      (i j count : ℕ)
      → j ≤ 32
      → Ahead (i * 32 + j) count
      → Scanned (i * 32) (scan_word_back map num i j count)
  unfolding scan_word_back Scanned
  scan_back-Scanned i zero count small a = let e : i * 32 ≡ i * 32 + 0 = omega arith in rw e a
  scan_back-Scanned i (suc j) count small a = elim (Bool-cases (page_on map (i * 32 + j))) [
    | inl on ↦
        let busy : is_clear map i j ≡ false =
          rw (is_clear-page_on map i j (omega arith), on) refl in
        rw (scan_back_busy map num i j count busy) (
          scan_back-Scanned i j 0 (omega arith)
            (Ahead-step_set {p = i * 32 + suc j} (i * 32 + j) (omega arith) a on))
    | inr off ↦
        let idle : is_clear map i j ≡ true =
          rw (is_clear-page_on map i j (omega arith), off) refl in
        rw (scan_back_free map num i j count idle) (elim (Bool-cases (count + 1 == num)) [
          | inl enough ↦ rw enough (
              Ahead-found {p = i * 32 + suc j} (i * 32 + j) (omega arith) a off
                ((==_iff _ _).0 enough))
          | inr more ↦ rw more (
              scan_back-Scanned i j (count + 1) (omega arith) (
                Ahead-step_clear {p = i * 32 + suc j} (i * 32 + j) (omega arith) a off
                  (ground arith)))
        ])
  ]

  scan_words_back-FindsLast :
      (i count : ℕ) → Ahead (i * 32) count → FindsLast map num end (scan_words_back map num i count)
  unfolding scan_words_back Scanned
  scan_words_back-FindsLast zero count a = λ s. a.later s (omega (arith, a.few))
  scan_words_back-FindsLast (suc i) count a =
      round (scan_words_back-FindsLast i) (scan_word_back map num i 32 count) refl
        (scan_back-Scanned i 32 count (omega arith) (rw whole a))
    where
      whole : i * 32 + 32 ≡ suc i * 32
      whole = omega arith

      round :
          ((c : ℕ) → Ahead (i * 32) c → FindsLast map num end (scan_words_back map num i c))
          → (out : Scan) → scan_word_back map num i 32 count ≡ out
          → Scanned (i * 32) out
          → FindsLast map num end (scan_words_back map num (suc i) count)
      round ih (found r) e is = rw (scan_words_back_step map num i count e) is
      round ih (going c) e a' = rw (scan_words_back_step map num i count e) (ih c a')

-- For `0 < num < map_len * 32`, `bitmap_search_reverse` returns the last place at which `num` free
-- pages lie inside the bitmap, and `none` (ERR) only if there is no such place.
pub bitmap_search_reverse-FindsLast :
    (map : List ℕ) (map_len num : ℕ)
    → 0 < num
    → num < map_len * 32
    → FindsLast map num (map_len * 32) (bitmap_search_reverse map map_len num)
unfolding bitmap_search_reverse
bitmap_search_reverse-FindsLast map map_len num some_pages few =
    let accept : leb (map_len * 32) num ≡ false = ground arith in
    rw accept (
      scan_words_back-FindsLast map num (map_len * 32) map_len 0 (record {
        few = some_pages;
        within = omega arith;
        run = λ k lo hi. absurd (omega arith);
        later = λ s after room. absurd (omega arith);
      }))

-- A request for as many pages as the bitmap has is refused unread.
pub bitmap_search_reverse_refuses :
    (map : List ℕ) (map_len num : ℕ)
    → map_len * 32 ≤ num
    → bitmap_search_reverse map map_len num ≡ none
unfolding bitmap_search_reverse
bitmap_search_reverse_refuses map map_len num h = ground arith
