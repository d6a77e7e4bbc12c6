-- ===== src/Bitmap/Search.antt =====
-- `bitmap_search_from` finds the first run of free pages that is long enough.
use winix.Prelude.{
  ℕ, zero, suc, ◌+◌, ◌-◌, ◌*◌, ◌/◌, ◌%◌, ◌≤◌, ◌<◌, ◌≡◌, ◌≢◌, refl, inl, inr, true, false, sym, ◌⊎◌,
  dec_lt, List, Option, none, some, arith, leb, ◌==◌, ==_iff, if◌then◌else◌, Bool-cases,
}
use mathlib.Core.Bool.{false≢true}
use winix.Bitmap.{Scan, found, going, is_clear, scan_word, scan_words, bitmap_search_from}
use winix.Bitmap.Masks.{page_on, is_clear-page_on}

-- One round of the inner loop at a marked page, and at a free one.
scan_word_busy :
    (map : List ℕ) (num i n j count : ℕ)
    → is_clear map i j ≡ false
    → scan_word map num i (suc n) j count ≡ scan_word map num i n (j + 1) 0
unfolding scan_word
scan_word_busy map num i n j count e = ground arith

scan_word_free :
    (map : List ℕ) (num i n j count : ℕ)
    → is_clear map i j ≡ true
    → scan_word map num i (suc n) j count ≡ (
        if count + 1 == num
        then found (i * 32 + j + 1 - (count + 1))
        else scan_word map num i n (j + 1) (count + 1))
unfolding scan_word
scan_word_free map num i n j count e = ground arith

-- The `n` pages from `s` on are free.
abbrev pub FreeRun : List ℕ → (s n : ℕ) → Type 0
FreeRun map s n = (k : ℕ) → s ≤ k → k < s + n → page_on map k ≡ false

-- `r` is the first place from `start` on with a free run of `num` pages, and the run ends by `end`.
pub record IsFirst (map : List ℕ) (start num end r : ℕ) : Type 0 where
  pub from : start ≤ r
  pub inside : r + num ≤ end
  pub free : FreeRun map r num
  pub first : (s : ℕ) → start ≤ s → s < r → ¬ FreeRun map s num

module _ (map : List ℕ) (start num : ℕ) where
  -- What the loops know when they come to page `p` with `count` free pages behind them.
  record Behind (p count : ℕ) : Type 0 where
    few : count < num
    within : start + count ≤ p
    run : (k : ℕ) → p ≤ k + count → k < p → page_on map k ≡ false
    earlier : (s : ℕ) → start ≤ s → s + count < p → ¬ FreeRun map s num

  Behind-step_clear :
      {p count : ℕ}
      → Behind p count
      → page_on map p ≡ false
      → count + 1 ≢ num
      → Behind (p + 1) (count + 1)
  Behind-step_clear {p} b clear more = record {
    few = omega (arith, b.few);
    within = omega (arith, b.within);
    run = λ k lo hi. elim (dec_lt k p) [
      | yes lt ↦ b.run k (omega arith) lt
      | no ge ↦ let e : k ≡ p = omega arith in rw e clear
    ];
    earlier = λ s from lt. b.earlier s from (omega arith);
  }

  Behind-step_set : {p count : ℕ} → Behind p count → page_on map p ≡ true → Behind (p + 1) 0
  Behind-step_set {p} {count} b set = record {
    few = omega (arith, b.few);
    within = omega (arith, b.within);
    run = λ k lo hi. absurd (omega arith);
    earlier = λ s from lt free. elim (dec_lt (s + count) p) [
      | yes before ↦ b.earlier s from before free
      | no over ↦ false≢true (rw set at (sym (free p (omega arith) (omega (arith, b.few)))))
    ];
  }

  Behind-found :
      {p count : ℕ} (end : ℕ)
      → Behind p count
      → page_on map p ≡ false
      → count + 1 ≡ num
      → p < end
      → IsFirst map start num end (p + 1 - (count + 1))
  Behind-found {p} {count} end b clear last inside = record {
    from = omega (arith, b.within);
    inside = omega (arith, b.within);
    free = λ k lo hi. elim (dec_lt k p) [
      | yes lt ↦ b.run k (omega arith) lt
      | no ge ↦ let e : k ≡ p = omega (arith, b.within) in rw e clear
    ];
    first = λ s from lt. b.earlier s from (omega (arith, b.within));
  }

  -- A scan that returned has the first run; one that goes on has come to page `p`.
  Scanned : (end p : ℕ) → Scan → Type 0
  Scanned end p (found r) = IsFirst map start num end r
  Scanned end p (going count) = Behind p count

  scan_word-Scanned :
      (n i j count end : ℕ)
      → j + n ≡ 32
      → (i + 1) * 32 ≤ end
      → Behind (i * 32 + j) count
      → Scanned end ((i + 1) * 32) (scan_word map num i n j count)
  unfolding scan_word Scanned
  scan_word-Scanned zero i j count end all fits b =
      let e : (i + 1) * 32 ≡ i * 32 + j = omega arith in rw e b
  scan_word-Scanned (suc n) i j count end all fits b =
      elim (Bool-cases (page_on map (i * 32 + j))) [
        | inl on ↦
            let busy : is_clear map i j ≡ false =
              rw (is_clear-page_on map i j (omega arith), on) refl in
            rw (scan_word_busy map num i n j count busy) (
              scan_word-Scanned n i (j + 1) 0 end (omega arith) fits
                (rw next (Behind-step_set b on)))
        | inr off ↦
            let idle : is_clear map i j ≡ true =
              rw (is_clear-page_on map i j (omega arith), off) refl in
            rw (scan_word_free map num i n j count idle) (elim (Bool-cases (count + 1 == num)) [
              | inl last ↦ rw last (Behind-found end b off ((==_iff _ _).0 last) (omega arith))
              | inr more ↦ rw more (
                  scan_word-Scanned n i (j + 1) (count + 1) end (omega arith) fits
                    (rw next (Behind-step_clear b off (ground arith))))
            ])
      ]
    where
      next : i * 32 + (j + 1) ≡ i * 32 + j + 1
      next = omega arith

-- What a search for `num` free pages from `start` on may answer about the pages before `end`:
-- the first run, or `none` if there is no run.
abbrev pub FindsFirst : List ℕ → (start num end : ℕ) → Option ℕ → Type 0
FindsFirst map start num end none = (s : ℕ) → start ≤ s → s + num ≤ end → ¬ FreeRun map s num
FindsFirst map start num end (some r) = IsFirst map start num end r

-- One round of the outer loop.
scan_words_step :
    (map : List ℕ) (num n i j count : ℕ) {out : Scan}
    → scan_word map num i (32 - j) j count ≡ out
    → scan_words map num (suc n) i j count
      ≡ elim out [ found r ↦ some r | going count' ↦ scan_words map num n (i + 1) 0 count' ]
unfolding scan_words
scan_words_step map num n i j count e = rw (e, scan_words) refl

module _ (map : List ℕ) (start num : ℕ) where
  scan_words-FindsFirst :
      (n i j count : ℕ)
      → j < 32
      → Behind map start num (i * 32 + j) count
      → FindsFirst map start num ((i + n) * 32) (scan_words map num n i j count)
  unfolding scan_words Scanned
  scan_words-FindsFirst zero i j count lt b =
      λ s from room. b.earlier s from (omega (arith, b.few, b.within))
  scan_words-FindsFirst (suc n) i j count lt b =
      round (scan_words-FindsFirst n (i + 1) 0) (scan_word map num i (32 - j) j count) refl (
        scan_word-Scanned map start num (32 - j) i j count ((i + suc n) * 32) (omega arith)
          (omega arith) b)
    where
      same_end : (i + 1 + n) * 32 ≡ (i + suc n) * 32
      same_end = omega arith

      round :
          ((c : ℕ)
            → 0 < 32
            → Behind map start num ((i + 1) * 32 + 0) c
            → FindsFirst map start num ((i + 1 + n) * 32) (scan_words map num n (i + 1) 0 c))
          → (out : Scan) → scan_word map num i (32 - j) j count ≡ out
          → Scanned map start num ((i + suc n) * 32) ((i + 1) * 32) out
          → FindsFirst map start num ((i + suc n) * 32) (scan_words map num (suc n) i j count)
      round ih (found r) e is = rw (scan_words_step map num n i j count e) is
      round ih (going count') e b' =
          let zero_bits : (i + 1) * 32 + 0 ≡ (i + 1) * 32 = omega arith in
          rw (scan_words_step map num n i j count e)
            (rw same_end at (ih count' (omega arith) (rw zero_bits b')))

  -- For `0 < num < map_len * 32` and a `start` inside the bitmap, `bitmap_search_from` returns the
  -- first place from `start` on where `num` free pages lie inside the bitmap, and `none` (ERR)
  -- only if there is no such place.
  pub bitmap_search_from-FindsFirst :
      (map_len : ℕ)
      → 0 < num
      → num < map_len * 32
      → start < map_len * 32
      → FindsFirst map start num (map_len * 32) (bitmap_search_from map map_len start num)
  unfolding bitmap_search_from
  bitmap_search_from-FindsFirst map_len some_pages few inside =
      let here : start / 32 * 32 + start % 32 ≡ start = omega arith in
      let end : (start / 32 + (map_len - start / 32)) * 32 ≡ map_len * 32 = omega arith in
      let accept : leb (map_len * 32) num ≡ false = ground arith in
      let accept' : leb (map_len * 32) start ≡ false = ground arith in
      rw (accept, accept')
        (rw end at (
          scan_words-FindsFirst (map_len - start / 32) (start / 32) (start % 32) 0 (omega arith) (
            rw here (record {
              few = some_pages;
              within = omega arith;
              run = λ k lo hi. absurd (omega arith);
              earlier = λ s from before. absurd (omega arith);
            }))))

-- A request for as many pages as the bitmap has, or from past its end, is refused unread.
pub bitmap_search_from_refuses :
    (map : List ℕ) (map_len start num : ℕ)
    → (map_len * 32 ≤ num) ⊎ (map_len * 32 ≤ start)
    → bitmap_search_from map map_len start num ≡ none
unfolding bitmap_search_from
bitmap_search_from_refuses map map_len start num h = ground arith
