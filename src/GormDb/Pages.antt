-- ===== src/GormDb/Pages.antt =====
-- The pages of a query, one after another.
use go_lib.Base.{
  ℕ, zero, suc, ◌+◌, ◌-◌, ◌*◌, ◌%◌, ◌^◌, ◌<◌, word, Option, some, ◌≡◌, refl, sym, ap, ◌∙◌, false,
  List, [], ◌∷◌, ◌++◌, ℤ, pos, take, drop, arith,
}
use go_lib.GormDb.{Paging, size_of, offset_of, paginate}

-- A query that always selects the same rows in the same order, as one with a total ORDER BY does on
-- a table that does not change: a limit takes the first rows, and an offset skips as many before.
abbrev pub IsStable : {Row : Type 0} → (Option (ℤ × ℤ) → List Row) → List Row → Type 0
IsStable select rows =
    (limit offset : ℕ) → select (some (pos limit, pos offset)) ≡ take limit (drop offset rows)

abbrev pub page_of : ℕ → ℤ → Paging
page_of n size = record { page = pos n; page_size = size; total = 0; all = false }

-- The rows of the pages 1 to n, of one size. `count` is what the database counts.
abbrev pub pages : {Row : Type 0} → (Option (ℤ × ℤ) → List Row) → ℕ → ℕ → ℤ → List Row
pages select count zero size = []
pages select count (suc n) size =
    pages select count n size ++ select (paginate count (some (page_of (suc n) size))).1

offset_of-small :
    (n : ℕ) (size : ℤ)
    → n * size_of size < 2 ^ 63
    → offset_of (pos (suc n)) size ≡ pos (n * size_of size)
unfolding offset_of
offset_of-small n size small =
    let before : suc n - 1 ≡ n = omega arith in
    let same : (n * size_of size) % word ≡ n * size_of size = omega arith in
    rw (before, same) (ground arith)

module _ {Row : Type 0} where
  take-nil : (n : ℕ) → take {A = Row} n [] ≡ []
  take-nil zero = refl
  take-nil (suc n) = refl

  take-add : (m n : ℕ) (rows : List Row) → take m rows ++ take n (drop m rows) ≡ take (m + n) rows
  take-add zero n rows = ap (λ k. take k rows) (omega arith)
  take-add (suc m) n [] = take-nil n ∙ sym (take-nil (suc m + n))
  take-add (suc m) n (r ∷ rows) =
      let k : suc m + n ≡ suc (m + n) = omega arith in rw k (ap (λ rs. r ∷ rs) (take-add m n rows))

  -- If a query always selects the same rows in the same order, and the offsets of the pages are below
  -- 2^63, then the pages 1 to n of it, put together, are the first of its rows, as many as n pages
  -- hold: none is left out between two pages, and none is in two.
  pub pages-take :
      (select : Option (ℤ × ℤ) → List Row) (rows : List Row) (count n : ℕ) (size : ℤ)
      → IsStable select rows
      → n * size_of size < 2 ^ 63
      → pages select count n size ≡ take (n * size_of size) rows
  unfolding paginate
  pages-take select rows count zero size stable small =
      let z : 0 * size_of size ≡ 0 = omega arith in rw z refl
  pages-take select rows count (suc n) size stable small =
      let k : n * size_of size + size_of size ≡ suc n * size_of size = grind arith in
      let less : n * size_of size < 2 ^ 63 = omega (arith, k) in
      rw
        (
          offset_of-small n size less,
          stable (size_of size) (n * size_of size),
          pages-take select rows count n size stable less,
        )
        (take-add (n * size_of size) (size_of size) rows ∙ ap (λ j. take j rows) k)
