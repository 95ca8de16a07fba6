-- ===== src/GormDb/Examples.antt =====
-- A search and a query of five rows.
use go_lib.Base.{
  ℕ, ◌*◌, ◌≡◌, refl, Bool, ◌||◌, List, [], ◌∷◌, Option, none, some, ℤ, pos, negsuc, take, drop,
  nat_beq, if◌then◌else◌, arith,
}
use go_lib.GormDb.{contains_pattern, size_of}
use go_lib.GormDb.Like.{
  is_empty, some_suffix, first_and_rest, some_suffix-same, LikeLaws, contains,
  like-contains_pattern,
}
use go_lib.GormDb.Pages.{pages, pages-take}

-- LIKE with a backslash as the escape character, and characters that are the same only if equal.
unfoldable sql_like : List ℕ → List ℕ → Bool
sql_like [] ts = is_empty ts
sql_like (p ∷ []) ts =
    if nat_beq p b'%'
    then some_suffix is_empty ts
    else if nat_beq p b'_'
    then first_and_rest (λ t. Bool.true) is_empty ts
    else first_and_rest (nat_beq p) is_empty ts
sql_like (p ∷ q ∷ ps) ts =
    let here = sql_like (q ∷ ps) in
    let escaped = sql_like ps in
    if nat_beq p b'%'
    then some_suffix here ts
    else if nat_beq p b'_'
    then first_and_rest (λ t. Bool.true) here ts
    else if nat_beq p b'\\'
    then first_and_rest (nat_beq q) escaped ts
    else first_and_rest (nat_beq p) here ts

sql_like-percent : (ps ts : List ℕ) → sql_like (b'%' ∷ ps) ts ≡ some_suffix (sql_like ps) ts
unfolding sql_like
sql_like-percent [] ts = some_suffix-same is_empty (sql_like []) (λ us. refl) ts
sql_like-percent (q ∷ ps) ts = refl

sql_like-plain :
    (c : ℕ) (ps ts : List ℕ)
    → (nat_beq c b'%' || (nat_beq c b'_' || nat_beq c b'\\')) ≡ Bool.false
    → sql_like (c ∷ ps) ts ≡ first_and_rest (nat_beq c) (sql_like ps) ts
unfolding sql_like
sql_like-plain c [] [] h = ground arith
sql_like-plain c [] (t ∷ ts) h = ground arith
sql_like-plain c (q ∷ ps) ts h = ground arith

sql_like_laws : LikeLaws sql_like nat_beq
unfolding sql_like
sql_like_laws = record {
  empty = λ ts. refl;
  percent = sql_like-percent;
  escapes = λ c ps ts. refl;
  plain = sql_like-plain;
}

-- "5%" is searched for in "15%".
abbrev needle : List ℕ
needle = b'5' ∷ b'%' ∷ []

abbrev hay : List ℕ
hay = b'1' ∷ b'5' ∷ b'%' ∷ []

like-contains_pattern_example : sql_like (contains_pattern needle) hay ≡ contains nat_beq needle hay
like-contains_pattern_example = like-contains_pattern sql_like nat_beq sql_like_laws needle hay

abbrev five : List ℕ
five = 1 ∷ 2 ∷ 3 ∷ 4 ∷ 5 ∷ []

abbrev nat_part : ℤ → ℕ
nat_part (pos n) = n
nat_part (negsuc n) = 0

abbrev select : Option (ℤ × ℤ) → List ℕ
select none = five
select (some (limit, offset)) = take (nat_part limit) (drop (nat_part offset) five)

pages-take_example : pages select 5 2 (pos 2) ≡ take (2 * size_of (pos 2)) five
pages-take_example = pages-take select five 5 2 (pos 2) (λ l o. refl) (omega arith)
