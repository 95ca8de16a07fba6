-- ===== src/GormDb/Like.antt =====
-- What a pattern with an escaped text matches, by the laws of LIKE.
use go_lib.Base.{
  ℕ, ◌≡◌, refl, ap, ◌∙◌, Bool, true, false, ◌&&◌, ◌||◌, List, [], ◌∷◌, ◌++◌, nat_beq, if◌then◌else◌,
  arith, Bool-cases, inl, inr,
}
use go_lib.GormDb.{replace_all, escape_like, contains_pattern}

abbrev pub is_empty : List ℕ → Bool
is_empty [] = true
is_empty (c ∷ cs) = false

abbrev pub some_suffix : (List ℕ → Bool) → List ℕ → Bool
some_suffix f [] = f []
some_suffix f (t ∷ ts) = f (t ∷ ts) || some_suffix f ts

-- Of a non-empty text, a test of its first character and of the rest.
abbrev pub first_and_rest : (ℕ → Bool) → (List ℕ → Bool) → List ℕ → Bool
first_and_rest test f [] = false
first_and_rest test f (t ∷ ts) = test t && f ts

-- What a database documents of LIKE, if a backslash is its default escape character, as in MySQL and
-- PostgreSQL but not in SQLite: an empty pattern matches the empty text, `%` any text, a backslash
-- makes the next character stand for itself, and so does any character but these and `_`. `same` is
-- the collation: a character of the pattern matches those that are the same.
pub record LikeLaws (like : List ℕ → List ℕ → Bool) (same : ℕ → ℕ → Bool) : Type 0 where
  pub empty : (ts : List ℕ) → like [] ts ≡ is_empty ts
  pub percent : (ps ts : List ℕ) → like (b'%' ∷ ps) ts ≡ some_suffix (like ps) ts
  pub escapes :
      (c : ℕ) (ps ts : List ℕ) → like (b'\\' ∷ c ∷ ps) ts ≡ first_and_rest (same c) (like ps) ts
  pub plain :
      (c : ℕ) (ps ts : List ℕ)
      → (nat_beq c b'%' || (nat_beq c b'_' || nat_beq c b'\\')) ≡ false
      → like (c ∷ ps) ts ≡ first_and_rest (same c) (like ps) ts

-- A text that begins with another, and one that contains it, up to the collation.
abbrev pub starts_with : (ℕ → ℕ → Bool) → List ℕ → List ℕ → Bool
starts_with same [] ts = true
starts_with same (c ∷ cs) ts = first_and_rest (same c) (starts_with same cs) ts

abbrev pub contains : (ℕ → ℕ → Bool) → List ℕ → List ℕ → Bool
contains same s ts = some_suffix (starts_with same s) ts

-- The three replacements put one backslash before each special character.
is_special : ℕ → Bool
is_special c = nat_beq c b'%' || (nat_beq c b'_' || nat_beq c b'\\')

escaped : List ℕ → List ℕ
escaped [] = []
escaped (c ∷ cs) = let rest = escaped cs in if is_special c then b'\\' ∷ c ∷ rest else c ∷ rest

escape_like-escaped : (s : List ℕ) → escape_like s ≡ escaped s
unfolding escape_like replace_all escaped is_special
escape_like-escaped [] = refl
escape_like-escaped (c ∷ cs) = ground (arith, escape_like-escaped cs)

pub some_suffix-same :
    (f g : List ℕ → Bool)
    → ((ts : List ℕ) → f ts ≡ g ts)
    → (ts : List ℕ) → some_suffix f ts ≡ some_suffix g ts
some_suffix-same f g h [] = h []
some_suffix-same f g h (t ∷ ts) = ground (arith, h (t ∷ ts), some_suffix-same f g h ts)

first_and_rest-same :
    (test : ℕ → Bool) (f g : List ℕ → Bool)
    → ((ts : List ℕ) → f ts ≡ g ts)
    → (ts : List ℕ) → first_and_rest test f ts ≡ first_and_rest test g ts
first_and_rest-same test f g h [] = refl
first_and_rest-same test f g h (t ∷ ts) = ground (arith, h ts)

everything : (ts : List ℕ) → some_suffix is_empty ts ≡ true
everything [] = refl
everything (t ∷ ts) = ground (arith, everything ts)

module _ (like : List ℕ → List ℕ → Bool) (same : ℕ → ℕ → Bool) (laws : LikeLaws like same) where
  starts : (s ts : List ℕ) → like (escaped s ++ b'%' ∷ []) ts ≡ starts_with same s ts
  unfolding escaped is_special
  starts [] ts =
      laws.percent [] ts ∙ some_suffix-same (like []) is_empty laws.empty ts ∙ everything ts
  starts (c ∷ cs) ts =
      let rest =
        first_and_rest-same (same c) (like (escaped cs ++ b'%' ∷ [])) (starts_with same cs)
          (starts cs) ts in
      elim (Bool-cases (is_special c)) [
        | inl special ↦ rw (special, escaped) (laws.escapes c (escaped cs ++ b'%' ∷ []) ts ∙ rest)
        | inr plain ↦ rw (plain, escaped) (laws.plain c (escaped cs ++ b'%' ∷ []) ts plain ∙ rest)
      ]

  -- In a database whose LIKE takes a backslash as its escape character, the pattern that the
  -- conditions LIKE and NOT LIKE get for a text matches exactly the texts that contain it, up to the
  -- collation, whatever characters it has.
  pub like-contains_pattern : (s ts : List ℕ) → like (contains_pattern s) ts ≡ contains same s ts
  like-contains_pattern s ts =
      laws.percent (escape_like s ++ b'%' ∷ []) ts
      ∙ some_suffix-same (like (escape_like s ++ b'%' ∷ [])) (starts_with same s)
          (λ us. ap (λ e. like (e ++ b'%' ∷ []) us) (escape_like-escaped s) ∙ starts s us) ts
