-- ===== src/GormDb.antt =====
-- dao/gormDB/query.go: the conditions that the Where functions add, the patterns of LIKE, and pages.
-- A text is the list of its code points.
pub mod Like
pub mod Pages
mod Examples
use go_lib.Base.{
  ℕ, zero, suc, ◌+◌, ◌-◌, ◌*◌, String, Bool, true, false, not, ◌&&◌, ◌||◌, Option, none, some, List,
  [], ◌∷◌, ◌++◌, ℤ, pos, negsuc, nat_beq, if◌then◌else◌, int_beq, ◌%◌, word, to_int64,
}

pub data Op : Type 0 where
  eq neq lt lte gt gte in_list not_in like not_like : Op

-- A value that a condition is built from. `nil_ptr` has the zero value of the type that it points to,
-- and a slice its elements; other values are known by a number, and whether they are zero.
pub data Value : Type 0 where
  nil nil_slice : Value
  text : List ℕ → Value
  other : Bool → ℕ → Value
  slice : List ℕ → Value
  nil_ptr ptr : Value → Value

-- A condition on a column.
pub data Cond : Type 0 where
  compares : String → Op → Value → Cond
  matches : String → Bool → List ℕ → Cond
  is_null is_not_null : String → Cond

unfoldable pub is_empty_slice : Value → Bool
is_empty_slice nil_slice = true
is_empty_slice (slice []) = true
is_empty_slice _ = false

unfoldable pub is_zero : Value → Bool
is_zero nil = true
is_zero nil_slice = true
is_zero (text []) = true
is_zero (text (c ∷ cs)) = false
is_zero (other zero? n) = zero?
is_zero (slice vs) = false
is_zero (nil_ptr z) = true
is_zero (ptr v) = is_zero v

unfoldable pub is_nil_ptr : Value → Bool
is_nil_ptr nil = true
is_nil_ptr (nil_ptr z) = true
is_nil_ptr _ = false

unfoldable pub deref : Value → Value
deref (ptr v) = deref v
deref (nil_ptr z) = nil
deref v = v

unfoldable pub zero_of : Value → Value
zero_of (nil_ptr z) = z
zero_of v = nil

-- One `strings.ReplaceAll` of `escapeLike`: a backslash before each such character.
unfoldable pub replace_all : ℕ → List ℕ → List ℕ
replace_all a [] = []
replace_all a (c ∷ cs) =
    let rest = replace_all a cs in if nat_beq c a then b'\\' ∷ c ∷ rest else c ∷ rest

unfoldable pub escape_like : List ℕ → List ℕ
unfolding replace_all
escape_like s = replace_all b'_' (replace_all b'%' (replace_all b'\\' s))

abbrev pub contains_pattern : List ℕ → List ℕ
contains_pattern s = b'%' ∷ (escape_like s ++ b'%' ∷ [])

module _ (to_string : Value → List ℕ) where
  -- `applyOp`; none leaves the query as it is. An operator without a case of its own does too.
  unfoldable pub apply_op : String → Op → Value → Option Cond
  unfolding is_empty_slice escape_like
  apply_op col in_list v = if is_empty_slice v then none else some (compares col in_list v)
  apply_op col not_in v = if is_empty_slice v then none else some (compares col not_in v)
  apply_op col like v = some (matches col true (contains_pattern (to_string v)))
  apply_op col not_like v = some (matches col false (contains_pattern (to_string v)))
  apply_op col op v = some (compares col op v)

  unfoldable pub where_if : String → Op → Value → Option Cond
  unfolding apply_op is_nil_ptr is_zero deref
  where_if col op v =
      if is_nil_ptr v then none else if is_zero (deref v) then none else apply_op col op (deref v)

  abbrev pub always : String → Op → Value → Option Cond
  always col in_list v = some (compares col in_list v)
  always col not_in v = none
  always col op v = apply_op col op v

  unfoldable pub where_always : String → Op → Value → Option Cond
  unfolding apply_op is_nil_ptr is_empty_slice zero_of deref
  where_always col op v =
      let w = if is_nil_ptr v then zero_of v else deref v in
      if is_empty_slice w then always col op w else apply_op col op w

  abbrev pub null_test : String → Op → Cond
  null_test col neq = is_not_null col
  null_test col op = is_null col

  unfoldable pub where_nullable : String → Op → Value → Option Cond
  unfolding apply_op is_nil_ptr is_zero deref
  where_nullable col op v =
      if is_nil_ptr v
      then some (null_test col op)
      else if is_zero (deref v)
      then none
      else apply_op col op (deref v)

-- `community.Paging`
pub record Paging : Type 0 where
  pub page : ℤ
  pub page_size : ℤ
  pub total : ℕ
  pub all : Bool

abbrev pub page_index : ℤ → ℕ
page_index (pos n) = n - 1
page_index (negsuc n) = 0

abbrev pub size_of : ℤ → ℕ
size_of (pos zero) = 20
size_of (pos (suc n)) = suc n
size_of (negsuc n) = 20

-- `(page - 1) * size` in an int of 64 bits.
unfoldable pub offset_of : ℤ → ℤ → ℤ
offset_of page size = to_int64 ((page_index page * size_of size) % word)

-- `PaginateNoCount`: the limit and the offset that it gives to the query, if any.
unfoldable pub paginate_no_count : Option Paging → Option (ℤ × ℤ)
unfolding offset_of
paginate_no_count none = none
paginate_no_count (some p) =
    if p.all then none else some (pos (size_of p.page_size), offset_of p.page p.page_size)

-- `Paginate`, which first writes the count of the rows, which the database answers, to its argument.
unfoldable pub paginate : ℕ → Option Paging → Option Paging × Option (ℤ × ℤ)
unfolding paginate_no_count
paginate count none = (none, none)
paginate count (some p) = (some (record p { total = count }), paginate_no_count (some p))

-- `OrderWhitelist`, with the mapping as a function: the expression and whether it is ascending.
unfoldable pub order_whitelist :
    (String → String)
    → (String → String → Bool)
    → (String → Option String)
    → String
    → String
    → Option (String × Bool)
order_whitelist to_upper same mapping field kind =
    if same field "" then none else elim (mapping field) [
      | none ↦ none
      | some expr ↦ some (expr, not (same (to_upper kind) "DESC"))
    ]
