-- ===== src/Nodepool/HttpTransport/Codes.antt =====
-- What the options of a classifier say of a status code.
use go_lib.Base.{
  ℤ, pos, Bool, true, false, List, [], ◌∷◌, Option, none, some, is_some, Map, get, put, del, leb_ℤ,
  if◌then◌else◌, comparable_int, String, ◌≡◌, refl, ◌∙◌, ap, arith, get-put, get-del, ◌==◌, ◌||◌,
}
use mathlib.Core.Option
use go_lib.Nodepool.Types.{Platform, NodeStatus, success, fail, biz_error, Error, Response}
use go_lib.Nodepool.HttpTransport.{
  HttpResponse, HttpClassifier, ClassifierOption, with_fail_codes, with_biz_err_codes,
  with_custom_classify, mark_fail, mark_biz_err, apply_option, apply_options, new_classifier,
  is_marked, classify_code, read_answer, classify,
}

-- Whether a code is listed.
abbrev pub lists : ℤ → List ℤ → Bool
lists code [] = false
lists code (c ∷ cs) = c == code || lists code cs

-- The rule for a code that no option names.
abbrev pub by_range : ℤ → NodeStatus
by_range code =
    if leb_ℤ (pos 500) code then fail else if leb_ℤ (pos 400) code then biz_error else success

is_marked-put :
    (code x : ℤ) (m : Map ℤ Bool)
    → is_marked code (put x true m) ≡ (if x == code then true else is_marked code m)
unfolding is_marked
is_marked-put code x m = rw (get-put x code true m) (tested (x == code))
  where
    tested :
        (b : Bool)
        → Option.get_or (if b then some true else get code m) false
          ≡ (if b then true else Option.get_or (get code m) false)
    tested true = refl
    tested false = refl

is_marked-del :
    (code x : ℤ) (m : Map ℤ Bool)
    → is_marked code (del x m) ≡ (if x == code then false else is_marked code m)
unfolding is_marked
is_marked-del code x m = rw (get-del x code m) (tested (x == code))
  where
    tested :
        (b : Bool)
        → Option.get_or (if b then none else get code m) false
          ≡ (if b then false else Option.get_or (get code m) false)
    tested true = refl
    tested false = refl

is_marked_default : (code : ℤ) → is_marked code ((pos 429, true) ∷ []) ≡ (pos 429 == code)
unfolding is_marked get
is_marked_default code = tested (pos 429 == code)
  where
    tested : (b : Bool) → Option.get_or (if b then some true else none) false ≡ b
    tested true = refl
    tested false = refl

is_marked_none : (code : ℤ) → is_marked code [] ≡ false
unfolding is_marked get
is_marked_none code = refl

module _ ⦃p : Platform⦄ {Body : Type 0} where
  -- What the last option that names a code says of it, or else `d`.
  abbrev pub mentioned : ℤ → List (ClassifierOption Body) → Option NodeStatus → Option NodeStatus
  mentioned code [] d = d
  mentioned code (with_fail_codes cs ∷ os) d =
      mentioned code os (if lists code cs then some fail else d)
  mentioned code (with_biz_err_codes cs ∷ os) d =
      mentioned code os (if lists code cs then some biz_error else d)
  mentioned code (with_custom_classify fn ∷ os) d = mentioned code os d

  abbrev said : ℤ → HttpClassifier Body → Option NodeStatus
  said code c =
      if is_marked code c.fail_codes
      then some fail
      else if is_marked code c.biz_err_codes
      then some biz_error
      else none

  said-mark_fail :
      (code : ℤ) (cs : List ℤ) (c : HttpClassifier Body)
      → said code (mark_fail cs c) ≡ (if lists code cs then some fail else said code c)
  unfolding mark_fail
  said-mark_fail code [] c = refl
  said-mark_fail code (x ∷ cs) c =
      said-mark_fail code cs _
      ∙ ground (arith, is_marked-put code x c.fail_codes, is_marked-del code x c.biz_err_codes)

  said-mark_biz_err :
      (code : ℤ) (cs : List ℤ) (c : HttpClassifier Body)
      → said code (mark_biz_err cs c) ≡ (if lists code cs then some biz_error else said code c)
  unfolding mark_biz_err
  said-mark_biz_err code [] c = refl
  said-mark_biz_err code (x ∷ cs) c =
      said-mark_biz_err code cs _
      ∙ ground (arith, is_marked-put code x c.biz_err_codes, is_marked-del code x c.fail_codes)

  said-apply_options :
      (code : ℤ) (os : List (ClassifierOption Body)) (c : HttpClassifier Body)
      → said code (apply_options os c) ≡ mentioned code os (said code c)
  unfolding apply_options apply_option
  said-apply_options code [] c = refl
  said-apply_options code (with_fail_codes cs ∷ os) c =
      said-apply_options code os (mark_fail cs c)
      ∙ ap (mentioned code os) (said-mark_fail code cs c)
  said-apply_options code (with_biz_err_codes cs ∷ os) c =
      said-apply_options code os (mark_biz_err cs c)
      ∙ ap (mentioned code os) (said-mark_biz_err code cs c)
  said-apply_options code (with_custom_classify fn ∷ os) c = said-apply_options code os _

  classify_code-said :
      (c : HttpClassifier Body) (code : ℤ)
      → classify_code c code ≡ Option.get_or (said code c) (by_range code)
  unfolding classify_code
  classify_code-said c code = ground arith

  -- The statuses that the options of a classifier lead to, if none of them leaves a custom function:
  -- an answer without an error has the status of the last option that names its code, else a node
  -- failure for 429, and else what the code's range says; an error is a node failure.
  pub classify-new_classifier :
      (no_body : Body) (as_http : p.Payload → Option (HttpResponse Body))
      (os : List (ClassifierOption Body)) (endpoint : String) (resp : Option Response)
      (err : Option Error)
      → (new_classifier os).custom_classify ≡ none
      → let code = (read_answer no_body as_http resp).0 in
        classify no_body as_http (new_classifier os) endpoint resp err ≡ (
          if is_some err
          then fail
          else Option.get_or
              (mentioned code os (if pos 429 == code then some fail else none))
              (by_range code))
  unfolding classify new_classifier
  classify-new_classifier no_body as_http os endpoint resp none plain =
      let code = (read_answer no_body as_http resp).0 in
      rw plain (
        classify_code-said (new_classifier os) code
        ∙ ap (λ d. Option.get_or d (by_range code))
            (said-apply_options code os _
              ∙ ap (mentioned code os) (rw (is_marked_default code, is_marked_none code) refl)))
  classify-new_classifier no_body as_http os endpoint resp (some e) plain = ground arith
