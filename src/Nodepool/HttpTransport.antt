-- ===== src/Nodepool/HttpTransport.antt =====
-- provider/nodepool/httpTransport/classifier.go: what an HTTP answer means for the node that gave it.
pub mod Codes
use go_lib.Base.{
  not, ℕ, ℤ, pos, Bool, true, false, List, [], ◌∷◌, Option, none, some, is_some, Map, get, put, del,
  leb_ℤ, if◌then◌else◌, comparable_int, String,
}
use mathlib.Core.Option
use go_lib.Nodepool.Types.{Platform, NodeStatus, success, fail, biz_error, Error, Response}

-- The status code and the body of an `HTTPResponse`.
pub record HttpResponse (Body : Type 0) : Type 0 where
  pub status_code : ℤ
  pub body : Body

-- `m[code]` of a map to Booleans.
unfoldable pub is_marked : ℤ → Map ℤ Bool → Bool
is_marked code m = Option.get_or (get code m) false

-- A function that decides on the code, the body and the error.
abbrev pub ClassifyFunc : ⦃p : Platform⦄ → Type 0 → Type 0
ClassifyFunc Body = ℤ → Body → Option Error → NodeStatus

pub record HttpClassifier ⦃p : Platform⦄ (Body : Type 0) : Type 0 where
  pub fail_codes : Map ℤ Bool
  pub biz_err_codes : Map ℤ Bool
  pub custom_classify : Option (ClassifyFunc Body)

-- One constructor for each `With…` function.
pub data ClassifierOption ⦃p : Platform⦄ (Body : Type 0) : Type 0 where
  with_fail_codes : List ℤ → ClassifierOption Body
  with_biz_err_codes : List ℤ → ClassifierOption Body
  with_custom_classify : Option (ClassifyFunc Body) → ClassifierOption Body

module _ ⦃p : Platform⦄ {Body : Type 0} where
  unfoldable pub mark_fail : List ℤ → HttpClassifier Body → HttpClassifier Body
  mark_fail [] c = c
  mark_fail (code ∷ codes) c = mark_fail codes (record c {
    fail_codes = put code true c.fail_codes;
    biz_err_codes = del code c.biz_err_codes;
  })

  unfoldable pub mark_biz_err : List ℤ → HttpClassifier Body → HttpClassifier Body
  mark_biz_err [] c = c
  mark_biz_err (code ∷ codes) c = mark_biz_err codes (record c {
    biz_err_codes = put code true c.biz_err_codes;
    fail_codes = del code c.fail_codes;
  })

  -- The function that an option is, applied.
  unfoldable pub apply_option : ClassifierOption Body → HttpClassifier Body → HttpClassifier Body
  unfolding mark_fail mark_biz_err
  apply_option (with_fail_codes codes) c = mark_fail codes c
  apply_option (with_biz_err_codes codes) c = mark_biz_err codes c
  apply_option (with_custom_classify fn) c = record c { custom_classify = fn }

  unfoldable pub apply_options :
      List (ClassifierOption Body) → HttpClassifier Body → HttpClassifier Body
  unfolding apply_option
  apply_options [] c = c
  apply_options (o ∷ os) c = apply_options os (apply_option o c)

  -- `NewClassifier`
  unfoldable pub new_classifier : List (ClassifierOption Body) → HttpClassifier Body
  unfolding apply_options
  new_classifier os =
      apply_options os
        (record { fail_codes = (pos 429, true) ∷ []; biz_err_codes = []; custom_classify = none })

  -- The tables and the rule that is left if they say nothing.
  unfoldable pub classify_code : HttpClassifier Body → ℤ → NodeStatus
  unfolding is_marked
  classify_code c code =
      if is_marked code c.fail_codes
      then fail
      else if is_marked code c.biz_err_codes
      then biz_error
      else if leb_ℤ (pos 500) code
      then fail
      else if leb_ℤ (pos 400) code
      then biz_error
      else success

  -- `as_http` is the type assertion `resp.Data.(*HTTPResponse)`, none if it fails or gives nil, and
  -- `no_body` a nil slice.
  module _ (no_body : Body) (as_http : p.Payload → Option (HttpResponse Body)) where
    -- The code and the body that are read off the response, zero and nil if there is none.
    unfoldable pub read_answer : Option Response → ℤ × Body
    read_answer resp = elim (Option.bind resp (λ r. as_http r.payload)) [
      | none ↦ (pos 0, no_body)
      | some answer ↦ (answer.status_code, answer.body)
    ]

    -- `Classify`
    unfoldable pub classify :
        HttpClassifier Body → String → Option Response → Option Error → NodeStatus
    unfolding classify_code read_answer
    classify c _ resp err =
        let (code, body) = read_answer resp in
        if is_some err
        then (if not (is_some resp)
            then fail
            else elim c.custom_classify [ none ↦ fail | some custom ↦ custom code body err ])
        else elim c.custom_classify [
          | none ↦ classify_code c code
          | some custom ↦ custom code body none
        ]
