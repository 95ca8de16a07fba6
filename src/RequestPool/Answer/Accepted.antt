-- ===== src/RequestPool/Answer/Accepted.antt =====
-- Which answers of a node the pool accepts.
use go_lib.Base.{◌≡◌, String, true, false, ◌&&◌, ◌||◌, some, ℤ, negsuc, ◌⊎◌}
use go_lib.NetHttp.{Response}
use go_lib.RequestPool.{Point}
use go_lib.RequestPool.Answer.{Parsers}

module _ (parsers : Parsers) where
  open parsers use {is_json, rpc, contains, to_lower}

  -- The codes and messages by which a node says that it cannot serve the call itself.
  abbrev pub OwnError : ℤ → String → Type 0
  OwnError code message =
      (code ≡ negsuc 27)
      ⊎ (code ≡ negsuc 32089)
      ⊎ ((code ≡ negsuc 32000) × (message ≡ "Exceeded the quota usage"))
      ⊎ (contains (to_lower message) "limit" ≡ true)
      ⊎ (contains (to_lower message) "exceeded" ≡ true)

  -- The body of an answer of an RPC node has a result or an error. A result that is null comes from
  -- a node with "put.com" in its URL, and then the error is not looked at. Otherwise a code of an
  -- error comes with a message that does not make it the node's own.
  pub record IsRpcAnswer (p : Point) (t : Response) : Type 0 where
    pub answers : ((rpc t.body).has_result || (rpc t.body).has_error) ≡ true
    pub not_null :
        ((rpc t.body).has_result && (rpc t.body).null) ≡ true → contains p.url "put.com" ≡ true
    pub not_own :
        (code : ℤ)
        → ((rpc t.body).has_result && (rpc t.body).null) ≡ false
        → (rpc t.body).error_code ≡ some code
        → ¬ OwnError code (rpc t.body).error_message
