-- ===== src/Tests/Requests.antt =====
-- Requests of clients, and values of the indexer's answers, at concrete inputs.
use algo_vnode.Prelude.{
  codes, bytes_eq, ℕ, ◌≡◌, ◌≢◌, ◌⊎◌, ◌↔◌, refl, false, List, [], ◌∷◌, ◌++◌, some, arith, ◌==◌,
  if◌then◌else◌,
}
use algo_vnode.Httpsrv.Auth.{Request, provided_token, handler, unauthorized}
use algo_vnode.Httpsrv.Auth.Tokens.{Holds, first, NoBlank}
use algo_vnode.Httpsrv.Auth.Tokens
use algo_vnode.Httpsrv.Handlers.{parse_int}
use algo_vnode.Httpsrv.Handlers.Answers
use algo_vnode.Httpsrv.Handlers.Answers.{decimal}
use algo_vnode.Httpsrv.Proxy
use algo_vnode.Httpsrv.Proxy.{Upstream, answered, Served, by_node, default_handler, first_answer}

abbrev tokens : List (List ℕ)
tokens = codes "s3cret" ∷ []

abbrev bearing : Request
bearing = record {
  method = codes "GET";
  token_header = [];
  authorization = codes "bearer s3cret";
  path_token = [];
  path = codes "/v2/status";
}

handler_admits_example :
    (handler tokens bearing ≢ unauthorized)
    ↔ ((bearing.method ≡ codes "OPTIONS") ⊎ Holds (provided_token bearing) tokens)
handler_admits_example = Tokens.handler_admits tokens bearing

is_get : bytes_eq (codes "GET") (codes "OPTIONS") ≡ false
unfolding bytes_eq
is_get = refl

abbrev rtt : ℕ → ℕ
rtt n = 50

-- The first node has not the block, and the second one answers.
abbrev upstream : ℕ → ℕ → Upstream
upstream n timeout = if n == 0 then answered 404 else answered 200

default_handler_served_example :
    (m : ℕ) × (st : ℕ) × (default_handler rtt upstream ((0 ∷ []) ++ 1 ∷ []) ≡ by_node m st)
default_handler_served_example = Proxy.default_handler_served rtt upstream (0 ∷ []) 1 200 refl

parse_int-decimal_example : parse_int (decimal 19 31_415) ≡ some 31_415
parse_int-decimal_example = Answers.parse_int-decimal 31_415 (omega arith)
