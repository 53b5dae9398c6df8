-- ===== src/Httpsrv/Proxy.antt =====
-- The proxy of a request to the synced nodes: internal/algod/proxy.go and `defaultHandler` of
-- internal/httpsrv/handlers.go. What a node answers is a parameter.
pub mod Request
pub mod Passed
pub mod Statuses
use algo_vnode.Prelude.{
  ℕ, suc, ◌+◌, ◌-◌, ◌*◌, ◌≡◌, ◌≢◌, refl, ap, ◌∙◌, Bool, Bool-cases, true, false, List, [], ◌∷◌,
  ◌++◌, Option, none, some, GoError, arith, ltb, ◌==◌, if◌then◌else◌, length, inl, inr,
}

-- `proxyStatus`; no list stands for nil.
unfoldable pub in_statuses : List ℕ → ℕ → Bool
in_statuses [] status = false
in_statuses (s ∷ ss) status = if s == status then true else in_statuses ss status

unfoldable pub proxy_status : Option (List ℕ) → ℕ → Bool
unfolding in_statuses
proxy_status none status = true
proxy_status (some ss) status = in_statuses ss status

-- `proxy404` and `proxyALL`.
abbrev pub proxy404 : Option (List ℕ)
proxy404 = some (200 ∷ 204 ∷ 400 ∷ 404 ∷ [])

abbrev pub proxy_all : Option (List ℕ)
proxy_all = none

-- How a request to a node ends: it cannot be made, it fails, or it is answered with a status.
pub data Upstream : Type 0 where
  unmade failed : GoError → Upstream
  answered : ℕ → Upstream

-- The milliseconds that a node has for its answer, where `rtt` is its response time. The last try
-- gets ten seconds.
unfoldable pub proxy_timeout : Option (List ℕ) → ℕ → ℕ
proxy_timeout none rtt = 10 * 1000
proxy_timeout (some ss) rtt = 250 + 3 * rtt

-- `ProxyHTTP`: whether the answer has been passed on, the status, and the error.
unfoldable pub proxy_http : Option (List ℕ) → Upstream → Bool × ℕ × Option GoError
unfolding proxy_status
proxy_http statuses (unmade e) = (false, 502, some e)
proxy_http statuses (failed e) = (false, 500, some e)
proxy_http statuses (answered status) =
    if proxy_status statuses status then (true, status, none) else (false, status, none)

-- What `defaultHandler` answers: the answer of a node, or that there is none.
pub data Served : Type 0 where
  by_node : ℕ → ℕ → Served
  bad_gateway : Served

-- The nodes may take longer or answer otherwise with another timeout: `upstream n timeout` is what
-- the node `n` answers within `timeout`, and `rtt n` its response time.
module _ (rtt : ℕ → ℕ) (upstream : ℕ → ℕ → Upstream) where
  -- `ProxyHTTP` of the node `n`.
  unfoldable pub ask : Option (List ℕ) → ℕ → Bool × ℕ × Option GoError
  unfolding proxy_timeout proxy_http
  ask statuses n = proxy_http statuses (upstream n (proxy_timeout statuses (rtt n)))

  -- The loop of `defaultHandler` from the index `i` on, over `len` nodes.
  unfoldable pub proxy_loop : ℕ → ℕ → List ℕ → Served
  unfolding ask
  proxy_loop i len [] = bad_gateway
  proxy_loop i len (n ∷ ns) =
      let rest = proxy_loop (suc i) len ns in
      let r = ask (if ltb i (len - 1) then proxy404 else proxy_all) n in
      if r.0 then by_node n r.1 else rest

  -- `defaultHandler`.
  unfoldable pub default_handler : List ℕ → Served
  unfolding proxy_loop
  default_handler nodes = proxy_loop 0 (length nodes) nodes

  -- The specification: all nodes but the last are asked for an answer with one of the statuses
  -- 200, 204, 400 and 404, and the last one for any.
  unfoldable pub first_answer : List ℕ → Served
  first_answer [] = bad_gateway
  first_answer (n ∷ []) = let r = ask proxy_all n in if r.0 then by_node n r.1 else bad_gateway
  first_answer (n ∷ m ∷ ns) =
      let rest = first_answer (m ∷ ns) in
      let r = ask proxy404 n in if r.0 then by_node n r.1 else rest

  proxy_loop-eq :
      (i len : ℕ) (ns : List ℕ) → i + length ns ≡ len → proxy_loop i len ns ≡ first_answer ns
  unfolding proxy_loop first_answer
  proxy_loop-eq i len [] e = refl
  proxy_loop-eq i len (n ∷ []) e = let last : ltb i (len - 1) ≡ false = ground arith in rw last
  proxy_loop-eq i len (n ∷ m ∷ ns) e =
      let inner : ltb i (len - 1) ≡ true = ground arith in
      rw inner (
        ap (λ (t : Served). let r = ask proxy404 n in if r.0 then by_node n r.1 else t)
          (proxy_loop-eq (suc i) len (m ∷ ns) (omega arith)))

  -- The loop by index answers as the recursion does that asks every node but the last for one of
  -- four statuses, and the last one for any status.
  pub default_handler-eq : (nodes : List ℕ) → default_handler nodes ≡ first_answer nodes
  unfolding default_handler
  default_handler-eq nodes = proxy_loop-eq 0 (length nodes) nodes (omega arith)

  -- A node in front of others.
  first_answer-cons :
      (n : ℕ) (ns : List ℕ)
      → ns ≢ []
      → first_answer (n ∷ ns)
        ≡ (let r = ask proxy404 n in if r.0 then by_node n r.1 else first_answer ns)
  unfolding first_answer
  first_answer-cons n [] h = absurd (h refl)
  first_answer-cons n (m ∷ ns) h = refl

  nonempty : (front : List ℕ) (n : ℕ) → front ++ n ∷ [] ≢ []
  nonempty [] n = λ e. ground arith
  nonempty (x ∷ front) n = λ e. ground arith

  only_answer :
      (n status : ℕ)
      → upstream n 10_000 ≡ answered status
      → first_answer (n ∷ []) ≡ by_node n status
  unfolding first_answer ask proxy_timeout proxy_http proxy_status
  only_answer n status e = ground arith

  last_serves :
      (front : List ℕ) (n status : ℕ)
      → upstream n 10_000 ≡ answered status
      → (m : ℕ) × (st : ℕ) × (first_answer (front ++ n ∷ []) ≡ by_node m st)
  last_serves [] n status e = (n, status, only_answer n status e)
  last_serves (x ∷ front) n status e =
      let (m, st, p) = last_serves front n status e in
      elim (Bool-cases (ask proxy404 x).0) [
        | inl h ↦ (x, (ask proxy404 x).1, first_answer-cons x _ (nonempty front n) ∙ rw h)
        | inr h ↦ (m, st, first_answer-cons x _ (nonempty front n) ∙ rw h p)
      ]

  -- If the last node of the list answers within ten seconds, whatever the status, then the client
  -- gets the answer of some node.
  pub default_handler_served :
      (front : List ℕ) (n status : ℕ)
      → upstream n 10_000 ≡ answered status
      → (m : ℕ) × (st : ℕ) × (default_handler (front ++ n ∷ []) ≡ by_node m st)
  default_handler_served front n status e =
      let (m, st, p) = last_serves front n status e in
      (m, st, default_handler-eq (front ++ n ∷ []) ∙ p)
