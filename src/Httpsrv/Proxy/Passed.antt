-- ===== src/Httpsrv/Proxy/Passed.antt =====
-- What a request carries to a node, and whose answer the client gets: internal/algod/proxy.go and
-- defaultHandler of internal/httpsrv/handlers.go.
use algo_vnode.Prelude.{
  ℕ, suc, ◌+◌, ◌-◌, ◌*◌, ◌==◌, ◌≡◌, ap, subst, false, ◌⊎◌, inl, inr, refl, Bool-cases, true, List,
  [], ◌∷◌, ◌++◌, Option, Option-cases, some, GoError, Result, Result-cases, ok, arith, ltb,
  if◌then◌else◌, codes, length,
}
use algo_vnode.Algod.State.{NodeCfg}
use algo_vnode.Httpsrv.Handlers.{blob}
use algo_vnode.Httpsrv.Proxy.{in_statuses, proxy_status, proxy_timeout, proxy404, proxy_all}
use algo_vnode.Httpsrv.Proxy.Request.{
  x_avn_node_id, get_header, remove_header, set_header, Incoming, Outgoing, new_request, Answer,
  take, Written, no_upstream, pass_on, proxy_write, write_loop, default_write,
}

-- What a node is asked for, and how long it has, by the nodes that come after it: each but the last
-- has a time that depends on its response time, and its answer counts with four statuses only.
abbrev statuses_before : List ℕ → Option (List ℕ)
statuses_before [] = proxy_all
statuses_before (n ∷ ns) = proxy404

abbrev pub patience : List ℕ → ℕ → ℕ
patience [] rtt = 10_000
patience (n ∷ ns) rtt = 250 + 3 * rtt

abbrev pub IsTaken : List ℕ → ℕ → Type 0
IsTaken [] status = Unit {0}
IsTaken (n ∷ ns) status = (status ≡ 200) ⊎ ((status ≡ 204) ⊎ ((status ≡ 400) ⊎ (status ≡ 404)))

proxy_status-IsTaken :
    (after : List ℕ) (status : ℕ)
    → proxy_status (statuses_before after) status ≡ true
    → IsTaken after status
unfolding proxy_status in_statuses
proxy_status-IsTaken [] status e = tt
proxy_status-IsTaken (n ∷ ns) status e = elim (Bool-cases (200 == status)) [
  | inl p ↦ inl (ground arith)
  | inr p ↦ elim (Bool-cases (204 == status)) [
    | inl q ↦ inr (inl (ground arith))
    | inr q ↦ elim (Bool-cases (400 == status)) [
      | inl r ↦ inr (inr (inl (ground arith)))
      | inr r ↦ inr (inr (inr (ground arith)))
    ]
  ]
]

timeout-patience :
    (after : List ℕ) (rtt : ℕ) → proxy_timeout (statuses_before after) rtt ≡ patience after rtt
unfolding proxy_timeout
timeout-patience [] rtt = refl
timeout-patience (n ∷ ns) rtt = refl

statuses_at :
    (i len n : ℕ) (ns : List ℕ)
    → len ≡ i + length (n ∷ ns)
    → (if ltb i (len - 1) then proxy404 else proxy_all) ≡ statuses_before ns
statuses_at i len n [] e = let last : ltb i (len - 1) ≡ false = ground arith in rw last refl
statuses_at i len n (m ∷ ms) e = let more : ltb i (len - 1) ≡ true = ground arith in rw more refl

module _ (cfgs : ℕ → NodeCfg) (rtt : ℕ → ℕ) (unmade : List ℕ → Option GoError)
    (send : ℕ → Outgoing → ℕ → Result Answer) (c : Incoming) where
  -- The client gets the answer of the node `n`, before those of `after`, to its request.
  pub record IsAnswerOf (n : ℕ) (after : List ℕ) (w : Written) : Type 0 where
    pub answer : Answer
    pub answers : send n (new_request (cfgs n) c) (patience after (rtt n)) ≡ ok answer
    pub taken : IsTaken after answer.status
    pub same_status : w.status ≡ answer.status
    pub copied_body : w.body ≡ blob (take answer.copied answer.body)
    pub names_node : get_header w.headers x_avn_node_id ≡ codes (cfgs n).id

  pass_on-IsAnswerOf :
      (n : ℕ) (after : List ℕ) (a : Answer) (w : Written)
      → send n (new_request (cfgs n) c) (proxy_timeout (statuses_before after) (rtt n)) ≡ ok a
      → pass_on (cfgs n) (statuses_before after) a ≡ some w
      → IsAnswerOf n after w
  unfolding pass_on set_header remove_header get_header
  pass_on-IsAnswerOf n after a w e p =
      elim (Bool-cases (proxy_status (statuses_before after) a.status)) [
        | inr f ↦ absurd (ground arith)
        | inl f ↦ record {
          answer = a;
          answers =
              subst (λ t. send n (new_request (cfgs n) c) t ≡ ok a) (timeout-patience after (rtt n))
                e;
          taken = proxy_status-IsTaken after a.status f;
          same_status = ground arith;
          copied_body = ground arith;
          names_node = ground arith;
        }
      ]

  proxy_write-IsAnswerOf :
      (n : ℕ) (after : List ℕ) (w : Written)
      → proxy_write cfgs rtt unmade send c (statuses_before after) n ≡ some w
      → IsAnswerOf n after w
  unfolding proxy_write
  proxy_write-IsAnswerOf n after w p =
      let req = new_request (cfgs n) c in
      elim (Option-cases (unmade req.url)) [
        | inr (e, f) ↦ absurd (ground arith)
        | inl f ↦ elim (Result-cases (send n req (proxy_timeout (statuses_before after) (rtt n)))) [
          | inl (e, g) ↦ absurd (ground arith)
          | inr (a, g) ↦ pass_on-IsAnswerOf n after a w g (ground arith)
        ]
      ]

  -- It is the answer of one of the nodes, or that there is none.
  abbrev Source : List ℕ → Written → Type 0
  Source nodes w =
      (w ≡ no_upstream)
      ⊎ ((before : List ℕ) × (n : ℕ) × (after : List ℕ) × (nodes ≡ before ++ n ∷ after)
          × IsAnswerOf n after w)

  write_loop-Source :
      (i len : ℕ) (nodes : List ℕ)
      → len ≡ i + length nodes
      → Source nodes (write_loop cfgs rtt unmade send c i len nodes)
  unfolding write_loop
  write_loop-Source i len [] l = inl refl
  write_loop-Source i len (n ∷ ns) l =
      let s = statuses_at i len n ns l in
      elim (Option-cases (proxy_write cfgs rtt unmade send c (statuses_before ns) n)) [
        | inr (w, e) ↦
            rw (s, e, write_loop) (inr ([], n, ns, refl, proxy_write-IsAnswerOf n ns w e))
        | inl e ↦ elim (write_loop-Source (suc i) len ns (omega (arith, l))) [
          | inl f ↦ rw (s, e, write_loop) (inl f)
          | inr (before, m, after, split, a) ↦
              rw (s, e, write_loop) (inr (n ∷ before, m, after, ap (◌∷◌ n) split, a))
        ]
      ]

  -- What `defaultHandler` writes is the answer that there is no node, or an answer of one of the
  -- nodes to the request: its status, and as much of its body as could be copied, with the name of
  -- that node. Each node but the last has 250 milliseconds and three times its response time, and
  -- its answer is written only with a status 200, 204, 400 or 404; the last one has ten seconds.
  pub default_write_source :
      (nodes : List ℕ)
      → (default_write cfgs rtt unmade send c nodes ≡ no_upstream)
        ⊎ ((before : List ℕ) × (n : ℕ) × (after : List ℕ) × (nodes ≡ before ++ n ∷ after)
            × IsAnswerOf n after (default_write cfgs rtt unmade send c nodes))
  unfolding default_write
  default_write_source nodes = write_loop-Source 0 (length nodes) nodes (omega arith)
