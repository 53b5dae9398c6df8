-- ===== src/Httpsrv/Proxy/Statuses.antt =====
-- The status that the client gets, where the answers of the nodes are known with their bodies, is
-- the one that is known from the statuses alone: internal/algod/proxy.go.
use algo_vnode.Prelude.{
  ℕ, suc, ◌-◌, ◌≡◌, inl, inr, refl, Bool, Bool-cases, true, false, List, [], ◌∷◌, Option,
  Option-cases, none, some, GoError, Result, Result-cases, ok, err, ltb, if◌then◌else◌, length,
}
use algo_vnode.Algod.State.{NodeCfg}
use algo_vnode.Httpsrv.Proxy.{
  Upstream, unmade, failed, answered, Served, by_node, bad_gateway, proxy_status, proxy_timeout,
  proxy404, proxy_all, proxy_http, ask, proxy_loop, default_handler,
}
use algo_vnode.Httpsrv.Proxy.Request.{
  Incoming, Outgoing, new_request, Answer, Written, pass_on, proxy_write, write_loop, default_write,
  written_or,
}

-- The status of what the client gets.
abbrev pub served_status : Served → ℕ
served_status (by_node n status) = status
served_status bad_gateway = 502

module _ (cfgs : ℕ → NodeCfg) (rtt : ℕ → ℕ) (no_request : List ℕ → Option GoError)
    (send : ℕ → Outgoing → ℕ → Result Answer) (c : Incoming) where
  -- What of an answer decides whether it is passed on.
  unfoldable pub outcome : Result Answer → Upstream
  outcome (err e) = failed e
  outcome (ok a) = answered a.status

  unfoldable pub upstream : ℕ → ℕ → Upstream
  unfolding outcome
  upstream n timeout =
      let req = new_request (cfgs n) c in
      elim (no_request req.url) [ some e ↦ unmade e | none ↦ outcome (send n req timeout) ]

  -- What is written has the status that is returned, and nothing is written if none is passed on.
  abbrev Fits : Option Written → Bool × ℕ × Option GoError → Type 0
  Fits none r = r.0 ≡ false
  Fits (some w) r = (r.0 ≡ true) × (w.status ≡ r.1)

  pass_on-Fits :
      (statuses : Option (List ℕ)) (n : ℕ) (a : Answer)
      → Fits (pass_on (cfgs n) statuses a) (proxy_http statuses (answered a.status))
  unfolding pass_on proxy_http
  pass_on-Fits statuses n a = elim (Bool-cases (proxy_status statuses a.status)) [
    | inl e ↦ rw (e, pass_on, proxy_http) (refl, refl)
    | inr e ↦ rw (e, pass_on, proxy_http) refl
  ]

  proxy_write-Fits :
      (statuses : Option (List ℕ)) (n : ℕ)
      → Fits (proxy_write cfgs rtt no_request send c statuses n) (ask rtt upstream statuses n)
  unfolding proxy_write ask upstream
  proxy_write-Fits statuses n =
      let req = new_request (cfgs n) c in
      elim (Option-cases (no_request req.url)) [
        | inr (e, f) ↦ rw (f, proxy_write, ask, upstream) (unfold proxy_http in refl)
        | inl f ↦ elim (Result-cases (send n req (proxy_timeout statuses (rtt n)))) [
          | inl (e, g) ↦ rw (f, g, proxy_write, ask, upstream) (unfold proxy_http in refl)
          | inr (a, g) ↦ rw (f, g, proxy_write, ask, upstream) (pass_on-Fits statuses n a)
        ]
      ]

  chosen :
      (o : Option Written) (r : Bool × ℕ × Option GoError) (n : ℕ) (w : Written) (s : Served)
      → Fits o r
      → w.status ≡ served_status s
      → (written_or o w).status ≡ served_status (if r.0 then by_node n r.1 else s)
  chosen none r n w s f e = rw f e
  chosen (some v) r n w s f e = rw f.0 f.1

  write_loop_status :
      (i len : ℕ) (nodes : List ℕ)
      → (write_loop cfgs rtt no_request send c i len nodes).status
        ≡ served_status (proxy_loop rtt upstream i len nodes)
  unfolding write_loop proxy_loop
  write_loop_status i len [] = refl
  write_loop_status i len (n ∷ ns) =
      chosen _ _ n _ _ (proxy_write-Fits (if ltb i (len - 1) then proxy404 else proxy_all) n)
        (write_loop_status (suc i) len ns)

  -- The status that `defaultHandler` writes depends on the statuses of the nodes' answers only, as
  -- the loop over these tells it: headers and bodies do not change which answer is passed on.
  pub default_write_status :
      (nodes : List ℕ)
      → (default_write cfgs rtt no_request send c nodes).status
        ≡ served_status (default_handler rtt upstream nodes)
  unfolding default_write default_handler
  default_write_status nodes = write_loop_status 0 (length nodes) nodes
