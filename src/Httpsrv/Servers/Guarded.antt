-- ===== src/Httpsrv/Servers/Guarded.antt =====
-- Which requests get through the guards of routes.
use algo_vnode.Prelude.{
  ◌≡◌, ◌≢◌, ◌⊎◌, inl, inr, refl, sym, ◌∙◌, ap, subst, List, [], ◌∷◌, arith, Text, codes, All,
  bytes_eq_iff, Option-cases,
}
use algo_vnode.Httpsrv.Auth.{
  Request, provided_token, seen_path, Verdict, next, unauthorized, handler,
}
use algo_vnode.Httpsrv.Auth.Tokens.{Holds, handler_admits}
use algo_vnode.Httpsrv.Routes.{
  Target, default_target, Guard, Route, Incoming, param_names, names_of, Router, param,
  auth_request, run_guards, reaches, behind, dispatch,
}
use mathlib.Core.List.{Memᴰ}
use mathlib.Core.List.Memᴰ.{head, tail}

all_member : {A : Type 0} (P : A → Type 0) (x : A) (xs : List A) → Memᴰ x xs → All P xs → P x
all_member P x [] m a = elim m [ ]
all_member P x (y ∷ ys) (head e) a = subst P (sym e) a.0
all_member P x (y ∷ ys) (tail m) a = all_member P x ys m a.1

-- No parameter of the pattern is named `token`.
abbrev Tokenless : Route → Type 0
Tokenless r = All (λ k. k ≢ codes "token") (param_names r.pattern)

param-Tokenless :
    (ps : List (Text × Text))
    → All (λ k. k ≢ codes "token") (names_of ps)
    → param ps (codes "token") ≡ []
unfolding param
param-Tokenless [] a = refl
param-Tokenless ((k, v) ∷ ps) a =
    ground (arith, bytes_eq_iff k (codes "token"), param-Tokenless ps a.1)

-- With no token in the path, the check leaves the path alone.
handler-path :
    (tokens : List Text) (r : Request) (p : Text)
    → r.path_token ≡ []
    → handler tokens r ≡ next p
    → p ≡ r.path
unfolding handler seen_path
handler-path tokens r p e h = ground arith

-- The token of a request that names none in its path.
abbrev pub offered : Guard → Incoming → Text
offered g r = provided_token (auth_request g [] r)

-- A route is behind the guards `m`, or is the open one.
abbrev pub GuardedBy : List Guard → Route → Type 0
GuardedBy m r =
    Tokenless r
    × ((r.guards ≡ m)
        ⊎ ((r.guards ≡ [])
            × (r.verb ≡ codes "GET")
            × (r.pattern ≡ codes "/health")
            × (r.target ≡ default_target)))

auth_request-Tokenless :
    (g : Guard) (ps : List (Text × Text)) (r : Incoming)
    → param ps (codes "token") ≡ []
    → auth_request g ps r ≡ auth_request g [] r
unfolding auth_request param
auth_request-Tokenless g ps r e = rw (e, auth_request) refl

denied_next : (p : Text) → ¬ (unauthorized ≡ next p)
denied_next p e = ground arith

verdict_next :
    (p : Text) (v : Verdict)
    → (elim v [ unauthorized ↦ unauthorized | next path ↦ next path ]) ≡ next p
    → v ≡ next p
verdict_next p unauthorized e = e
verdict_next p (next q) e = e

run_guards-one :
    (g : Guard) (ps : List (Text × Text)) (r : Incoming) (p : Text)
    → param ps (codes "token") ≡ []
    → run_guards (g ∷ []) ps r ≡ next p
    → ((r.verb ≡ codes "OPTIONS") ⊎ Holds (offered g r) g.guard_tokens) × (p ≡ r.path)
unfolding run_guards auth_request param
run_guards-one g ps r p e h =
    let req = auth_request g [] r in
    let same = auth_request-Tokenless g ps r e in
    let passed : handler g.guard_tokens req ≡ next p =
      sym (ap (handler g.guard_tokens) same) ∙ verdict_next p _ h in
    let admitted = (handler_admits g.guard_tokens req).0 (λ u. denied_next p (sym u ∙ passed)) in
    (admitted, handler-path g.guard_tokens req p refl passed)

run_guards-none :
    (ps : List (Text × Text)) (r : Incoming) (p : Text) → run_guards [] ps r ≡ next p → p ≡ r.path
unfolding run_guards
run_guards-none ps r p h = ground arith

-- How a request has come to a handler.
pub record Found (rs : List Route) (r : Incoming) (t : Target) (p : Text) (ps : List (Text × Text))
    : Type 0 where
  pub route : Route
  pub registered : Memᴰ route rs
  pub same_verb : route.verb ≡ r.verb
  pub same_names : names_of ps ≡ param_names route.pattern
  pub exact : param_names route.pattern ≡ [] → r.path ≡ route.pattern
  pub same_target : t ≡ route.target
  pub passed : run_guards route.guards ps r ≡ next p

behind-reaches :
    (t t' : Target) (p : Text) (ps qs : List (Text × Text)) (v : Verdict)
    → behind t' qs v ≡ reaches t p ps
    → (t ≡ t') × (ps ≡ qs) × (v ≡ next p)
behind-reaches t t' p ps qs unauthorized e = absurd (ground arith)
behind-reaches t t' p ps qs (next q) e = (ground arith, ground arith, ground arith)

pub dispatch-Found :
    (router : Router) (rs : List Route) (r : Incoming) (t : Target) (p : Text)
    (ps : List (Text × Text))
    → dispatch router rs r ≡ reaches t p ps
    → Found rs r t p ps
unfolding dispatch
dispatch-Found router rs r t p ps h = elim (Option-cases (router.find rs r.verb r.path)) [
  | inl n ↦ absurd (ground arith)
  | inr ((route, qs), e) ↦
      let h' : behind route.target qs (run_guards route.guards qs r) ≡ reaches t p ps =
        sym (rw (e, dispatch) refl) ∙ h in
      let (same_t, same_ps, passed) = behind-reaches t route.target p ps qs _ h' in
      record {
        route = route;
        registered = router.found_is_registered rs r.verb r.path route qs e;
        same_verb = router.found_verb rs r.verb r.path route qs e;
        same_names = ap names_of same_ps ∙ router.found_params rs r.verb r.path route qs e;
        exact = router.found_exact rs r.verb r.path route qs e;
        same_target = same_t;
        passed = subst (λ x. run_guards route.guards x r ≡ next p) (sym same_ps) passed;
      }
]

-- Over routes that are guarded by one guard but for the open one: what reaches a handler is an
-- OPTIONS request, offers a token, or is for the open route; and its path is as it came.
pub reaches_through :
    (router : Router) (g : Guard) (rs : List Route) (r : Incoming) (t : Target) (p : Text)
    (ps : List (Text × Text))
    → All (GuardedBy (g ∷ [])) rs
    → dispatch router rs r ≡ reaches t p ps
    → (((r.verb ≡ codes "OPTIONS") ⊎ Holds (offered g r) g.guard_tokens)
        ⊎ ((r.verb ≡ codes "GET") × (r.path ≡ codes "/health") × (t ≡ default_target)))
      × (p ≡ r.path)
reaches_through router g rs r t p ps guarded h =
    let f = dispatch-Found router rs r t p ps h in
    let (tokenless, guards) = all_member (GuardedBy (g ∷ [])) f.route rs f.registered guarded in
    let none_named = subst (All (λ k. k ≢ codes "token")) (sym f.same_names) tokenless in
    elim guards [
      | inl e ↦
          let (way, same) =
            run_guards-one g ps r p (param-Tokenless ps none_named)
              (subst (λ m. run_guards m ps r ≡ next p) e f.passed) in
          (inl way, same)
      | inr (e, v, q, d) ↦
          let free = subst (λ m. run_guards m ps r ≡ next p) e f.passed in
          let health = f.exact (ap param_names q) in
          (inr (sym f.same_verb ∙ v, health ∙ q, f.same_target ∙ d), run_guards-none ps r p free)
    ]
