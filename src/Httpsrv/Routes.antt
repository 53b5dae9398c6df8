-- ===== src/Httpsrv/Routes.antt =====
-- The routes of internal/httpsrv/handlers.go, and how a request gets to a handler. The router is
-- that of `github.com/labstack/echo`, and is an interface with what its documentation promises.
use algo_vnode.Prelude.{
  ◌≡◌, List, [], ◌∷◌, Option, none, some, String, Text, codes, bytes_eq, ◌==◌, if◌then◌else◌, map,
}
use algo_vnode.Httpsrv.Auth.{Request, Verdict, next, unauthorized, handler}
use mathlib.Core.List.{Memᴰ}

-- The handlers that the routes name.
pub data Target : Type 0 where
  wait_target block_target block_idx_target default_target : Target

-- What `MakeAuth` makes of a header's name and the tokens.
pub record Guard : Type 0 where
  pub header_name : Text
  pub guard_tokens : List Text

-- `MakeAuth`.
unfoldable pub make_auth : String → List String → Guard
make_auth header tokens = record { header_name = codes header; guard_tokens = map codes tokens }

-- A handler that is registered for a method and a pattern of paths, behind guards.
pub record Route : Type 0 where
  pub verb : Text
  pub pattern : Text
  pub target : Target
  pub guards : List Guard

abbrev pub route : String → String → Target → List Guard → Route
route verb pattern target guards = record {
  verb = codes verb;
  pattern = codes pattern;
  target = target;
  guards = guards;
}

-- `RegisterAlgodHandlers`.
unfoldable pub register_algod_handlers : List Guard → List Route
register_algod_handlers m =
    route "GET" "/v2/status/wait-for-block-after/:round" wait_target m
    ∷ route "GET" "/v2/blocks/:round" block_target m
    ∷ route "GET" "/v2/blocks/:round/transactions" default_target m
    ∷ route "GET" "/*" default_target m
    ∷ route "POST" "/*" default_target m
    ∷ route "HEAD" "/*" default_target m
    ∷ route "OPTIONS" "/*" default_target m
    ∷ route "GET" "/health" default_target []
    ∷ []

-- `RegisterIdxHandlers`.
unfoldable pub register_idx_handlers : List Guard → List Route
register_idx_handlers m = route "GET" "/v2/blocks/:round" block_idx_target m ∷ []

-- A request as it comes in; `header` is `Header.Get`.
pub record Incoming : Type 0 where
  pub verb : Text
  pub path : Text
  pub header : Text → Text

-- The text up to the next slash.
abbrev pub segment : Text → Text
segment [] = []
segment (c ∷ s) = let rest = segment s in if c == b'/' then [] else c ∷ rest

-- The parameters of a pattern: a name after a colon, and `*`.
abbrev pub param_names : Text → List Text
param_names [] = []
param_names (c ∷ s) =
    let rest = param_names s in
    if c == b':' then segment s ∷ rest else (if c == b'*' then (c ∷ []) ∷ rest else rest)

abbrev pub names_of : List (Text × Text) → List Text
names_of [] = []
names_of ((k, v) ∷ ps) = k ∷ names_of ps

-- The router: a route that it finds is a registered one, for the request's method, with values for
-- the parameters of its pattern; a pattern without parameters is found for itself alone.
pub record Router : Type 0 where
  pub find : List Route → Text → Text → Option (Route × List (Text × Text))
  pub found_is_registered :
      (rs : List Route) (m p : Text) (r : Route) (ps : List (Text × Text))
      → find rs m p ≡ some (r, ps)
      → Memᴰ r rs
  pub found_verb :
      (rs : List Route) (m p : Text) (r : Route) (ps : List (Text × Text))
      → find rs m p ≡ some (r, ps)
      → r.verb ≡ m
  pub found_params :
      (rs : List Route) (m p : Text) (r : Route) (ps : List (Text × Text))
      → find rs m p ≡ some (r, ps)
      → names_of ps ≡ param_names r.pattern
  pub found_exact :
      (rs : List Route) (m p : Text) (r : Route) (ps : List (Text × Text))
      → find rs m p ≡ some (r, ps)
      → param_names r.pattern ≡ []
      → p ≡ r.pattern

-- `Param`: the value of a parameter of the route, or nothing.
unfoldable pub param : List (Text × Text) → Text → Text
unfolding bytes_eq
param [] k = []
param ((j, v) ∷ ps) k = let rest = param ps k in if bytes_eq j k then v else rest

-- What a guard reads of a request.
unfoldable pub auth_request : Guard → List (Text × Text) → Incoming → Request
unfolding param
auth_request g ps r = record {
  method = r.verb;
  token_header = r.header g.header_name;
  authorization = r.header (codes "Authorization");
  path_token = param ps (codes "token");
  path = r.path;
}

-- The guards of a route, one inside the other: what the handler sees as the path, if it is reached.
unfoldable pub run_guards : List Guard → List (Text × Text) → Incoming → Verdict
unfolding auth_request handler
run_guards [] ps r = next r.path
run_guards (g ∷ gs) ps r = elim (handler g.guard_tokens (auth_request g ps r)) [
  | unauthorized ↦ unauthorized
  | next path ↦ run_guards gs ps (record r { path = path })
]

-- What becomes of a request.
pub data Served : Type 0 where
  unrouted denied : Served
  reaches : Target → Text → List (Text × Text) → Served

abbrev pub behind : Target → List (Text × Text) → Verdict → Served
behind t ps unauthorized = denied
behind t ps (next path) = reaches t path ps

unfoldable pub dispatch : Router → List Route → Incoming → Served
unfolding run_guards
dispatch router rs r = elim (router.find rs r.verb r.path) [
  | none ↦ unrouted
  | some (route, ps) ↦ behind route.target ps (run_guards route.guards ps r)
]
