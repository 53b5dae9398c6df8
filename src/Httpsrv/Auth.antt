-- ===== src/Httpsrv/Auth.antt =====
-- The token check of internal/httpsrv/auth.go. Texts are lists of bytes.
pub mod Tokens
use algo_vnode.Prelude.{
  codes, bytes_eq, bytes_eq_iff, ℕ, ◌+◌, ◌-◌, ◌≡◌, ◌≢◌, refl, sym, ◌∙◌, ap, ◌⊎◌, inl, inr, ◌↔◌,
  Bool, true, false, ◌&&◌, ◌||◌, not, List, [], ◌∷◌, ◌++◌, Option, none, some, arith, ltb, leb,
  ◌==◌, if◌then◌else◌, String, Bool-cases, List-cases, Option-cases, ==_iff,
}

-- What the check reads of a request: the token's header, `Authorization`, and the parameter
-- `token` of the path, each empty if it is absent.
pub record Request : Type 0 where
  pub method : List ℕ
  pub token_header : List ℕ
  pub authorization : List ℕ
  pub path_token : List ℕ
  pub path : List ℕ

-- `strings.SplitN(s, " ", 2)`: the text up to the first blank, and the rest if there is one.
unfoldable pub split_blank : List ℕ → List ℕ × Option (List ℕ)
split_blank [] = ([], none)
split_blank (c ∷ s) = let r = split_blank s in if c == b' ' then ([], some s) else (c ∷ r.0, r.1)

unfoldable pub lower : ℕ → ℕ
lower c = if leb b'A' c && leb c b'Z' then c + 32 else c

-- `strings.EqualFold` against a word of letters without a second lower case form.
unfoldable pub equal_fold : List ℕ → List ℕ → Bool
unfolding lower
equal_fold [] [] = true
equal_fold (x ∷ xs) (y ∷ ys) = lower x == lower y && equal_fold xs ys
equal_fold _ _ = false

-- The token of a bearer authentication, if it is one.
unfoldable pub bearer_token : List ℕ → Option (List ℕ)
unfolding split_blank equal_fold
bearer_token authorization =
    let r = split_blank authorization in
    elim r.1 [ none ↦ none | some t ↦ if equal_fold (codes "Bearer") r.0 then some t else none ]

-- `strings.TrimPrefix`.
unfoldable pub trim_prefix : List ℕ → List ℕ → Option (List ℕ)
trim_prefix s [] = some s
trim_prefix [] (p ∷ ps) = none
trim_prefix (c ∷ s) (p ∷ ps) = let r = trim_prefix s ps in if c == p then r else none

abbrev pub or_else : Option (List ℕ) → List ℕ → List ℕ
or_else none d = d
or_else (some x) d = x

abbrev pub is_empty : List ℕ → Bool
is_empty [] = true
is_empty (_ ∷ _) = false

-- The token that the request provides: by its header, or else as a bearer token; but the path's
-- token if there is one.
unfoldable pub provided_token : Request → List ℕ
unfolding bearer_token
provided_token r =
    let header =
      if is_empty r.token_header
      then or_else (bearer_token r.authorization) []
      else r.token_header in
    if is_empty r.path_token then header else r.path_token

-- The path that the next handler sees: without the prefix `/urlAuth/` and the token.
unfoldable pub seen_path : Request → List ℕ
unfolding trim_prefix
seen_path r =
    if is_empty r.path_token
    then r.path
    else or_else (trim_prefix r.path (codes "/urlAuth/" ++ r.path_token)) r.path

-- The loop over the tokens.
unfoldable pub is_token : List ℕ → List (List ℕ) → Bool
unfolding bytes_eq
is_token t [] = false
is_token t (x ∷ xs) = if bytes_eq t x then true else is_token t xs

-- What the middleware does: it calls the next handler, which sees a path, or answers 401.
pub data Verdict : Type 0 where
  next : List ℕ → Verdict
  unauthorized : Verdict

-- `handler`.
unfoldable pub handler : List (List ℕ) → Request → Verdict
unfolding bytes_eq provided_token seen_path is_token
handler tokens r =
    if bytes_eq r.method (codes "OPTIONS")
    then next r.path
    else (if is_token (provided_token r) tokens then next (seen_path r) else unauthorized)
