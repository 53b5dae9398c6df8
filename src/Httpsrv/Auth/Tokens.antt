-- ===== src/Httpsrv/Auth/Tokens.antt =====
-- Which requests the token check lets through.
use algo_vnode.Prelude.{
  codes, bytes_eq, bytes_eq_iff, ℕ, ◌≡◌, ◌≢◌, refl, ◌⊎◌, inl, inr, ◌↔◌, true, false, List, [], ◌∷◌,
  ◌++◌, some, arith, Bool-cases,
}
use algo_vnode.Httpsrv.Auth.{
  Request, split_blank, equal_fold, bearer_token, trim_prefix, provided_token, seen_path, is_token,
  next, unauthorized, handler,
}

-- A list that holds a token.
pub data Holds (t : List ℕ) : List (List ℕ) → Type 0 where
  first : {x : List ℕ} {xs : List (List ℕ)} → t ≡ x → Holds t (x ∷ xs)
  later : {x : List ℕ} {xs : List (List ℕ)} → Holds t xs → Holds t (x ∷ xs)

is_token_sound : (t : List ℕ) (tokens : List (List ℕ)) → is_token t tokens ≡ true → Holds t tokens
unfolding is_token
is_token_sound t [] h = absurd (ground arith)
is_token_sound t (x ∷ xs) h = elim (Bool-cases (bytes_eq t x)) [
  | inl e ↦ first ((bytes_eq_iff t x).0 e)
  | inr e ↦ later (is_token_sound t xs (ground arith))
]

is_token_complete :
    (t : List ℕ) (tokens : List (List ℕ)) → Holds t tokens → is_token t tokens ≡ true
unfolding is_token
is_token_complete t [] h = elim h [ ]
is_token_complete t (x ∷ xs) (first e) = ground (arith, bytes_eq_iff t x)
is_token_complete t (x ∷ xs) (later h) = ground (arith, is_token_complete t xs h)

refused :
    (tokens : List (List ℕ)) (r : Request)
    → bytes_eq r.method (codes "OPTIONS") ≡ false
    → is_token (provided_token r) tokens ≡ false
    → (r.method ≡ codes "OPTIONS") ⊎ Holds (provided_token r) tokens
    → ⊥
refused tokens r e f (inl p) = ground (arith, bytes_eq_iff r.method (codes "OPTIONS"))
refused tokens r e f (inr h) = ground (arith, is_token_complete (provided_token r) tokens h)

-- A request is let through exactly if it is an OPTIONS request or provides one of the tokens.
pub handler_admits :
    (tokens : List (List ℕ)) (r : Request)
    → (handler tokens r ≢ unauthorized)
      ↔ ((r.method ≡ codes "OPTIONS") ⊎ Holds (provided_token r) tokens)
unfolding handler
handler_admits tokens r = elim (Bool-cases (bytes_eq r.method (codes "OPTIONS"))) [
  | inl e ↦ rw (e, handler) (λ _. inl ((bytes_eq_iff r.method _).0 e), λ _. λ p. ground arith)
  | inr e ↦ elim (Bool-cases (is_token (provided_token r) tokens)) [
    | inl f ↦ rw (e, f, handler) (λ _. inr (is_token_sound _ tokens f), λ _. λ p. ground arith)
    | inr f ↦ rw (e, f, handler) (λ h. absurd (h refl), λ h. absurd (refused tokens r e f h))
  ]
]

trim_prefix-append : (p s : List ℕ) → trim_prefix (p ++ s) p ≡ some s
unfolding trim_prefix
trim_prefix-append [] s = refl
trim_prefix-append (c ∷ p) s = ground (arith, trim_prefix-append p s)

-- No blank in a word.
abbrev pub NoBlank : List ℕ → Type 0
NoBlank [] = Unit {0}
NoBlank (c ∷ w) = (c ≢ b' ') × NoBlank w

split_blank-append : (w s : List ℕ) → NoBlank w → split_blank (w ++ b' ' ∷ s) ≡ (w, some s)
unfolding split_blank
split_blank-append [] s h = refl
split_blank-append (c ∷ w) s h = ground (arith, split_blank-append w s h.1)

-- The three ways to provide a token, for a request that is not an OPTIONS request and one of the
-- tokens that is not empty: in the path, which wins and is taken off the path that the next handler
-- sees; in the header; and, if the header is absent, after the word Bearer in any case.
pub handler_ways :
    (tokens : List (List ℕ)) (r : Request) (t rest word : List ℕ)
    → bytes_eq r.method (codes "OPTIONS") ≡ false
    → t ≢ []
    → Holds t tokens
    → (r.path_token ≡ t → r.path ≡ (codes "/urlAuth/" ++ t) ++ rest → handler tokens r ≡ next rest)
      × (r.path_token ≡ [] → r.token_header ≡ t → handler tokens r ≡ next r.path)
      × (r.path_token ≡ []
          → r.token_header ≡ []
          → r.authorization ≡ word ++ b' ' ∷ t
          → NoBlank word
          → equal_fold (codes "Bearer") word ≡ true
          → handler tokens r ≡ next r.path)
unfolding handler provided_token seen_path bearer_token
handler_ways tokens r [] rest word m n h = absurd (n refl)
handler_ways tokens r (c ∷ t) rest word m n h = (
  λ p q. ground (
    arith,
    is_token_complete (c ∷ t) tokens h,
    trim_prefix-append (codes "/urlAuth/" ++ c ∷ t) rest,
  ),
  λ p q. ground (arith, is_token_complete (c ∷ t) tokens h),
  λ p q a w f.
      ground (arith, is_token_complete (c ∷ t) tokens h, split_blank-append word (c ∷ t) w),
)
