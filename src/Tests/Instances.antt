-- ===== src/Tests/Instances.antt =====
-- The parameters of the model as concrete functions: a bounded cache that drops the oldest entry,
-- whole numbers as response times, and blocks that are their own round.
use algo_vnode.Prelude.{
  ℕ, zero, suc, ◌+◌, ◌*◌, ◌/◌, ◌-◌, ◌≡◌, ◌≢◌, ◌⊎◌, inl, inr, refl, true, false, Bool-cases, List,
  [], ◌∷◌, Option, none, some, Option-cases, arith, ltb, ◌==◌, if◌then◌else◌, Result, ok, err,
  message,
}
use algo_vnode.Algod.Float.{Float}
use algo_vnode.BlockCache.Heap.{Heap}
use algo_vnode.BlockCache.Lru.{Lru}
use algo_vnode.BlockFetcher.Make.{Codec}
use algo_vnode.BlockFetcher.Wrap.{BlockWrap}

pub record Bounded : Type 0 where
  pub size : ℕ
  pub items : List (ℕ × ℕ)

unfoldable pub find : List (ℕ × ℕ) → ℕ → Option ℕ
find [] k = none
find ((j, a) ∷ l) k = if j == k then some a else find l k

unfoldable pub newest : ℕ → List (ℕ × ℕ) → List (ℕ × ℕ)
newest zero l = []
newest (suc n) [] = []
newest (suc n) (x ∷ l) = x ∷ newest n l

unfoldable pub find_or_add : Bounded → ℕ → ℕ → Bounded × Option ℕ
unfolding find newest
find_or_add c k a = elim (find c.items k) [
  | some b ↦ (c, some b)
  | none ↦ (record c { items = (k, a) ∷ newest c.size c.items }, none)
]

find-newest :
    (n : ℕ) (l : List (ℕ × ℕ)) (k : ℕ)
    → (find (newest n l) k ≡ find l k) ⊎ (find (newest n l) k ≡ none)
unfolding find newest
find-newest zero l k = inr refl
find-newest (suc n) [] k = inl refl
find-newest (suc n) ((j, a) ∷ l) k = elim (find-newest n l k) [
  | inl e ↦ inl (ground arith)
  | inr e ↦ elim (Bool-cases (j == k)) [ inl f ↦ inl (ground arith) | inr f ↦ inr (ground arith) ]
]

pub add_found_lem : (c : Bounded) (k a b : ℕ) → find c.items k ≡ some b → (find_or_add c k a).0 ≡ c
unfolding find_or_add
add_found_lem c k a b e = rw (e, find_or_add) refl

pub add_result_lem : (c : Bounded) (k a : ℕ) → (find_or_add c k a).1 ≡ find c.items k
unfolding find_or_add
add_result_lem c k a = ground arith

pub add_new_lem :
    (c : Bounded) (k a : ℕ) → find c.items k ≡ none → find (find_or_add c k a).0.items k ≡ some a
unfolding find_or_add find
add_new_lem c k a e = ground arith

pub add_other_lem :
    (c : Bounded) (k a j : ℕ)
    → j ≢ k
    → (find (find_or_add c k a).0.items j ≡ find c.items j)
      ⊎ (find (find_or_add c k a).0.items j ≡ none)
unfolding find_or_add find
add_other_lem c k a j n = elim (Option-cases (find c.items k)) [
  | inr (b, e) ↦ inl (rw (e, find_or_add) refl)
  | inl e ↦ elim (find-newest c.size c.items j) [
    | inl f ↦ inl (ground arith)
    | inr f ↦ inr (ground arith)
  ]
]

pub find-nil : (k : ℕ) → find [] k ≡ none
unfolding find
find-nil k = refl

abbrev pub bounded : Lru
bounded = record {
  Cache = Bounded;
  new = λ n. record { size = n - 1; items = [] };
  peek = λ c k. find c.items k;
  get = λ c k. (c, find c.items k);
  peek_or_add = find_or_add;
  peek-new = λ n k. find-nil k;
  get_result = λ c k. refl;
  peek-get = λ c k j. refl;
  add_result = add_result_lem;
  add_found = add_found_lem;
  peek-add_new = add_new_lem;
  peek-add_other = add_other_lem;
}

pub ltb_asym : (x y : ℕ) → ltb x y ≡ true → ltb y x ≡ false
ltb_asym x y e = ground arith

pub ltb_cotrans : (x y z : ℕ) → ltb y x ≡ false → ltb z y ≡ false → ltb z x ≡ false
ltb_cotrans x y z e f = ground arith

abbrev pub whole : Float
whole = record {
  F = ℕ;
  lt = ltb;
  never = 100_000_000;
  is_large = λ x. ltb 99_999 x;
  of_micros = λ us. us / 1000;
  smooth = λ x us. (9 * x + us / 1000) / 10;
  to_int = λ x. x;
  lt_asym = ltb_asym;
  lt_cotrans = ltb_cotrans;
}

unfoldable pub first_byte : List ℕ → Result ℕ
first_byte [] = err (message "no data")
first_byte (c ∷ s) = ok c

abbrev pub by_round : Codec ℕ
by_round = record {
  Idx = ℕ;
  round_of = λ c. c;
  decode = first_byte;
  encode_json = λ c. ok "{}";
  encode_idx = λ c. ok "{}";
  generate_block = λ c. some (ok c);
}

abbrev pub block : ℕ → BlockWrap ℕ
block n = record {
  round = n;
  block_msg_pack = n ∷ [];
  block = some n;
  block_json_idx = "{}";
  block_json_node = "{}";
  src = "node";
  cached_at = 0;
  error = none;
}

abbrev pub no_memory : Heap ℕ
no_memory = record {
  entries = λ a. record { b = none; wait_for = none; round = 0; error = none };
  next_entry = 0;
  closed = λ ch. false;
  next_chan = 0;
}
