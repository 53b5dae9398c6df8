-- ===== src/Utils/Deltas/Order.antt =====
-- State deltas do not depend on the order in which the entries of a map are met.
use algo_vnode.Prelude.{
  ℕ, ◌≡◌, ◌≢◌, refl, sym, ◌∙◌, ap, Bool, true, false, Bool-cases, List, [], ◌∷◌, Text, arith, ◌↔◌,
  if◌then◌else◌, bytes_lt, insert_stable, sort_stable, All, inl, inr,
}
use algo_vnode.Utils.Deltas.{get_entry, keys_of}

-- The same entries in another order.
pub data Reordered {A : Type 0} : List A → List A → Type 0 where
  same : Reordered [] []
  kept : {x : A} {xs ys : List A} → Reordered xs ys → Reordered (x ∷ xs) (x ∷ ys)
  swapped : {x y : A} {xs : List A} → Reordered (x ∷ y ∷ xs) (y ∷ x ∷ xs)
  reordered : {xs ys zs : List A} → Reordered xs ys → Reordered ys zs → Reordered xs zs

-- A strict order in which any two different elements are comparable.
pub record IsTotal {A : Type 0} (less : A → A → Bool) : Type 0 where
  pub asym : (x y : A) → less x y ≡ true → less y x ≡ false
  pub trans : (x y z : A) → less x y ≡ true → less y z ≡ true → less x z ≡ true
  pub connex : (x y : A) → less x y ≡ false → less y x ≡ false → x ≡ y

module _ {A : Type 0} (less : A → A → Bool) (total : IsTotal less) where
  insert_comm :
      (x y : A) (l : List A)
      → insert_stable less x (insert_stable less y l)
        ≡ insert_stable less y (insert_stable less x l)
  unfolding insert_stable
  insert_comm x y [] = ground (arith, total.asym x y, total.connex x y)
  insert_comm x y (z ∷ l) = ground (
    arith,
    insert_comm x y l,
    total.asym x y,
    total.connex x y,
    total.asym z x,
    total.asym z y,
    total.connex z x,
    total.connex z y,
    total.trans z x y,
    total.trans z y x,
    total.trans x z y,
    total.trans y z x,
    total.trans x y z,
    total.trans y x z,
  )

  pub sort_stable-Reordered :
      {xs ys : List A} → Reordered xs ys → sort_stable less xs ≡ sort_stable less ys
  unfolding sort_stable
  sort_stable-Reordered same = refl
  sort_stable-Reordered (kept {x} r) = ap (insert_stable less x) (sort_stable-Reordered r)
  sort_stable-Reordered (swapped {x} {y} {xs}) = insert_comm x y (sort_stable less xs)
  sort_stable-Reordered (reordered r s) = sort_stable-Reordered r ∙ sort_stable-Reordered s

bytes_lt_asym : (x y : Text) → bytes_lt x y ≡ true → bytes_lt y x ≡ false
unfolding bytes_lt
bytes_lt_asym [] [] h = refl
bytes_lt_asym [] (b ∷ y) h = refl
bytes_lt_asym (a ∷ x) [] h = absurd (ground arith)
bytes_lt_asym (a ∷ x) (b ∷ y) h = ground (arith, bytes_lt_asym x y)

bytes_lt_trans : (x y z : Text) → bytes_lt x y ≡ true → bytes_lt y z ≡ true → bytes_lt x z ≡ true
unfolding bytes_lt
bytes_lt_trans [] [] z h k = k
bytes_lt_trans [] (b ∷ y) [] h k = k
bytes_lt_trans [] (b ∷ y) (c ∷ z) h k = refl
bytes_lt_trans (a ∷ x) [] z h k = absurd (ground arith)
bytes_lt_trans (a ∷ x) (b ∷ y) [] h k = absurd (ground arith)
bytes_lt_trans (a ∷ x) (b ∷ y) (c ∷ z) h k = ground (arith, bytes_lt_trans x y z)

cons-eq : {a b : ℕ} {x y : Text} → a ≡ b → x ≡ y → a ∷ x ≡ b ∷ y
cons-eq p q = cc

bytes_lt_connex : (x y : Text) → bytes_lt x y ≡ false → bytes_lt y x ≡ false → x ≡ y
unfolding bytes_lt
bytes_lt_connex [] [] h k = refl
bytes_lt_connex [] (b ∷ y) h k = absurd (ground arith)
bytes_lt_connex (a ∷ x) [] h k = absurd (ground arith)
bytes_lt_connex (a ∷ x) (b ∷ y) h k =
    cons-eq (ground arith) (bytes_lt_connex x y (ground arith) (ground arith))

pub bytes_lt-IsTotal : IsTotal bytes_lt
bytes_lt-IsTotal = record { asym = bytes_lt_asym; trans = bytes_lt_trans; connex = bytes_lt_connex }

-- No key has two entries.
abbrev pub DistinctKeys : {K V : Type 0} → List (K × V) → Type 0
DistinctKeys [] = Unit
DistinctKeys ((k, v) ∷ d) = All (λ j. j ≢ k) (keys_of d) × DistinctKeys d

pub All-Reordered :
    {A : Type 0} (P : A → Type 0) {xs ys : List A} → Reordered xs ys → All P xs → All P ys
All-Reordered P same h = h
All-Reordered P (kept r) h = (h.0, All-Reordered P r h.1)
All-Reordered P swapped h = (h.1.0, (h.0, h.1.1))
All-Reordered P (reordered r s) h = All-Reordered P s (All-Reordered P r h)

module _ {K V : Type 0} where
  pub keys_of-Reordered :
      {d d' : List (K × V)} → Reordered d d' → Reordered (keys_of d) (keys_of d')
  keys_of-Reordered same = same
  keys_of-Reordered (kept r) = kept (keys_of-Reordered r)
  keys_of-Reordered swapped = swapped
  keys_of-Reordered (reordered r s) = reordered (keys_of-Reordered r) (keys_of-Reordered s)

  DistinctKeys-Reordered : {d d' : List (K × V)} → Reordered d d' → DistinctKeys d → DistinctKeys d'
  DistinctKeys-Reordered same h = h
  DistinctKeys-Reordered (kept {x} r) h =
      (All-Reordered (λ j. j ≢ x.0) (keys_of-Reordered r) h.0, DistinctKeys-Reordered r h.1)
  DistinctKeys-Reordered (swapped {x} {y}) h = (((λ e. h.0.0 (sym e)), h.1.0), (h.0.1, h.1.1))
  DistinctKeys-Reordered (reordered r s) h = DistinctKeys-Reordered s (DistinctKeys-Reordered r h)

  module _ (test : K → K → Bool) (test_iff : (j k : K) → (test j k ≡ true) ↔ (j ≡ k))
      (zero_value : V) where
    pub get_entry-Reordered :
        {d d' : List (K × V)} (k : K)
        → Reordered d d'
        → DistinctKeys d
        → get_entry test zero_value d k ≡ get_entry test zero_value d' k
    unfolding get_entry
    get_entry-Reordered k same h = refl
    get_entry-Reordered k (kept {x} r) h =
        ap (λ (v : V). if test x.0 k then x.1 else v) (get_entry-Reordered k r h.1)
    get_entry-Reordered k (swapped {x} {y} {xs}) h = elim (Bool-cases (test x.0 k)) [
      | inr e ↦ rw e refl
      | inl e ↦ elim (Bool-cases (test y.0 k)) [
        | inr f ↦ rw (e, f) refl
        | inl f ↦ absurd (h.0.0 ((test_iff y.0 k).0 f ∙ sym ((test_iff x.0 k).0 e)))
      ]
    ]
    get_entry-Reordered k (reordered r s) h =
        get_entry-Reordered k r h ∙ get_entry-Reordered k s (DistinctKeys-Reordered r h)
