-- ===== src/Utils/Pointers.antt =====
-- internal/utils/pointers.go, and `PrintableUTF8OrEmpty` of internal/utils/utils.go. A pointer to a
-- value is an option: what it points to is made there and never written again.
use algo_vnode.Prelude.{
  ℕ, ◌≡◌, refl, ◌⊎◌, inl, inr, Bool, Bool-cases, true, false, not, ◌||◌, List, [], ◌∷◌, Option,
  none, some, Text, arith, ◌==◌, if◌then◌else◌, All,
}

unfoldable pub uint_or_default : Option ℕ → ℕ
uint_or_default none = 0
uint_or_default (some x) = x

unfoldable pub uint_or_default_value : Option ℕ → ℕ → ℕ
uint_or_default_value none value = value
uint_or_default_value (some x) value = x

unfoldable pub str_or_default : Option Text → Text
str_or_default none = []
str_or_default (some s) = s

unfoldable pub bool_or_default : Option Bool → Bool
bool_or_default none = false
bool_or_default (some b) = b

unfoldable pub uint64_ptr : ℕ → Option ℕ
uint64_ptr x = some x

unfoldable pub uint64_ptr_or_nil : ℕ → Option ℕ
uint64_ptr_or_nil x = if x == 0 then none else some x

unfoldable pub byte_slice_ptr : List ℕ → Option (List ℕ)
byte_slice_ptr [] = none
byte_slice_ptr (c ∷ x) = some (c ∷ x)

-- The loop of `byteSliceOmitZeroPtr` over the rest of the slice `whole`.
unfoldable pub omit_zero_loop : List ℕ → List ℕ → Option (List ℕ)
omit_zero_loop whole [] = none
omit_zero_loop whole (v ∷ x) = if not (v == 0) then some whole else omit_zero_loop whole x

unfoldable pub byte_slice_omit_zero_ptr : List ℕ → Option (List ℕ)
unfolding omit_zero_loop
byte_slice_omit_zero_ptr x = omit_zero_loop x x

unfoldable pub str_ptr : Text → Option Text
str_ptr [] = none
str_ptr (c ∷ x) = some (c ∷ x)

unfoldable pub bool_ptr : Bool → Option Bool
bool_ptr x = some x

unfoldable pub str_array_ptr : List Text → Option (List Text)
str_array_ptr [] = none
str_array_ptr (s ∷ x) = some (s ∷ x)

-- The loop of `PrintableUTF8OrEmpty` over the runes of the text; `is_print` is `unicode.IsPrint`.
unfoldable pub all_printable : (ℕ → Bool) → List ℕ → Bool
all_printable is_print [] = true
all_printable is_print (c ∷ s) =
    if c == 0xfffd || not (is_print c) then false else all_printable is_print s

-- `PrintableUTF8OrEmpty`; `runes` are the code points that Go decodes from the text.
unfoldable pub printable_utf8_or_empty : (Text → List ℕ) → (ℕ → Bool) → Text → Text
unfolding all_printable
printable_utf8_or_empty runes is_print text =
    if all_printable is_print (runes text) then text else []

str_or_default-str_ptr : (s : Text) → str_or_default (str_ptr s) ≡ s
unfolding str_or_default str_ptr
str_or_default-str_ptr [] = refl
str_or_default-str_ptr (c ∷ s) = refl

-- What is read back from a pointer is what was put in, for a number and for a text; a zero or an
-- empty text that became nil is read back as itself.
pub or_default-ptr :
    (x : ℕ) (s : Text)
    → (uint_or_default (uint64_ptr_or_nil x) ≡ x)
      × (uint_or_default (uint64_ptr x) ≡ x)
      × (str_or_default (str_ptr s) ≡ s)
unfolding uint_or_default uint64_ptr_or_nil uint64_ptr str_or_default str_ptr
or_default-ptr x s = (ground arith, refl, str_or_default-str_ptr s)

omit_zero_loop-cases :
    (whole x : List ℕ)
    → (All (λ v. v ≡ 0) x × (omit_zero_loop whole x ≡ none))
      ⊎ ((¬ All (λ v. v ≡ 0) x) × (omit_zero_loop whole x ≡ some whole))
unfolding omit_zero_loop
omit_zero_loop-cases whole [] = inl (tt, refl)
omit_zero_loop-cases whole (v ∷ x) = elim (Bool-cases (v == 0)) [
  | inr e ↦ rw e (inr (λ a. ground arith, refl))
  | inl e ↦ elim (omit_zero_loop-cases whole x) [
    | inl (a, p) ↦ rw e (inl ((ground arith, a), p))
    | inr (a, p) ↦ rw e (inr (λ b. a b.1, p))
  ]
]

-- A slice is omitted exactly if all its bytes are zero, and is kept whole otherwise.
pub byte_slice_omit_zero_ptr-cases :
    (x : List ℕ)
    → (All (λ v. v ≡ 0) x × (byte_slice_omit_zero_ptr x ≡ none))
      ⊎ ((¬ All (λ v. v ≡ 0) x) × (byte_slice_omit_zero_ptr x ≡ some x))
unfolding byte_slice_omit_zero_ptr
byte_slice_omit_zero_ptr-cases x = omit_zero_loop-cases x x
