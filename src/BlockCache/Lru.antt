-- ===== src/BlockCache/Lru.antt =====
-- The interface of `github.com/hashicorp/golang-lru`, as far as internal/blockcache uses it. The
-- library is not part of the repository: a cache is a type with operations, and the laws are what
-- its documentation promises. Keys are rounds, and values are addresses of block entries.
use algo_vnode.Prelude.{ℕ, ◌≡◌, ◌≢◌, ◌⊎◌, Option, none, some}

pub record Lru : Type 1 where
  pub Cache : Type 0
  -- `New(size)`.
  pub new : ℕ → Cache
  -- `Peek`: the value, with no effect on the order of use.
  pub peek : Cache → ℕ → Option ℕ
  -- `Get`: the value; the key becomes the one used last.
  pub get : Cache → ℕ → Cache × Option ℕ
  -- `PeekOrAdd`: the value that is there, or none after the new one has been added. What is not
  -- found is added, and another key may have to go.
  pub peek_or_add : Cache → ℕ → ℕ → Cache × Option ℕ
  pub peek-new : (n k : ℕ) → peek (new n) k ≡ none
  pub get_result : (c : Cache) (k : ℕ) → (get c k).1 ≡ peek c k
  pub peek-get : (c : Cache) (k j : ℕ) → peek (get c k).0 j ≡ peek c j
  pub add_result : (c : Cache) (k a : ℕ) → (peek_or_add c k a).1 ≡ peek c k
  pub add_found : (c : Cache) (k a b : ℕ) → peek c k ≡ some b → (peek_or_add c k a).0 ≡ c
  pub peek-add_new : (c : Cache) (k a : ℕ) → peek c k ≡ none → peek (peek_or_add c k a).0 k ≡ some a
  pub peek-add_other :
      (c : Cache) (k a j : ℕ)
      → j ≢ k
      → (peek (peek_or_add c k a).0 j ≡ peek c j) ⊎ (peek (peek_or_add c k a).0 j ≡ none)
