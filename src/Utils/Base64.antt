-- ===== src/Utils/Base64.antt =====
-- `base64.StdEncoding.EncodeToString` of Go's library, which internal/utils calls.
use algo_vnode.Prelude.{ℕ, ◌+◌, ◌-◌, ◌*◌, ◌/◌, ◌%◌, List, [], ◌∷◌, Text, ltb, ◌==◌, if◌then◌else◌}

-- The character for six bits.
unfoldable pub base64_char : ℕ → ℕ
base64_char n =
    if ltb n 26
    then n + b'A'
    else (if ltb n 52
        then n - 26 + b'a'
        else (if ltb n 62 then n - 52 + b'0' else (if n == 62 then b'+' else b'/')))

unfoldable pub base64_encode : List ℕ → Text
unfolding base64_char
base64_encode [] = []
base64_encode (a ∷ []) = base64_char (a / 4) ∷ base64_char (a % 4 * 16) ∷ b'=' ∷ b'=' ∷ []
base64_encode (a ∷ b ∷ []) =
    base64_char (a / 4) ∷ base64_char (a % 4 * 16 + b / 16) ∷ base64_char (b % 16 * 4) ∷ b'=' ∷ []
base64_encode (a ∷ b ∷ c ∷ rest) =
    base64_char (a / 4)
    ∷ base64_char (a % 4 * 16 + b / 16)
    ∷ base64_char (b % 16 * 4 + c / 64)
    ∷ base64_char (c % 64)
    ∷ base64_encode rest
