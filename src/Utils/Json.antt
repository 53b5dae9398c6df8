-- ===== src/Utils/Json.antt =====
-- LoadJSONCFromFile and EncodeJson of internal/utils/utils.go. The reading of a file and the codecs
-- are parameters.
use algo_vnode.Prelude.{ℕ, List, Option, some, GoError, message, Result, ok, err}

-- `LoadJSONCFromFile`, with what `os.ReadFile` returns: `to_json` is `jsonc.ToJSON`, and `unmarshal`
-- is `json.Unmarshal`, which may have changed the object when it fails.
unfoldable pub load_jsonc :
    {A : Type 0}
    → (List ℕ → List ℕ)
    → (List ℕ → A → A × Option GoError)
    → Result (List ℕ)
    → A
    → A × Option GoError
load_jsonc to_json unmarshal (err e) object = (object, some e)
load_jsonc to_json unmarshal (ok text) object = unmarshal (to_json text) object

-- `EncodeJson`, with what the encoder returns. The text of its error does not go into the model.
unfoldable pub encode_json : {A B : Type 0} → (A → Result B) → A → Result B
encode_json encode obj = elim (encode obj) [
  | err e ↦ err (message "failed to encode object")
  | ok output ↦ ok output
]
