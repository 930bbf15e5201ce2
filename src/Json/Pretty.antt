-- ===== src/Json/Pretty.antt =====
-- `json.dumps(value, ensure_ascii=False, indent=2, sort_keys=True)`, encoded.
use delta_protocol.Prelude.{ℕ, zero, suc, true, Option, none, [], ◌∷◌, ◌++◌, if◌then◌else◌}
use delta_protocol.Text.{Text, Bytes}
use delta_protocol.Utf8.{encode}
use delta_protocol.Json.Values.{Value, Items, Fields, arr, obj, no_items, item, no_fields, field}
use delta_protocol.Json.Dump.{dump, quote}
use delta_protocol.Json.Sort.{sort_keys}
use delta_protocol.Json.Bytes.{serializable}

-- A new line, with two spaces for each level.
unfoldable pub indent : ℕ → Text
indent n = 10 ∷ spaces n
  where
    spaces : ℕ → Text
    spaces zero = []
    spaces (suc m) = 32 ∷ 32 ∷ spaces m

-- The items and the fields behind the first one are written with a comma before them.
unfoldable mutual
  pub pretty : ℕ → Value → Text
  pretty n (arr no_items) = 91 ∷ 93 ∷ []
  pretty n (arr (item v xs)) =
      91
      ∷ (indent (suc n) ++ (pretty (suc n) v ++ (pretty_items (suc n) xs ++ (indent n ++ 93 ∷ []))))
  pretty n (obj no_fields) = 123 ∷ 125 ∷ []
  pretty n (obj (field k v fs)) =
      123
      ∷ (indent (suc n)
          ++ (quote k
              ++ (58
                  ∷ 32
                  ∷ (pretty (suc n) v ++ (pretty_fields (suc n) fs ++ (indent n ++ 125 ∷ []))))))
  pretty n v = dump v

  pretty_items : ℕ → Items → Text
  pretty_items n no_items = []
  pretty_items n (item v xs) = 44 ∷ (indent n ++ (pretty n v ++ pretty_items n xs))

  pretty_fields : ℕ → Fields → Text
  pretty_fields n no_fields = []
  pretty_fields n (field k v fs) =
      44 ∷ (indent n ++ (quote k ++ (58 ∷ 32 ∷ (pretty n v ++ pretty_fields n fs))))

-- `none` is an exception of `json.dumps` or of `str.encode`. A newline follows the text.
unfoldable pub pretty_bytes : Value → Option Bytes
pretty_bytes v = if serializable true v then encode (pretty 0 (sort_keys v) ++ 10 ∷ []) else none
