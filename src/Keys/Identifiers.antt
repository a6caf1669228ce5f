-- ===== src/Keys/Identifiers.antt =====
-- Identifiers and protocol numbers. A JavaScript number is `some n` when it is a whole number from 0
-- on, and `none` when it is negative, fractional or NaN.
use veri_node_backend.Prelude.{
  if◌then◌else◌, ℕ, String, Bool, true, false, ◌&&◌, ◌||◌, Option, none, some, leb, ◌==◌,
}
use Prim.Native.Char.{code}

-- What `trim` takes off.
unfoldable pub is_space : ℕ → Bool
is_space c =
    (leb 9 c && leb c 13)
    || c == 32
    || c == 160
    || c == 5760
    || (leb 8192 c && leb c 8202)
    || c == 8232
    || c == 8233
    || c == 8239
    || c == 8287
    || c == 12288
    || c == 65279

-- `value.trim().length === 0`
unfoldable pub is_blank : String → Bool
unfolding is_space
is_blank String.[] = true
is_blank (String.◌∷◌ c s) = is_space (code c) && is_blank s

-- `value === ''`
unfoldable pub is_empty : String → Bool
is_empty String.[] = true
is_empty (String.◌∷◌ c s) = false

abbrev pub Number : Type 0
Number = Option ℕ

abbrev pub max_safe_integer : ℕ
max_safe_integer = 9007199254740991

-- `Number.isSafeInteger(value) && value >= 0`, and the value.
unfoldable pub protocol_number : Number → Option ℕ
protocol_number none = none
protocol_number (some n) = if leb n max_safe_integer then some n else none
