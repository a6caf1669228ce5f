-- ===== src/Dlq/Table.antt =====
-- `PgDeadLetterRepository` of src/queue/dead_letter_queue.ts: each statement as a function of the table
-- and of NOW(). Times are milliseconds; messages are their JSON text.
use veri_node_backend.Prelude.{
  ℕ, zero, suc, String, str_eq, Bool, true, false, not, ◌&&◌, ◌||◌, Option, none, some, [], ◌∷◌,
  length, keep, take, leb, ltb, if◌then◌else◌, ◌+◌, min, max,
}
use veri_node_backend.Prelude.Int.{ℤ, pos, negsuc}
use veri_node_backend.Dict.{Dict, get, set, remove}

-- What JavaScript throws: an `Error`, or another value with its `typeof` and its text.
pub data Thrown : Type 0 where
  an_error : String → String → Option String → Thrown
  a_value : String → String → Thrown

pub record Serialized : Type 0 where
  pub error_type : String
  pub message : String
  pub stack_trace : Option String

-- `name || 'Error'`
abbrev pub or_error : String → String
or_error name = if str_eq name "" then "Error" else name

unfoldable pub serialize_error : Thrown → Serialized
serialize_error (an_error name message stack) = record {
  error_type = or_error name;
  message = message;
  stack_trace = stack;
}
serialize_error (a_value kind text) = record {
  error_type = kind;
  message = text;
  stack_trace = none;
}

pub data DeadLetterStatus : Type 0 where
  failed retrying : DeadLetterStatus

pub record DeadLetter : Type 0 where
  pub message_type : String
  pub original_message : String
  pub error : Serialized
  pub retry_count : ℕ
  pub status : DeadLetterStatus
  pub created_at : ℕ
  pub updated_at : ℕ
  pub expires_at : ℕ

abbrev pub seven_days : ℕ
seven_days = 604800000

abbrev pub DeadLetters : Type 0
DeadLetters = Dict DeadLetter

unfoldable pub dead_letter : String → String → Thrown → ℕ → ℕ → DeadLetter
unfolding serialize_error
dead_letter message_type message error retry_count now = record {
  message_type = message_type;
  original_message = message;
  error = serialize_error error;
  retry_count = retry_count;
  status = failed;
  created_at = now;
  updated_at = now;
  expires_at = now + seven_days;
}

-- The id is the one that the database draws.
unfoldable pub insert : String → DeadLetter → DeadLetters → DeadLetters
insert id entry d = set d id entry

abbrev pub is_unexpired : ℕ → DeadLetter → Bool
is_unexpired now e = ltb now e.expires_at

abbrev pub if_unexpired : ℕ → Option DeadLetter → Option DeadLetter
if_unexpired now none = none
if_unexpired now (some e) = if is_unexpired now e then some e else none

unfoldable pub get_entry : String → ℕ → DeadLetters → Option DeadLetter
get_entry id now d = if_unexpired now (get d id)

abbrev pub put_updated :
    Option DeadLetter → String → (DeadLetter → DeadLetter) → DeadLetters → DeadLetters
put_updated none id f d = d
put_updated (some e) id f d = set d id (f e)

-- `UPDATE … SET f WHERE id = …`
unfoldable pub update_entry : String → (DeadLetter → DeadLetter) → DeadLetters → DeadLetters
update_entry id f d = put_updated (get d id) id f d

unfoldable pub mark_retrying : String → ℕ → DeadLetters → DeadLetters
unfolding update_entry
mark_retrying id now d = update_entry id (λ e. record e { status = retrying; updated_at = now }) d

unfoldable pub mark_failed : String → Thrown → ℕ → ℕ → DeadLetters → DeadLetters
unfolding update_entry serialize_error
mark_failed id error retry_count now d =
    update_entry id
      (λ e. record e {
        status = failed;
        error = serialize_error error;
        retry_count = retry_count;
        updated_at = now;
      })
      d

abbrev pub is_there : Option DeadLetter → Bool
is_there none = false
is_there (some e) = true

unfoldable pub delete : String → DeadLetters → Bool × DeadLetters
delete id d = (is_there (get d id), remove d id)

unfoldable pub purge_expired : ℕ → DeadLetters → ℕ × DeadLetters
purge_expired now d =
    (length (keep (λ x. leb x.1.expires_at now) d), keep (λ x. not (leb x.1.expires_at now)) d)

unfoldable pub depth : ℕ → DeadLetters → ℕ
depth now d = length (keep (λ x. is_unexpired now x.1) d)

-- `clampInt` at a whole number.
abbrev pub clamp_int : ℤ → ℕ → ℕ → ℕ
clamp_int (pos n) low high = min high (max low n)
clamp_int (negsuc n) low high = min high low

-- `Math.max(0, Math.trunc(offset))`
abbrev pub clamp_offset : ℤ → ℕ
clamp_offset (pos n) = n
clamp_offset (negsuc n) = 0

-- `if (params.messageType)`: an empty type is no filter.
abbrev pub is_listed : Option String → ℕ → DeadLetter → Bool
is_listed none now e = is_unexpired now e
is_listed (some t) now e = is_unexpired now e && (str_eq t "" || str_eq e.message_type t)

-- `ORDER BY created_at DESC`
unfoldable pub insert_newest : String × DeadLetter → DeadLetters → DeadLetters
insert_newest x [] = x ∷ []
insert_newest x (y ∷ d) =
    let rest = insert_newest x d in
    if ltb x.1.created_at y.1.created_at then y ∷ rest else x ∷ y ∷ d

unfoldable pub newest_first : DeadLetters → DeadLetters
unfolding insert_newest
newest_first [] = []
newest_first (x ∷ d) = insert_newest x (newest_first d)

abbrev pub drop : ℕ → DeadLetters → DeadLetters
drop zero d = d
drop (suc n) [] = []
drop (suc n) (x ∷ d) = drop n d

unfoldable pub list_entries : Option String → ℤ → ℤ → ℕ → DeadLetters → DeadLetters
unfolding newest_first
list_entries message_type limit offset now d =
    take (clamp_int limit 1 500)
      (drop (clamp_offset offset) (newest_first (keep (λ x. is_listed message_type now x.1) d)))
