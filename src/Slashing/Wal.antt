-- ===== src/Slashing/Wal.antt =====
-- `NonceStore` of src/database/nonce_store.ts. A line of the log holds the entries written on it with
-- no line break between; `JSON.parse` takes a line of one entry and throws at any other. A nonce's
-- decimal text stands as the number.
use veri_node_backend.Prelude.{
  ℕ, String, Bool, true, false, not, ◌&&◌, Option, none, some, List, [], ◌∷◌, ◌++◌, length, ltb,
  leb, keep, if◌then◌else◌,
}

pub data WalStatus : Type 0 where
  pending confirmed failed : WalStatus

abbrev pub is_pending : WalStatus → Bool
is_pending pending = true
is_pending _ = false

abbrev pub is_confirmed : WalStatus → Bool
is_confirmed confirmed = true
is_confirmed _ = false

pub record WalEntry : Type 0 where
  pub nonce : ℕ
  pub tx_hash : String
  pub timestamp : ℕ
  pub status : WalStatus

-- The log file: its lines, and whether the last one has its line break.
pub record Wal : Type 0 where
  pub lines : List (List WalEntry)
  pub terminated : Bool

pub record NonceStore : Type 0 where
  pub wal : Option Wal
  pub water_mark : Option ℕ
  pub buffer : List WalEntry
  pub flush_threshold : ℕ

-- Writing one entry at the end of the file.
unfoldable pub add_entry : WalEntry → List (List WalEntry) → Bool → List (List WalEntry)
add_entry e [] terminated = (e ∷ []) ∷ []
add_entry e (l ∷ []) terminated = if terminated then l ∷ (e ∷ []) ∷ [] else (l ++ (e ∷ [])) ∷ []
add_entry e (l ∷ m ∷ ls) terminated = l ∷ add_entry e (m ∷ ls) terminated

abbrev pub lines_of : Option Wal → List (List WalEntry)
lines_of none = []
lines_of (some wal) = wal.lines

abbrev pub terminated_of : Option Wal → Bool
terminated_of none = true
terminated_of (some wal) = wal.terminated

-- `appendFileSync(walPath, JSON.stringify(entry) + '\n')`
unfoldable pub append_file : WalEntry → Option Wal → Option Wal
append_file e wal =
    some (record { lines = add_entry e (lines_of wal) (terminated_of wal); terminated = true })

unfoldable pub append_all : List WalEntry → Option Wal → Option Wal
unfolding append_file
append_all [] wal = wal
append_all (e ∷ es) wal = append_all es (append_file e wal)

unfoldable pub flush : NonceStore → NonceStore
unfolding append_all
flush s = record s { wal = append_all s.buffer s.wal; buffer = [] }

unfoldable pub append : WalEntry → NonceStore → NonceStore
unfolding flush
append e s =
    let s' = record s { buffer = s.buffer ++ (e ∷ []) } in
    if leb s'.flush_threshold (length s'.buffer) then flush s' else s'

unfoldable pub advance_water_mark : ℕ → NonceStore → NonceStore
advance_water_mark nonce s = record s { water_mark = some nonce }

-- A missing or unreadable file counts as 0.
unfoldable pub get_water_mark : NonceStore → ℕ
get_water_mark s = elim s.water_mark [ none ↦ 0 | some nonce ↦ nonce ]

-- `lines.map(JSON.parse)`: `none` is its exception.
unfoldable pub parse_lines : List (List WalEntry) → Option (List WalEntry)
parse_lines [] = some []
parse_lines ((e ∷ []) ∷ ls) = elim (parse_lines ls) [ none ↦ none | some es ↦ some (e ∷ es) ]
parse_lines (l ∷ ls) = none

unfoldable pub replay_unconfirmed : NonceStore → Option (List WalEntry)
unfolding parse_lines
replay_unconfirmed s = elim (parse_lines (lines_of s.wal)) [
  | none ↦ none
  | some es ↦ some (keep (λ (e : WalEntry). is_pending e.status) es)
]

-- `e.status !== 'confirmed' && BigInt(e.nonce) > upTo`
abbrev pub outlives : ℕ → WalEntry → Bool
outlives up_to e = not (is_confirmed e.status) && ltb up_to e.nonce

unfoldable pub one_per_line : List WalEntry → List (List WalEntry)
one_per_line [] = []
one_per_line (e ∷ es) = (e ∷ []) ∷ one_per_line es

-- The lines are joined by line breaks, so the last one has none.
unfoldable pub purge_confirmed : ℕ → NonceStore → Option NonceStore
unfolding parse_lines one_per_line
purge_confirmed up_to s = elim s.wal [
  | none ↦ some s
  | some wal ↦ elim (parse_lines wal.lines) [
    | none ↦ none
    | some es ↦ some (record s {
      wal = some (record { lines = one_per_line (keep (outlives up_to) es); terminated = false });
    })
  ]
]
