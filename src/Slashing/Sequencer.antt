-- ===== src/Slashing/Sequencer.antt =====
-- `NonceSequencer` of src/staking/slashing_sequencer.ts. A request is two events, since it waits for
-- the chain in between: `begins` reserves and logs its nonce and sends it, `completes` takes the
-- reply. Replies come in any order. Spans and the dead letter queue are left out: what
-- `submitWithRetry` returns is the reply.
use veri_node_backend.Prelude.{
  ℕ, ◌+◌, ◌-◌, ◌%◌, String, Bool, true, false, Option, none, some, List, [], ◌∷◌, map, length, ◌==◌,
  if◌then◌else◌,
}
use veri_node_backend.Slashing.Wal.{
  pending, confirmed, failed, WalEntry, NonceStore, flush, append, advance_water_mark,
  get_water_mark, replay_unconfirmed, purge_confirmed,
}

abbrev pub wal_flush_interval : ℕ
wal_flush_interval = 64

pub data Reply : Type 0 where
  success : String → Reply
  failure : Reply

pub record Sequencer : Type 0 where
  pub store : NonceStore
  pub head_pointer : ℕ
  pub water_mark : ℕ
  pub wal_flush_counter : ℕ
  pub total_submitted : ℕ
  pub total_confirmed : ℕ
  pub total_failed : ℕ
  pub pending_count : ℕ
  -- the nonces of the requests that wait for their replies
  pub in_flight : List ℕ

abbrev pub is_due : ℕ → Bool
is_due counter = counter % wal_flush_interval == 0

unfoldable pub reserve_nonce : Sequencer → ℕ × Sequencer
reserve_nonce s =
    let counter = s.wal_flush_counter + 1 in
    (
      s.head_pointer,
      record s {
        head_pointer = s.head_pointer + 1;
        wal_flush_counter = counter;
        store = if is_due counter then flush s.store else s.store;
      },
    )

-- `onSlashingRequest` up to the sending.
unfoldable pub begin_request : ℕ → Sequencer → ℕ × Sequencer
unfolding reserve_nonce
begin_request now s =
    let (nonce, s1) = reserve_nonce s in
    let entry : WalEntry = record {
      nonce = nonce;
      tx_hash = "";
      timestamp = now;
      status = pending;
    } in
    (nonce, record s1 { store = append entry s1.store; in_flight = nonce ∷ s1.in_flight })

-- The entry is one object, in the buffer until it is flushed: what is assigned to it later reaches
-- the file only if it has not been flushed yet. Nonces tell the objects in the buffer apart.
abbrev pub amend : ℕ → (WalEntry → WalEntry) → NonceStore → NonceStore
amend nonce f s = record s {
  buffer = map (λ (e : WalEntry). if e.nonce == nonce then f e else e) s.buffer;
}

-- The Boolean says that no exception was thrown.
abbrev pub purged : NonceStore → Option NonceStore → Bool × NonceStore
purged old none = (false, old)
purged old (some new) = (true, new)

unfoldable pub advance : Sequencer → Bool × Sequencer
advance s =
    let mark = s.water_mark + 1 in
    if is_due s.wal_flush_counter
    then (let marked = advance_water_mark mark s.store in
        let (fine, store) = purged marked (purge_confirmed mark marked) in
        (fine, record s { water_mark = mark; store = store }))
    else (true, record s { water_mark = mark })

abbrev pub without : ℕ → List ℕ → List ℕ
without nonce [] = []
without nonce (n ∷ ns) = if n == nonce then ns else n ∷ without nonce ns

-- `onSlashingRequest` from the reply on.
unfoldable pub complete_request : ℕ → Reply → Sequencer → Bool × Sequencer
unfolding advance
complete_request nonce (success hash) s = advance (record s {
  store = amend nonce (λ e. record e { tx_hash = hash; status = confirmed }) s.store;
  total_submitted = s.total_submitted + 1;
  total_confirmed = s.total_confirmed + 1;
  pending_count = s.pending_count - 1;
  in_flight = without nonce s.in_flight;
})
complete_request nonce failure s = (
  true,
  record s {
    store = amend nonce (λ e. record e { status = failed }) s.store;
    total_submitted = s.total_submitted + 1;
    total_failed = s.total_failed + 1;
    pending_count = s.pending_count - 1;
    in_flight = without nonce s.in_flight;
  },
)

-- The fields once the constructor has begun to send `entries` again.
abbrev pub started : NonceStore → List WalEntry → Sequencer
started store entries = record {
  store = store;
  head_pointer = get_water_mark store;
  water_mark = get_water_mark store;
  wal_flush_counter = 0;
  total_submitted = length entries;
  total_confirmed = 0;
  total_failed = 0;
  pending_count = length entries;
  in_flight = [];
}

-- The constructor: `none` is the exception of the replay. The payloads that it sends again are the
-- `txHash`es of the entries.
unfoldable pub start : NonceStore → Option (Sequencer × List String)
start store = elim (replay_unconfirmed store) [
  | none ↦ none
  | some entries ↦ some (started store entries, map (λ (e : WalEntry). e.tx_hash) entries)
]

-- The end of `resubmitEntry`: the assignments to the entry are to an object that nothing keeps.
unfoldable pub resubmitted : Reply → Sequencer → Sequencer
resubmitted (success hash) s = record s {
  total_confirmed = s.total_confirmed + 1;
  pending_count = s.pending_count - 1;
}
resubmitted failure s = record s {
  total_failed = s.total_failed + 1;
  pending_count = s.pending_count - 1;
}

pub data Event : Type 0 where
  begins : ℕ → Event
  completes : ℕ → Reply → Event
  resubmits : Reply → Event

unfoldable pub step : Event → Sequencer → Sequencer
unfolding begin_request complete_request resubmitted
step (begins now) s = (begin_request now s).1
step (completes nonce reply) s = (complete_request nonce reply s).1
step (resubmits reply) s = resubmitted reply s

unfoldable pub run : List Event → Sequencer → Sequencer
unfolding step
run [] s = s
run (e ∷ es) s = run es (step e s)
