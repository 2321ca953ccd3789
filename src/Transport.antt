-- ===== src/Transport.antt =====
-- internal/transport/grpc.go and proto.go: the messages, the calls of a peer's methods and their
-- service. gRPC itself is a parameter: `dial` of grpc.Dial, and `invoke` of the connection's Invoke.
pub mod Codec
pub mod Connections
use sky_lock.Common.{
  ℕ, ◌-◌, ◌%◌, ◌^◌, Bool, Option, none, some, List, [], ◌∷◌, ◌++◌, map, ltb, if◌then◌else◌, Text,
  text, Map, lookup, put, Result, ok, err, ℤ, pos, negsuc,
}
use sky_lock.Raft.Log.{LogEntry}
use sky_lock.Raft.Node.{Env, Node}
use sky_lock.Raft.Vote
use sky_lock.Raft.Vote.{handle_request_vote}
use sky_lock.Raft.Entries
use sky_lock.Raft.Entries.{handle_append_entries}

pub record VoteRequest : Type 0 where
  pub term : ℕ
  pub candidate_id : Text
  pub last_log_index : ℕ
  pub last_log_term : ℕ

pub record VoteResponse : Type 0 where
  pub term : ℕ
  pub vote_granted : Bool

-- The type of an entry is an int32.
pub record Entry : Type 0 where
  pub index : ℕ
  pub term : ℕ
  pub kind : ℤ
  pub payload : List ℕ

pub record AppendEntriesRequest : Type 0 where
  pub term : ℕ
  pub leader_id : Text
  pub prev_log_index : ℕ
  pub prev_log_term : ℕ
  pub entries : List Entry
  pub leader_commit : ℕ

pub record AppendEntriesResponse : Type 0 where
  pub term : ℕ
  pub success : Bool

-- A 32-bit pattern as a number with a sign.
unfoldable pub signed32 : ℕ → ℤ
signed32 n = if ltb n (2 ^ 31) then pos n else negsuc (2 ^ 32 - 1 - n)

-- The conversion `int32(n)`.
unfoldable pub int32 : ℤ → ℤ
unfolding signed32
int32 (pos n) = signed32 (n % 2 ^ 32)
int32 (negsuc n) = signed32 (2 ^ 32 - 1 - n % 2 ^ 32)

-- A transport: its connections, of the type `C`, and the node that it serves.
pub record Transport {ℓ} (C : Type ℓ) : Type ℓ where
  pub connections : Map C
  pub raft_node : Option Node

unfoldable pub new_transport {ℓ} : {C : Type ℓ} → Transport C
new_transport = record { connections = []; raft_node = none }

unfoldable pub set_raft_node {ℓ} : {C : Type ℓ} → Node → Transport C → Transport C
set_raft_node n t = record t { raft_node = some n }

-- The connections that `Stop` closes, and the transport without them.
unfoldable pub stop {ℓ} : {C : Type ℓ} → Transport C → Transport C × List C
stop t = (record t { connections = [] }, map (λ e. e.1) t.connections)

-- A request as the caller sends it, and an answer as the caller reads it.
unfoldable pub vote_message : Vote.VoteRequest → VoteRequest
vote_message req = record {
  term = req.term;
  candidate_id = req.candidate_id;
  last_log_index = req.last_log_index;
  last_log_term = req.last_log_term;
}

unfoldable pub read_vote : VoteResponse → Vote.VoteResponse
read_vote resp = record { term = resp.term; vote_granted = resp.vote_granted }

unfoldable pub entry_message : LogEntry → Entry
unfolding int32
entry_message e = record {
  index = e.index;
  term = e.term;
  kind = int32 e.kind;
  payload = e.payload;
}

unfoldable pub append_message : Entries.AppendEntriesRequest → AppendEntriesRequest
unfolding entry_message
append_message req = record {
  term = req.term;
  leader_id = req.leader_id;
  prev_log_index = req.prev_log_index;
  prev_log_term = req.prev_log_term;
  entries = map entry_message req.entries;
  leader_commit = req.leader_commit;
}

unfoldable pub read_append : AppendEntriesResponse → Entries.AppendEntriesResponse
read_append resp = record { term = resp.term; success = resp.success }

module _ {ℓ} {C : Type ℓ} (dial : Text → Result Text C) where
  unfoldable pub get_connection : Text → Transport C → Transport C × Result Text C
  get_connection target t = elim (lookup target t.connections) [
    | some conn ↦ (t, ok conn)
    | none ↦ elim (dial target) [
      | err e ↦ (t, err (text "failed to connect to " ++ target ++ text ": " ++ e))
      | ok conn ↦ (record t { connections = put target conn t.connections }, ok conn)
    ]
  ]

  unfoldable pub request_vote :
      (C → VoteRequest → Result Text VoteResponse)
      → Text
      → Vote.VoteRequest
      → Transport C
      → Transport C × Result Text Vote.VoteResponse
  unfolding get_connection vote_message read_vote
  request_vote invoke target req t =
      let (t', conn) = get_connection target t in
      elim conn [
        | err e ↦ (t', err e)
        | ok conn ↦ elim (invoke conn (vote_message req)) [
          | err e ↦ (t', err e)
          | ok resp ↦ (t', ok (read_vote resp))
        ]
      ]

  unfoldable pub append_entries :
      (C → AppendEntriesRequest → Result Text AppendEntriesResponse)
      → Text
      → Entries.AppendEntriesRequest
      → Transport C
      → Transport C × Result Text Entries.AppendEntriesResponse
  unfolding get_connection append_message read_append
  append_entries invoke target req t =
      let (t', conn) = get_connection target t in
      elim conn [
        | err e ↦ (t', err e)
        | ok conn ↦ elim (invoke conn (append_message req)) [
          | err e ↦ (t', err e)
          | ok resp ↦ (t', ok (read_append resp))
        ]
      ]

-- The service of a call, by the node if there is one.
unfoldable pub serve_vote {ℓ} :
    {C : Type ℓ} → Env → VoteRequest → Transport C → Transport C × Result Text VoteResponse
serve_vote env m t = elim t.raft_node [
  | none ↦ (t, err (text "raft node not initialized"))
  | some n ↦
      let req : Vote.VoteRequest = record {
        term = m.term;
        candidate_id = m.candidate_id;
        last_log_index = m.last_log_index;
        last_log_term = m.last_log_term;
      } in
      let (n', resp) = handle_request_vote env req n in
      (
        record t { raft_node = some n' },
        ok (record { term = resp.term; vote_granted = resp.vote_granted }),
      )
]

unfoldable pub read_entry : Entry → LogEntry
read_entry m = record { index = m.index; term = m.term; kind = m.kind; payload = m.payload }

unfoldable pub serve_append {ℓ} :
    {C : Type ℓ}
    → Env
    → AppendEntriesRequest
    → Transport C
    → Transport C × Result Text AppendEntriesResponse
unfolding read_entry
serve_append env m t = elim t.raft_node [
  | none ↦ (t, err (text "raft node not initialized"))
  | some n ↦
      let req : Entries.AppendEntriesRequest = record {
        term = m.term;
        leader_id = m.leader_id;
        prev_log_index = m.prev_log_index;
        prev_log_term = m.prev_log_term;
        entries = map read_entry m.entries;
        leader_commit = m.leader_commit;
      } in
      let (n', resp) = handle_append_entries env req n in
      (record t { raft_node = some n' }, ok (record { term = resp.term; success = resp.success }))
]
