-- ===== src/Raft/Cluster/Steps.antt =====
-- internal/raft/node.go: what can happen in a cluster, one event at a time.
use mathlib.Core.List.{Mem}
use sky_lock.Common.{
  ℕ, Bool, ◌+◌, ◌^◌, ◌<◌, ◌≡◌, ◌≢◌, Option, none, some, List, [], ◌∷◌, ◌++◌, Text,
}
use sky_lock.Raft.Log.{LogEntry}
use sky_lock.Raft.Node.{Env, Node, follower_timeout, propose}
use sky_lock.Raft.Vote.{VoteRequest, VoteResponse}
use sky_lock.Raft.Entries.{AppendEntriesRequest, AppendEntriesResponse}
use sky_lock.Raft.Heartbeat.{on_append_response}
use sky_lock.Raft.Commit.{on_commit_signal}
use sky_lock.Raft.Apply.{apply_round}
use sky_lock.Raft.Election.{on_vote_response}
use sky_lock.Raft.Cluster.{
  Running, Reply, Cluster, open_candidacy, begin, vote, accept, answer, conclude, change,
  VoteInTime, AppendInTime,
}

-- What a node does by itself, with a client's command, with an answer to a heartbeat, or with an
-- answer to a vote request that comes after its election.
pub data Change (n : Node) : Node → Type 0 where
  timeout : Change n (follower_timeout n)
  command : (payload : List ℕ) → Change n (propose payload n).0
  signal : Change n (on_commit_signal n)
  apply : (registered : Bool) → Change n (record n { state = (apply_round registered n.state).1 })
  heartbeat_answer :
      (env : Env) (term : ℕ) (peer : Text) (entries : List LogEntry)
      (resp : Option AppendEntriesResponse)
      → AppendInTime term resp n
      → Change n (on_append_response env term peer entries resp n)
  late_answer :
      (env : Env) (term : ℕ) (resp : Option VoteResponse)
      → VoteInTime term resp n
      → Change n (on_vote_response env term resp (n, 0)).0

-- An answer that grants a vote is one that the peer has sent, to the candidate's request of the term.
pub data FromPeer (replies : List Reply) (candidate : Text) (term : ℕ) (p : Text)
    : Option VoteResponse → Type 0 where
  lost : FromPeer replies candidate term p none
  sent :
      (req : VoteRequest) (resp : VoteResponse)
      → Mem (record { voter = p; req = req; resp = resp }) replies
      → req.candidate_id ≡ candidate
      → req.term ≡ term
      → FromPeer replies candidate term p (some resp)

-- The events, each of which runs whole. A vote request names its candidate, it is not of a term in which
-- the voter has accepted an append request, and it does not come while the voter has become a candidate
-- and has not yet voted for itself; a term stays below 2^64; an answer of a later term is in time.
pub data Step (members : List Text) (c : Cluster) : Cluster → Type 0 where
  open_step :
      (v : Text)
      → Mem v members
      → (c.node v).state.current_term + 1 < 2 ^ 64
      → Step members c (open_candidacy v c)
  begin_step :
      (env : Env) (v : Text) (term : ℕ)
      → Mem v members
      → c.opening v ≡ some term
      → Step members c (begin env v term c)
  vote_step :
      (env : Env) (v : Text) (req : VoteRequest)
      → req.candidate_id ≢ []
      → c.heard v ≢ req.term
      → c.opening v ≡ none
      → Step members c (vote env v req c)
  append_step :
      (env : Env) (v : Text) (req : AppendEntriesRequest) → Step members c (accept env v req c)
  answer_step :
      (env : Env) (v : Text) (r : Running) (before after : List Text) (p : Text)
      (resp : Option VoteResponse)
      → c.running v ≡ some r
      → r.pending ≡ before ++ p ∷ after
      → FromPeer c.replies v r.term (c.owner p) resp
      → VoteInTime r.term resp (c.node v)
      → Step members c (answer env v r p (before ++ after) resp c)
  conclude_step :
      (env : Env) (v : Text) (r : Running)
      → c.running v ≡ some r
      → Step members c (conclude env v r c)
  change_step : (v : Text) (n : Node) → Change (c.node v) n → Step members c (change v n c)

pub data Reachable (members : List Text) (start : Cluster) : Cluster → Type 0 where
  here : Reachable members start start
  next : {c d : Cluster} → Reachable members start c → Step members c d → Reachable members start d
