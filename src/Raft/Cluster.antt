-- ===== src/Raft/Cluster.antt =====
-- internal/raft/node.go: the nodes of a cluster, which ask each other for votes. The nodes take turns
-- in any order, and a request or an answer may come at any time, any number of times, or never.
pub mod Weights
pub mod Steps
pub mod Keeping
pub mod Following
pub mod Honest
pub mod Ballots
pub mod Counting
pub mod Tally
pub mod ElectionSafety
pub mod Overlap
use sky_lock.Common.{
  ℕ, ◌+◌, ◌^◌, ◌≤◌, ◌<◌, ◌≡◌, ◌≢◌, ◌⊎◌, Bool, true, false, ◌&&◌, ◌||◌, Option, none, some, List, [],
  ◌∷◌, ◌++◌, Text, str_eq, ltb, leb, ◌==◌, if◌then◌else◌,
}
use sky_lock.Raft.State.{State}
use sky_lock.Raft.Node.{RaftConfig, Env, Node, new_node, follower_timeout, propose}
use sky_lock.Raft.Vote.{VoteRequest, VoteResponse, handle_request_vote}
use sky_lock.Raft.Entries.{AppendEntriesRequest, AppendEntriesResponse, handle_append_entries}
use sky_lock.Raft.Heartbeat.{on_append_response}
use sky_lock.Raft.Commit.{on_commit_signal}
use sky_lock.Raft.Apply.{apply_round}
use sky_lock.Raft.Log.{LogEntry}
use sky_lock.Raft.Election.{
  votes_needed, open_election, vote_for_self, on_vote_response, conclude_election,
}

-- The variables of a call of `runCandidate`: the addresses of the peers whose goroutine has not handled
-- an answer are pending. `grantors` are those whose vote is counted, the candidate among them.
pub record Running : Type 0 where
  pub term : ℕ
  pub votes : ℕ
  pub pending : List Text
  pub grantors : List Text

-- A vote that a node has given, itself or by its answer.
pub record Ballot : Type 0 where
  pub voter : Text
  pub candidate : Text
  pub term : ℕ

pub record Reply : Type 0 where
  pub voter : Text
  pub req : VoteRequest
  pub resp : VoteResponse

-- A candidate that has seen enough votes, and the term of its election.
pub record Win : Type 0 where
  pub winner : Text
  pub term : ℕ

-- The nodes by identifier, and the identifier of the node that listens at each address: `peers` are
-- addresses. Each node comes with the term of the last append request that it accepted (0 before the
-- first), the term of the election that it has opened by `BecomeCandidate` while it has not yet voted
-- for itself, and the election that it runs. Then the answers to vote requests; and what has happened:
-- the votes given and the elections won.
pub record Cluster : Type 0 where
  pub node : Text → Node
  pub owner : Text → Text
  pub heard : Text → ℕ
  pub opening : Text → Option ℕ
  pub running : Text → Option Running
  pub replies : List Reply
  pub ballots : List Ballot
  pub won : List Win

abbrev pub assign {ℓ} : {A : Type ℓ} → Text → A → (Text → A) → Text → A
assign v a f x = if str_eq v x then a else f x

-- The cluster at its start, of nodes with the given peers.
abbrev pub new_cluster : (Text → Text) → (Text → List Text) → RaftConfig → Cluster
new_cluster owner peers_of config = record {
  node = λ v. new_node v (peers_of v) config;
  owner = owner;
  heard = λ _. 0;
  opening = λ _. none;
  running = λ _. none;
  replies = [];
  ballots = [];
  won = [];
}

unfoldable pub open_candidacy : Text → Cluster → Cluster
open_candidacy v c =
    let (n, term) = open_election (c.node v) in
    record c { node = assign v n c.node; opening = assign v (some term) c.opening }

-- The candidate votes for itself, and the peers are asked.
unfoldable pub begin : Env → Text → ℕ → Cluster → Cluster
begin env v term c =
    let n = vote_for_self env (c.node v) in
    record c {
      node = assign v n c.node;
      opening = assign v none c.opening;
      running =
          assign v (some (record { term = term; votes = 1; pending = n.peers; grantors = v ∷ [] }))
            c.running;
      ballots = record { voter = v; candidate = n.id; term = term } ∷ c.ballots;
    }

unfoldable pub vote : Env → Text → VoteRequest → Cluster → Cluster
vote env v req c =
    let (n, resp) = handle_request_vote env req (c.node v) in
    record c {
      node = assign v n c.node;
      replies = record { voter = v; req = req; resp = resp } ∷ c.replies;
      ballots =
          if resp.vote_granted
          then record { voter = v; candidate = req.candidate_id; term = req.term } ∷ c.ballots
          else c.ballots;
    }

unfoldable pub accept : Env → Text → AppendEntriesRequest → Cluster → Cluster
accept env v req c = record c {
  node = assign v (handle_append_entries env req (c.node v)).0 c.node;
  heard =
      assign v (if ltb req.term (c.node v).state.current_term then c.heard v else req.term) c.heard;
}

-- The goroutine of the peer at the address `p` handles its answer, with `rest` the peers that are then pending.
unfoldable pub answer :
    Env → Text → Running → Text → List Text → Option VoteResponse → Cluster → Cluster
answer env v r p rest resp c =
    let (n, votes) = on_vote_response env r.term resp (c.node v, r.votes) in
    record c {
      node = assign v n c.node;
      running =
          assign v
            (some (record r {
              votes = votes;
              pending = rest;
              grantors = if ltb r.votes votes then c.owner p ∷ r.grantors else r.grantors;
            }))
            c.running;
    }

-- The end of an election, and whether enough votes were counted.
unfoldable pub conclude : Env → Text → Running → Cluster → Cluster
conclude env v r c = record c {
  node = assign v (conclude_election env (c.node v, r.votes)) c.node;
  running = assign v none c.running;
  won =
      if leb (votes_needed (c.node v)) r.votes
      then record { winner = v; term = r.term } ∷ c.won
      else c.won;
}

-- What a node does by itself or with an answer to a heartbeat.
unfoldable pub change : Text → Node → Cluster → Cluster
change v n c = record c { node = assign v n c.node }

-- An answer of a later term than its request makes the node a follower of that term; it comes before
-- the node has reached that term.
abbrev pub InTime : ℕ → ℕ → Node → Type 0
InTime term later n = (later ≤ term) ⊎ (n.state.current_term < later)

abbrev pub VoteInTime : ℕ → Option VoteResponse → Node → Type 0
VoteInTime term none n = Unit
VoteInTime term (some resp) n = InTime term resp.term n

abbrev pub AppendInTime : ℕ → Option AppendEntriesResponse → Node → Type 0
AppendInTime term none n = Unit
AppendInTime term (some resp) n = InTime term resp.term n
