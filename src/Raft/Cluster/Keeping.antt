-- ===== src/Raft/Cluster/Keeping.antt =====
-- internal/raft/node.go: what each operation of a node keeps of its name, its peers and its votes.
use sky_lock.Common.{
  ℕ, Bool, zero, suc, ◌+◌, ◌-◌, ◌^◌, ◌≤◌, ◌<◌, ◌≡◌, ◌≢◌, ◌⊎◌, refl, inl, inr, Option, none, some,
  List, [], ◌∷◌, Text, str_eq_iff, ltb, if◌then◌else◌, arith,
}
use sky_lock.Raft.Log.{LogEntry, last_index, get}
use sky_lock.Raft.State.{
  leader, State, set_state, set_voted_for, become_candidate, become_follower, become_leader,
  set_commit_index, set_last_applied,
}
use sky_lock.Raft.Node.{
  Env, Node, follower_timeout, propose, append_command, reset_election_timer, is_leader,
}
use sky_lock.Raft.Vote.{VoteRequest, VoteResponse, handle_request_vote, decide_vote, can_vote}
use sky_lock.Raft.Entries.{
  AppendEntriesRequest, AppendEntriesResponse, handle_append_entries, accept_entries,
  recognize_leader, advance_commit, store_entries, store_from,
}
use sky_lock.Raft.Heartbeat.{on_append_response, record_success, record_refusal}
use sky_lock.Raft.Commit.{on_commit_signal, update_commit_index}
use sky_lock.Raft.Apply.{apply_round, apply_from, apply_entry}
use sky_lock.Raft.Election.{open_election, vote_for_self, on_vote_response, conclude_election}
use sky_lock.Raft.Election.Majority.{reset_peers_fields}
use sky_lock.Raft.Cluster.{VoteInTime, AppendInTime}
use sky_lock.Raft.Cluster.Steps.{
  Change, timeout, command, signal, apply, heartbeat_answer, late_answer,
}

-- A vote for `candidate` in the term binds the node: it has left the term, has the vote still, or has
-- accepted an append request of the term.
abbrev pub Bound : Text → ℕ → Node → ℕ → Type 0
Bound candidate term n heard =
    (term < n.state.current_term)
    ⊎ (term ≡ n.state.current_term)
      × ((n.state.voted_for ≡ candidate) ⊎ (heard ≡ n.state.current_term))

-- A vote in a term before that of the election which the node has opened.
abbrev pub Earlier : Option ℕ → ℕ → Node → Type 0
Earlier none term n = Unit
Earlier (some opened) term n = (term < opened) × (opened ≤ n.state.current_term)

-- `n'` and `h'` come after `n` and `h`; `o` is the term of the election that `n` has opened.
pub record Keeps (o : Option ℕ) (n n' : Node) (h h' : ℕ) : Type 0 where
  pub id : n'.id ≡ n.id
  pub peers : n'.peers ≡ n.peers
  pub rises : n.state.current_term ≤ n'.state.current_term
  pub bound : (x : Text) (t : ℕ) → x ≢ [] → Earlier o t n → Bound x t n h → Bound x t n' h'
  pub heard : h ≤ n.state.current_term → h' ≤ n'.state.current_term

-- The two ways in which a node keeps its votes: it does not touch them, or goes to a later term.
pub record Quiet (n n' : Node) : Type 0 where
  pub id : n'.id ≡ n.id
  pub peers : n'.peers ≡ n.peers
  pub votes :
      (n.state.current_term < n'.state.current_term)
      ⊎ (n'.state.current_term ≡ n.state.current_term) × (n'.state.voted_for ≡ n.state.voted_for)

pub Quiet-Keeps : (o : Option ℕ) (n n' : Node) (h : ℕ) → Quiet n n' → Keeps o n n' h h
Quiet-Keeps o n n' h q = record {
  rises = ground (arith, q.votes);
  id = q.id;
  peers = q.peers;
  bound = λ x t named earlier b. ground (arith, q.votes, b);
  heard = λ le. ground (arith, q.votes);
}

pub open_election-Quiet :
    (n : Node) → n.state.current_term + 1 < 2 ^ 64 → Quiet n (open_election n).0
unfolding open_election become_candidate
open_election-Quiet n small = record { id = refl; peers = refl; votes = inl (omega arith) }

-- The candidate's own vote replaces the one that it has, which is of an earlier term.
pub vote_for_self-Keeps :
    (env : Env) (term : ℕ) (n : Node) (h : ℕ) → Keeps (some term) n (vote_for_self env n) h h
unfolding vote_for_self reset_election_timer set_voted_for
vote_for_self-Keeps env term n h = record {
  rises = omega arith;
  id = refl;
  peers = refl;
  bound = λ x t named earlier b. inl (omega (arith, earlier));
  heard = λ le. le;
}

pub on_vote_response-Quiet :
    (env : Env) (term : ℕ) (resp : Option VoteResponse) (n : Node) (votes : ℕ)
    → VoteInTime term resp n
    → Quiet n (on_vote_response env term resp (n, votes)).0
unfolding on_vote_response become_follower
on_vote_response-Quiet env term none n votes in_time = record {
  id = refl;
  peers = refl;
  votes = inr (refl, refl);
}
on_vote_response-Quiet env term (some resp) n votes in_time = record {
  id = ground arith;
  peers = ground arith;
  votes = ground (arith, in_time);
}

on_append_response-Quiet :
    (env : Env) (term : ℕ) (peer : Text) (entries : List LogEntry)
    (resp : Option AppendEntriesResponse) (n : Node)
    → AppendInTime term resp n
    → Quiet n (on_append_response env term peer entries resp n)
unfolding on_append_response become_follower record_success record_refusal
on_append_response-Quiet env term peer entries none n in_time = record {
  id = refl;
  peers = refl;
  votes = inr (refl, refl);
}
on_append_response-Quiet env term peer [] (some resp) n in_time = record {
  id = ground arith;
  peers = ground arith;
  votes = ground (arith, in_time);
}
on_append_response-Quiet env term peer (entry ∷ rest) (some resp) n in_time = record {
  id = ground arith;
  peers = ground arith;
  votes = ground (arith, in_time);
}

pub conclude_election-Quiet :
    (env : Env) (n : Node) (votes : ℕ) → Quiet n (conclude_election env (n, votes))
unfolding conclude_election reset_election_timer set_state become_leader
conclude_election-Quiet env n votes =
    let r =
      reset_peers_fields (last_index n.state.log) n.peers
        (record (n.state) { role = leader; leader_id = n.id }) in
    record { id = ground arith; peers = ground arith; votes = ground (arith, r) }

apply_entry_fields :
    (registered : Bool) (i : ℕ) (o : Option LogEntry) (s : State)
    → ((apply_entry registered i o s).1.current_term ≡ s.current_term)
      × ((apply_entry registered i o s).1.voted_for ≡ s.voted_for)
unfolding apply_entry set_last_applied
apply_entry_fields registered i none s = (refl, refl)
apply_entry_fields registered i (some e) s = (refl, refl)

apply_from_fields :
    (registered : Bool) (rounds i : ℕ) (s : State)
    → ((apply_from registered rounds i s).1.current_term ≡ s.current_term)
      × ((apply_from registered rounds i s).1.voted_for ≡ s.voted_for)
unfolding apply_from
apply_from_fields registered zero i s = (refl, refl)
apply_from_fields registered (suc rounds) i s =
    let (_, s') = apply_entry registered i (get i s.log) s in
    ground (
      arith,
      apply_entry_fields registered i (get i s.log) s,
      apply_from_fields registered rounds (i + 1) s',
    )

pub Change-Quiet : (n n' : Node) → Change n n' → Quiet n n'
unfolding follower_timeout set_state propose append_command is_leader on_commit_signal
    update_commit_index set_commit_index apply_round
Change-Quiet n n' timeout = record { id = refl; peers = refl; votes = inr (refl, refl) }
Change-Quiet n n' (command payload) = record {
  id = ground arith;
  peers = ground arith;
  votes = ground arith;
}
Change-Quiet n n' signal = record { id = ground arith; peers = ground arith; votes = ground arith }
Change-Quiet n n' (apply registered) =
    let s = n.state in
    let fields =
      apply_from_fields registered (s.commit_index - s.last_applied) (s.last_applied + 1) s in
    record { id = refl; peers = refl; votes = ground (arith, fields) }
Change-Quiet n n' (heartbeat_answer env term peer entries resp in_time) =
    on_append_response-Quiet env term peer entries resp n in_time
Change-Quiet n n' (late_answer env term resp in_time) =
    on_vote_response-Quiet env term resp n 0 in_time

-- A voter keeps its earlier votes, in the terms in which it has accepted no append request.
pub handle_request_vote-Keeps :
    (o : Option ℕ) (env : Env) (req : VoteRequest) (n : Node) (h : ℕ)
    → req.candidate_id ≢ []
    → h ≢ req.term
    → Keeps o n (handle_request_vote env req n).0 h h
unfolding handle_request_vote decide_vote reset_election_timer set_voted_for can_vote
    become_follower
handle_request_vote-Keeps o env req n h named free = record {
  rises = ground arith;
  id = ground arith;
  peers = ground arith;
  bound = λ x t x_named earlier b.
      ground
        (arith, b, str_eq_iff n.state.voted_for [], str_eq_iff n.state.voted_for req.candidate_id);
  heard = λ le. ground arith;
}

store_from_fields :
    (prev : ℕ) (entries : List LogEntry) (s : State)
    → (store_from prev entries s).current_term ≡ s.current_term
unfolding store_from
store_from_fields prev [] s = refl
store_from_fields prev (entry ∷ rest) s = refl

-- The term in which the node has then accepted an append request.
abbrev pub heard_after : AppendEntriesRequest → Node → ℕ → ℕ
heard_after req n h = if ltb req.term n.state.current_term then h else req.term

pub handle_append_entries-Keeps :
    (o : Option ℕ) (env : Env) (req : AppendEntriesRequest) (n : Node) (h : ℕ)
    → Keeps o n (handle_append_entries env req n).0 h (heard_after req n h)
unfolding handle_append_entries accept_entries recognize_leader advance_commit store_entries
    reset_election_timer become_follower set_commit_index
handle_append_entries-Keeps o env req n h =
    let s = become_follower env.now req.term req.leader_id n.state in
    let stored = store_from_fields req.prev_log_index req.entries s in
    record {
      id = ground arith;
      peers = ground arith;
      rises = ground (arith, stored);
      bound = λ x t x_named earlier b. ground (arith, b, stored);
      heard = λ le. ground (arith, stored);
    }
