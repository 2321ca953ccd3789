-- ===== src/Raft/Election/Majority.antt =====
-- internal/raft/node.go, `runCandidate`: the counting of votes and the winner's start.
use sky_lock.Common.{
  ℕ, ◌+◌, ◌*◌, ◌<◌, ◌≡◌, ◌↔◌, refl, Option, none, some, List, [], ◌∷◌, Text, arith, ltb,
  if◌then◌else◌, length,
}
use sky_lock.Raft.Log.{last_index}
use sky_lock.Raft.State.{leader, State, set_state, become_follower, become_leader, reset_peers}
use sky_lock.Raft.Node.{Env, Node, reset_election_timer}
use sky_lock.Raft.Vote.{VoteResponse}
use sky_lock.Raft.Election.{
  begin_election, open_election, vote_for_self, on_vote_response, collect_votes, answered,
  run_candidate,
}

-- A vote that counts: granted, and not from a later term.
abbrev pub counts : ℕ → Option VoteResponse → ℕ
counts term none = 0
counts term (some resp) = if ltb term resp.term then 0 else if resp.vote_granted then 1 else 0

abbrev pub granted : ℕ → List (Env × Option VoteResponse) → ℕ
granted term [] = 0
granted term ((env, resp) ∷ rest) = counts term resp + granted term rest

-- What the responses leave alone, and the number of votes.
pub record Collected (term : ℕ) (rs : List (Env × Option VoteResponse)) (n n' : Node) (v v' : ℕ)
    : Type 0 where
  pub peers : n'.peers ≡ n.peers
  pub id : n'.id ≡ n.id
  pub log : n'.state.log ≡ n.state.log
  pub votes : v' ≡ v + granted term rs

on_vote_response-Collected :
    (env : Env) (term : ℕ) (resp : Option VoteResponse) (n : Node) (v : ℕ)
    → let (n', v') = on_vote_response env term resp (n, v) in
      Collected term ((env, resp) ∷ []) n n' v v'
unfolding on_vote_response become_follower
on_vote_response-Collected env term none n v = ground arith
on_vote_response-Collected env term (some resp) n v = ground arith

pub collect_votes-Collected :
    (term : ℕ) (rs : List (Env × Option VoteResponse)) (n : Node) (v : ℕ)
    → let (n', v') = collect_votes term rs (n, v) in Collected term rs n n' v v'
unfolding collect_votes
collect_votes-Collected term [] n v = ground arith
collect_votes-Collected term ((env, resp) ∷ rest) n v =
    let (n', v') = on_vote_response env term resp (n, v) in
    ground
      (arith, on_vote_response-Collected env term resp n v, collect_votes-Collected term rest n' v')

pub reset_peers_fields :
    (last : ℕ) (peers : List Text) (s : State)
    → ((reset_peers last peers s).role ≡ s.role)
      × ((reset_peers last peers s).current_term ≡ s.current_term)
      × ((reset_peers last peers s).voted_for ≡ s.voted_for)
unfolding reset_peers
reset_peers_fields last [] s = (refl, refl, refl)
reset_peers_fields last (peer ∷ peers) s = reset_peers_fields last peers _

-- After an election that every peer answered or failed to answer before the timer fired, the node
-- is leader exactly when its own vote and the votes that count are more than half of the cluster.
pub run_candidate-leader_iff :
    (env env' : Env) (rs : List (Env × Option VoteResponse)) (n : Node)
    → let term = (begin_election env n).1 in
      ((run_candidate env rs (answered env') n).state.role ≡ leader)
      ↔ (length n.peers + 1 < 2 * (1 + granted term rs))
unfolding run_candidate reset_election_timer set_state become_leader begin_election open_election
    vote_for_self
run_candidate-leader_iff env env' rs n =
    let (start, term) = begin_election env n in
    let (n', votes) = collect_votes term rs (start, 1) in
    let c = collect_votes-Collected term rs start 1 in
    let r =
      reset_peers_fields (last_index n'.state.log) n'.peers
        (record (n'.state) { role = leader; leader_id = n'.id }) in
    (ground (arith, c, r), ground (arith, c, r))
