-- ===== src/Raft/Election/StaleWin.antt =====
-- internal/raft/node.go, `runCandidate`: the term of the node that wins.
use sky_lock.Common.{
  ℕ, ◌+◌, ◌*◌, ◌<◌, ◌≡◌, ◌⊎◌, refl, sym, subst, ap, ◌∙◌, inl, inr, Option, none, some, List, [],
  ◌∷◌, arith, length, u64,
}
use sky_lock.Raft.Log.{last_index}
use sky_lock.Raft.State.{
  leader, set_state, become_candidate, set_voted_for, become_follower, become_leader,
}
use sky_lock.Raft.Node.{Env, Node, reset_election_timer}
use sky_lock.Raft.Vote.{VoteResponse}
use sky_lock.Raft.Election.{
  begin_election, open_election, vote_for_self, on_vote_response, collect_votes, conclude_election,
  answered, run_candidate,
}
use sky_lock.Raft.Election.Majority.{granted, reset_peers_fields, run_candidate-leader_iff}

-- Some peer answers with a later term.
abbrev pub Later : ℕ → Option VoteResponse → Type 0
Later term none = ⊥
Later term (some resp) = term < resp.term

abbrev pub SomeLater : ℕ → List (Env × Option VoteResponse) → Type 0
SomeLater term [] = ⊥
SomeLater term ((env, resp) ∷ rest) = Later term resp ⊎ SomeLater term rest

step-Later :
    (env : Env) (term : ℕ) (resp : Option VoteResponse) (r : Node × ℕ)
    → (Later term resp → term < (on_vote_response env term resp r).0.state.current_term)
      × (term < r.0.state.current_term
          → term < (on_vote_response env term resp r).0.state.current_term)
unfolding on_vote_response become_follower
step-Later env term none r = ((λ h. absurd h), λ h. h)
step-Later env term (some resp) r = (ground arith, ground arith)

stays_later :
    (term : ℕ) (rs : List (Env × Option VoteResponse)) (r : Node × ℕ)
    → term < r.0.state.current_term
    → term < (collect_votes term rs r).0.state.current_term
unfolding collect_votes
stays_later term [] r h = h
stays_later term ((env, resp) ∷ rest) r h =
    stays_later term rest _ ((step-Later env term resp r).1 h)

becomes_later :
    (term : ℕ) (rs : List (Env × Option VoteResponse)) (r : Node × ℕ)
    → SomeLater term rs
    → term < (collect_votes term rs r).0.state.current_term
unfolding collect_votes
becomes_later term [] r h = absurd h
becomes_later term ((env, resp) ∷ rest) r (inl h) =
    stays_later term rest _ ((step-Later env term resp r).0 h)
becomes_later term ((env, resp) ∷ rest) r (inr h) = becomes_later term rest _ h

-- A response that is not of a later term leaves the node as it is.
same_node :
    (term : ℕ) (rs : List (Env × Option VoteResponse)) (r : Node × ℕ)
    → ¬ SomeLater term rs
    → (collect_votes term rs r).0 ≡ r.0
unfolding collect_votes on_vote_response
same_node term [] r h = refl
same_node term ((env, none) ∷ rest) r h = same_node term rest r (λ l. h (inr l))
same_node term ((env, some resp) ∷ rest) (n, v) h =
    let ih = λ (w : ℕ). same_node term rest (n, w) (λ l. h (inr l)) in
    let not_later : ¬ (term < resp.term) = λ l. h (inl l) in ground (arith, ih v, ih (v + 1))

conclude_election_fields :
    (env : Env) (n : Node) (v : ℕ)
    → (conclude_election env (n, v)).state.current_term ≡ n.state.current_term
      × ((conclude_election env (n, v)).state.voted_for ≡ n.state.voted_for)
unfolding conclude_election set_state reset_election_timer become_leader
conclude_election_fields env n v = ground (
  arith,
  reset_peers_fields (last_index n.state.log) n.peers
      (record (n.state) { role = leader; leader_id = n.id }),
)

-- Without a response of a later term, an election, won or lost, ends in the term that it began, with
-- the node's vote for itself.
pub run_candidate_own_term :
    (env env' : Env) (rs : List (Env × Option VoteResponse)) (n : Node)
    → ¬ SomeLater (begin_election env n).1 rs
    → let s = (run_candidate env rs (answered env') n).state in
      (s.current_term ≡ u64 (n.state.current_term + 1)) × (s.voted_for ≡ n.id)
unfolding run_candidate begin_election open_election vote_for_self become_candidate set_voted_for
    reset_election_timer
run_candidate_own_term env env' rs n quiet =
    let (start, term) = begin_election env n in
    let (n', votes) = collect_votes term rs (start, 1) in
    let fields = conclude_election_fields env' n' votes in
    let same = same_node term rs (start, 1) quiet in
    (
      fields.0 ∙ ap (λ (m : Node). m.state.current_term) same,
      fields.1 ∙ ap (λ (m : Node). m.state.voted_for) same,
    )

-- When some peer answers a candidate with a later term and the votes that count are still more
-- than half of the cluster, the node becomes leader all the same, in a term later than the one
-- that it was elected in.
pub run_candidate_stale_win :
    (env env' : Env) (rs : List (Env × Option VoteResponse)) (n : Node)
    → SomeLater (begin_election env n).1 rs
    → length n.peers + 1 < 2 * (1 + granted (begin_election env n).1 rs)
    → let s = (run_candidate env rs (answered env') n).state in
      (s.role ≡ leader) × ((begin_election env n).1 < s.current_term)
unfolding run_candidate
run_candidate_stale_win env env' rs n later won = (
  (run_candidate-leader_iff env env' rs n).1 won,
  let (start, term) = begin_election env n in
      let (n', votes) = collect_votes term rs (start, 1) in
      subst (λ t. term < t) (sym (conclude_election_fields env' n' votes).0)
        (becomes_later term rs (start, 1) later),
)
