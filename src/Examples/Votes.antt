-- ===== src/Examples/Votes.antt =====
-- internal/raft: an election in a cluster of three, as a sequence of events.
use mathlib.Core.List.{mem-cons, not-mem-nil, mem-cons_self}
use mathlib.Core.Logic.Or
use sky_lock.Common.{
  ℕ, ◌+◌, ◌≡◌, ◌≢◌, refl, sym, subst, inl, true, some, List, [], ◌∷◌, Text, text, str_eq, arith,
  if◌then◌else◌,
}
use sky_lock.Raft.Log.{last_index, last_term}
use sky_lock.Raft.State.{become_candidate, new_state, become_follower, set_voted_for}
use sky_lock.Raft.Node.{RaftConfig, Env, new_node, reset_election_timer}
use sky_lock.Raft.Vote.{VoteRequest, VoteResponse, handle_request_vote, up_to_date, can_vote}
use sky_lock.Raft.Election.{open_election, vote_for_self, on_vote_response, votes_needed}
use sky_lock.Raft.Cluster.{Cluster, new_cluster, open_candidacy, begin, vote, answer, conclude}
use sky_lock.Raft.Cluster.Weights.{total, has_voted}
use sky_lock.Raft.Cluster.Steps.{
  Reachable, here, next, open_step, begin_step, vote_step, answer_step, conclude_step, sent,
}
use sky_lock.Raft.Cluster.Overlap.{request_while_opening}
use sky_lock.Raft.Cluster.ElectionSafety.{IsSetUp, one_winner_per_term}

abbrev env : Env
env = record { now = 1000; rand = 7 }

abbrev config : RaftConfig
config = record { election_timeout_min = 150; election_timeout_max = 300; heartbeat_interval = 50 }

-- The members and the addresses of the three configurations under configs.
abbrev a : Text
a = text "node-1"

abbrev b : Text
b = text "node-2"

abbrev c : Text
c = text "node-3"

abbrev at_a : Text
at_a = text "localhost:5001"

abbrev at_b : Text
at_b = text "localhost:5002"

abbrev at_c : Text
at_c = text "localhost:5003"

abbrev members : List Text
members = a ∷ b ∷ c ∷ []

abbrev owner : Text → Text
owner p = if str_eq p at_a then a else if str_eq p at_b then b else c

abbrev peers_of : Text → List Text
peers_of v =
    if str_eq v a
    then at_b ∷ at_c ∷ []
    else if str_eq v b
    then at_a ∷ at_c ∷ []
    else at_a ∷ at_b ∷ []

members-IsSetUp : IsSetUp members owner peers_of
unfolding str_eq
members-IsSetUp v member =
    Or.elim (hlevel) (mem-cons.0 member)
      (λ e. subst Good (sym e) ((λ z. ground (arith, z)), λ w. omega arith))
      (λ member'.
        Or.elim (hlevel) (mem-cons.0 member')
          (λ e. subst Good (sym e) ((λ z. ground (arith, z)), λ w. omega arith))
          (λ member''.
            Or.elim (hlevel) (mem-cons.0 member'')
              (λ e. subst Good (sym e) ((λ z. ground (arith, z)), λ w. omega arith))
              (λ none. absurd (not-mem-nil none))))
  where
    Good : Text → Type 0
    Good v =
        (v ≢ []) × ((w : Text → ℕ) → w v + total (λ p. w (owner p)) (peers_of v) ≡ total w members)

abbrev ask : VoteRequest
ask = record { term = 1; candidate_id = a; last_log_index = 0; last_log_term = 0 }

abbrev yes : VoteResponse
yes = record { term = 1; vote_granted = true }

abbrev started : Cluster
started = begin env a 1 (open_candidacy a (new_cluster owner peers_of config))

abbrev asked : Cluster
asked = vote env b ask started

abbrev counted : Cluster
counted =
    answer env a (record { term = 1; votes = 1; pending = at_b ∷ at_c ∷ []; grantors = a ∷ [] })
      at_b (at_c ∷ []) (some yes) asked

abbrev elected : Cluster
elected =
    conclude env a (record { term = 1; votes = 2; pending = at_c ∷ []; grantors = b ∷ a ∷ [] })
      counted

elected-Reachable : Reachable members (new_cluster owner peers_of config) elected
unfolding open_candidacy begin vote answer open_election vote_for_self become_candidate
    set_voted_for reset_election_timer handle_request_vote can_vote up_to_date str_eq new_node
    new_state become_follower last_index last_term on_vote_response
elected-Reachable =
    next
      (next
        (next
          (next (next here (open_step a mem-cons_self (omega arith)))
            (begin_step env a 1 mem-cons_self refl))
          (vote_step env b ask (λ e. ground (arith, e)) (λ e. omega (arith, e)) refl))
        (answer_step env a _ [] (at_c ∷ []) at_b (some yes) refl refl
          (sent ask yes mem-cons_self refl refl) (inl (omega arith))))
      (conclude_step env a _ refl)

one_winner_per_term_example : a ≡ a
unfolding conclude votes_needed open_candidacy begin vote answer open_election vote_for_self
    become_candidate set_voted_for reset_election_timer handle_request_vote can_vote up_to_date
    str_eq new_node new_state become_follower last_index last_term on_vote_response
one_winner_per_term_example =
    one_winner_per_term members owner peers_of config members-IsSetUp elected a a 1
      elected-Reachable refl refl

-- A request of "node-2" reaches "node-1" between the two calls.
request_while_opening_example :
    let d = begin env a 1 (
      vote env a
        (record ask { candidate_id = b })
        (open_candidacy a (new_cluster owner peers_of config))) in
    (has_voted a b 1 d.ballots ≡ true)
    × (has_voted a a 1 d.ballots ≡ true)
    × ((d.node a).state.current_term ≡ 1)
    × ((d.node a).state.voted_for ≡ a)
    × (d.running a
        ≡ some (record { term = 1; votes = 1; pending = at_b ∷ at_c ∷ []; grantors = a ∷ [] }))
unfolding new_node new_state up_to_date last_index last_term str_eq
request_while_opening_example =
    request_while_opening env env a (record ask { candidate_id = b })
      (new_cluster owner peers_of config) (omega arith) refl (inl refl) refl
