-- ===== src/Raft/Cluster/ElectionSafety.antt =====
-- internal/raft/node.go: the elections of a cluster, from nodes that have just been made.
use mathlib.Core.List.{Mem, not-mem-nil}
use sky_lock.Common.{
  ◌≤◌, ◌↔◌, str_eq_refl, ℕ, ◌+◌, ◌≡◌, ◌≢◌, refl, inl, inr, true, List, [], Text, str_eq, str_eq_iff,
  arith, Bool-cases,
}
use sky_lock.Raft.Log.{last_index}
use sky_lock.Raft.State.{leader, new_state, set_state, become_leader}
use sky_lock.Raft.Election.{votes_needed, conclude_election}
use sky_lock.Raft.Election.Majority.{reset_peers_fields}
use sky_lock.Raft.Node.{RaftConfig, Env, new_node, reset_election_timer}
use sky_lock.Raft.Cluster.{Cluster, Running, new_cluster, conclude}
use sky_lock.Raft.Cluster.Weights.{total, bit, has_voted, total_disjoint}
use sky_lock.Raft.Cluster.Honest.{IsHonest}
use sky_lock.Raft.Cluster.Ballots.{Step-IsHonest}
use sky_lock.Raft.Cluster.Following.{IsSeated, Step-IsSeated}
use sky_lock.Raft.Cluster.Tally.{has_won, IsBacked, Step-IsBacked}
use sky_lock.Raft.Cluster.Steps.{Reachable, here, next}

-- A win is an election that ends with the node as leader.
pub conclude-leader_iff :
    (env : Env) (v : Text) (r : Running) (c : Cluster)
    → (((conclude env v r c).node v).state.role ≡ leader) ↔ (votes_needed (c.node v) ≤ r.votes)
unfolding conclude conclude_election reset_election_timer set_state become_leader
conclude-leader_iff env v r c =
    let n = c.node v in
    let fields =
      reset_peers_fields (last_index n.state.log) n.peers
        (record (n.state) { role = leader; leader_id = n.id }) in
    (ground (arith, fields, str_eq_refl v), ground (arith, fields, str_eq_refl v))

-- A cluster is set up right: the members have names, and the peers of each are the addresses of the
-- others.
abbrev pub IsSetUp : List Text → (Text → Text) → (Text → List Text) → Type 0
IsSetUp members owner peers_of =
    (v : Text)
    → Mem v members
    → (v ≢ []) × ((w : Text → ℕ) → w v + total (λ p. w (owner p)) (peers_of v) ≡ total w members)

pub record IsSound (members : List Text) (c : Cluster) : Type 0 where
  pub seats : IsSeated members c
  pub honest : IsHonest c
  pub backed : IsBacked members c

module _ (members : List Text) (owner : Text → Text) (peers_of : Text → List Text)
    (config : RaftConfig) (set_up : IsSetUp members owner peers_of) where
  new_cluster-IsSound : IsSound members (new_cluster owner peers_of config)
  unfolding new_node new_state
  new_cluster-IsSound = record {
    seats = λ v member. let (named, all) = set_up v member in (refl, named, all);
    honest = record {
      bound = λ v x t h. absurd (ground (arith, h));
      once = λ v x y t h h'. absurd (ground (arith, h));
      named = λ v x t h. absurd (ground (arith, h));
      heard = λ v. omega arith;
      fresh = λ v u e. absurd (ground (arith, e));
    };
    backed = record {
      counted = λ v. tt;
      answered = λ reply mem. absurd (not-mem-nil mem);
      won = λ v t h. absurd (ground (arith, h));
    };
  }

  Reachable-IsSound :
      (c : Cluster) → Reachable members (new_cluster owner peers_of config) c → IsSound members c
  Reachable-IsSound _ here = new_cluster-IsSound
  Reachable-IsSound d (next {c = c} reached step) =
      let was = Reachable-IsSound c reached in
      record {
        seats = Step-IsSeated members c d step was.seats;
        honest = Step-IsHonest members c d step was.seats was.honest;
        backed = Step-IsBacked members c d step was.seats was.backed;
      }

  -- In a cluster whose members have names and whose peers are the addresses of the other members,
  -- two candidates that have counted enough votes in elections of one term are the same node,
  -- after any sequence of events in which vote requests have a positive term, name their
  -- candidate, come to no voter that has accepted an append request of their term, and come to no
  -- voter that has called BecomeCandidate and not yet SetVotedFor; in which no node starts an
  -- election past the greatest term; and in which a later term in an answer is new to the node
  -- that takes it. Each event runs whole: a call of a handler, BecomeCandidate, the candidate's
  -- vote for itself, the handling of an answer, the end of an election.
  pub one_winner_per_term :
      (c : Cluster) (v v' : Text) (term : ℕ)
      → Reachable members (new_cluster owner peers_of config) c
      → has_won v term c.won ≡ true
      → has_won v' term c.won ≡ true
      → v ≡ v'
  one_winner_per_term c v v' term reached won won' =
      let sound = Reachable-IsSound c reached in
      let most = sound.backed.won v term won in
      let most' = sound.backed.won v' term won' in
      elim (Bool-cases (str_eq v v')) [
        | inl same ↦ (str_eq_iff v v').0 same
        | inr other ↦
            let apart =
              total_disjoint (λ x. bit (has_voted x v term c.ballots))
                (λ x. bit (has_voted x v' term c.ballots))
                (λ x. ground (arith, sound.honest.once x v v' term, str_eq_iff v v', other))
                members in
            absurd (omega (arith, most, most', apart))
      ]
