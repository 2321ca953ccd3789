-- ===== src/Raft/Cluster/Tally.antt =====
-- internal/raft/node.go: the votes that the candidates of a cluster count, over the events.
use mathlib.Core.List.{Mem, mem-cons}
use mathlib.Core.Logic.Or
use sky_lock.Common.{
  ℕ, ◌+◌, ◌≤◌, ◌≡◌, sym, ap, subst, ◌∙◌, inl, inr, Bool, true, false, ◌&&◌, ◌||◌, none, some, List,
  [], ◌∷◌, Text, str_eq, str_eq_iff, leb, ◌==◌, length, arith, Bool-cases,
}
use sky_lock.Raft.Node.{Env, reset_election_timer}
use sky_lock.Raft.Vote.{VoteRequest, handle_request_vote}
use sky_lock.Raft.Election.{vote_for_self, votes_needed}
use sky_lock.Raft.Cluster.{
  Ballot, Cluster, Running, Reply, Win, open_candidacy, begin, vote, accept, answer, conclude,
  change,
}
use sky_lock.Raft.Cluster.Weights.{bit, has_voted, total_one, Grows, Grows-cons, support-Grows}
use sky_lock.Raft.Cluster.Following.{assign_elim, IsSeated}
use sky_lock.Raft.Cluster.Steps.{
  Step, open_step, begin_step, vote_step, append_step, answer_step, conclude_step, change_step,
}
use sky_lock.Raft.Cluster.Counting.{
  IsCounted, Counts, IsTrue, IsMajority, Counts-Grows, answered_counts,
}

abbrev pub has_won : Text → ℕ → List Win → Bool
has_won v term [] = false
has_won v term (w ∷ ws) = (str_eq w.winner v && w.term == term) || has_won v term ws

-- What is counted, answered and won rests on votes given.
pub record IsBacked (members : List Text) (c : Cluster) : Type 0 where
  pub counted : (v : Text) → Counts members c.owner c.ballots v (c.running v)
  pub answered : (reply : Reply) → Mem reply c.replies → IsTrue c.ballots reply
  pub won : (v : Text) (t : ℕ) → has_won v t c.won ≡ true → IsMajority members c.ballots v t

-- A step that leaves the elections, the answers and the wins, while votes are given.
Grows-IsBacked :
    (members : List Text) (c : Cluster) (bs : List Ballot)
    → Grows c.ballots bs
    → IsBacked members c
    → IsBacked members (record c { ballots = bs })
Grows-IsBacked members c bs grows backed = record {
  counted = λ v. Counts-Grows members c.owner c.ballots bs grows v (c.running v) (backed.counted v);
  answered = λ reply mem granted.
      grows reply.voter reply.req.candidate_id reply.req.term (backed.answered reply mem granted);
  won = λ v t h.
      let was = backed.won v t h in
      omega (arith, was, support-Grows v t c.ballots bs members grows);
}

begin-IsBacked :
    (members : List Text) (env : Env) (v : Text) (term : ℕ) (c : Cluster)
    → Mem v members
    → IsSeated members c
    → IsBacked members c
    → IsBacked members (begin env v term c)
unfolding begin vote_for_self reset_election_timer
begin-IsBacked members env v term c member seats backed =
    let n = vote_for_self env (c.node v) in
    let b : Ballot = record { voter = v; candidate = n.id; term = term } in
    let more = Grows-IsBacked members c (b ∷ c.ballots) (Grows-cons b c.ballots) backed in
    let (id, _, all) = seats v member in
    record {
      counted =
          assign_elim (Counts members c.owner (b ∷ c.ballots)) v _ c.running
            (record {
              member = member;
              votes = ground (arith, str_eq_iff v v, str_eq_iff n.id v, id);
              within = λ w. omega (arith, all w);
            })
            more.counted;
      answered = more.answered;
      won = more.won;
    }

vote-IsBacked :
    (members : List Text) (env : Env) (v : Text) (req : VoteRequest) (c : Cluster)
    → IsBacked members c
    → IsBacked members (vote env v req c)
unfolding vote
vote-IsBacked members env v req c backed =
    let (n, resp) = handle_request_vote env req (c.node v) in
    let d = vote env v req c in
    let b : Ballot = record { voter = v; candidate = req.candidate_id; term = req.term } in
    let grows : Grows c.ballots d.ballots =
      λ x y t h. ground (arith, Grows-cons b c.ballots x y t h) in
    let more = Grows-IsBacked members c d.ballots grows backed in
    let new : IsTrue d.ballots (record { voter = v; req = req; resp = resp }) = λ granted.
      ground (arith, granted, str_eq_iff v v, str_eq_iff req.candidate_id req.candidate_id) in
    record {
      counted = more.counted;
      answered = λ reply mem.
          Or.elim (hlevel) (mem-cons.0 mem) (λ e. subst (IsTrue d.ballots) (sym e) new)
            (more.answered reply);
      won = more.won;
    }

-- Enough votes are votes of more than half of the members.
enough :
    (members : List Text) (c : Cluster) (v : Text) (r : Running)
    → IsSeated members c
    → IsCounted members c.owner c.ballots v r
    → votes_needed (c.node v) ≤ r.votes
    → IsMajority members c.ballots v r.term
unfolding votes_needed
enough members c v r seats counts h =
    let (_, _, all) = seats v counts.member in
    let size : 1 + length (c.node v).peers ≡ length members =
      ap (◌+◌ 1) (sym (total_one (c.node v).peers)) ∙ all (λ _. 1) ∙ total_one members in
    let inside = counts.within (λ x. bit (has_voted x v r.term c.ballots)) in
    omega (arith, size, inside, counts.votes, h)

conclude-IsBacked :
    (members : List Text) (env : Env) (v : Text) (r : Running) (c : Cluster)
    → c.running v ≡ some r
    → IsSeated members c
    → IsBacked members c
    → IsBacked members (conclude env v r c)
unfolding conclude
conclude-IsBacked members env v r c at seats backed =
    let counts : IsCounted members c.owner c.ballots v r =
      subst (Counts members c.owner c.ballots v) at (backed.counted v) in
    record {
      counted = assign_elim (Counts members c.owner c.ballots) v none c.running tt backed.counted;
      answered = backed.answered;
      won = λ x t h. elim (Bool-cases (leb (votes_needed (c.node v)) r.votes)) [
        | inl most ↦
            let got = enough members c v r seats counts (ground (arith, most)) in
            elim (Bool-cases (str_eq v x && r.term == t)) [
              | inl new ↦
                  let e : v ≡ x = ground (arith, str_eq_iff v x, new) in
                  let e' : r.term ≡ t = ground (arith, new) in
                  subst (IsMajority members c.ballots x) e'
                    (subst (λ y. IsMajority members c.ballots y r.term) e got)
              | inr old ↦ backed.won x t (ground (arith, h, most, old))
            ]
        | inr few ↦ backed.won x t (ground (arith, h, few))
      ];
    }

pub Step-IsBacked :
    (members : List Text) (c d : Cluster)
    → Step members c d
    → IsSeated members c
    → IsBacked members c
    → IsBacked members d
unfolding open_candidacy accept answer change
Step-IsBacked members c d (open_step v member small) seats backed = record {
  counted = backed.counted;
  answered = backed.answered;
  won = backed.won;
}
Step-IsBacked members c d (begin_step env v term member opened) seats backed =
    begin-IsBacked members env v term c member seats backed
Step-IsBacked members c d (vote_step env v req named free quiet) seats backed =
    vote-IsBacked members env v req c backed
Step-IsBacked members c d (append_step env v req) seats backed = record {
  counted = backed.counted;
  answered = backed.answered;
  won = backed.won;
}
Step-IsBacked members c d (answer_step env v r before after p resp at cut from in_time) seats
      backed =
    let counts : IsCounted members c.owner c.ballots v r =
      subst (Counts members c.owner c.ballots v) at (backed.counted v) in
    record {
      counted =
          assign_elim (Counts members c.owner c.ballots) v _ c.running
            (answered_counts members c v r before after p cut backed.answered counts env resp
              (c.node v) from)
            backed.counted;
      answered = backed.answered;
      won = backed.won;
    }
Step-IsBacked members c d (conclude_step env v r at) seats backed =
    conclude-IsBacked members env v r c at seats backed
Step-IsBacked members c d (change_step v n moved) seats backed = record {
  counted = backed.counted;
  answered = backed.answered;
  won = backed.won;
}
