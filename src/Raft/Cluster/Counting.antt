-- ===== src/Raft/Cluster/Counting.antt =====
-- internal/raft/node.go: what a candidate counts, and the answers that it counts.
use mathlib.Core.List.{Mem}
use sky_lock.Common.{
  ℕ, ◌+◌, ◌*◌, ◌≤◌, ◌<◌, ◌≡◌, ap, subst, ◌∙◌, inl, inr, true, false, Option, none, some, List, ◌∷◌,
  ◌++◌, Text, ltb, if◌then◌else◌, length, arith, Bool-cases,
}
use sky_lock.Raft.Node.{Env, Node}
use sky_lock.Raft.Vote.{VoteResponse}
use sky_lock.Raft.Election.{on_vote_response}
use sky_lock.Raft.Cluster.{Ballot, Cluster, Running, Reply}
use sky_lock.Raft.Cluster.Weights.{total, has_voted, support, total_cut, Grows, support-Grows}
use sky_lock.Raft.Cluster.Steps.{FromPeer, sent}

-- A candidate counts votes that have been given it in the term, of different members.
pub record IsCounted (members : List Text) (owner : Text → Text) (bs : List Ballot) (v : Text)
    (r : Running) : Type 0 where
  pub member : Mem v members
  pub votes : r.votes ≤ support v r.term bs r.grantors
  pub within :
      (w : Text → ℕ) → total (λ p. w (owner p)) r.pending + total w r.grantors ≤ total w members

abbrev pub Counts : List Text → (Text → Text) → List Ballot → Text → Option Running → Type 0
Counts members owner bs v none = Unit
Counts members owner bs v (some r) = IsCounted members owner bs v r

abbrev pub IsTrue : List Ballot → Reply → Type 0
IsTrue bs reply =
    reply.resp.vote_granted ≡ true
    → has_voted reply.voter reply.req.candidate_id reply.req.term bs ≡ true

abbrev pub IsMajority : List Text → List Ballot → Text → ℕ → Type 0
IsMajority members bs v t = length members < 2 * support v t bs members

pub Counts-Grows :
    (members : List Text) (owner : Text → Text) (bs bs' : List Ballot)
    → Grows bs bs'
    → (v : Text) (o : Option Running) → Counts members owner bs v o
    → Counts members owner bs' v o
Counts-Grows members owner bs bs' grows v none counts = counts
Counts-Grows members owner bs bs' grows v (some r) counts = record {
  member = counts.member;
  votes = omega (arith, counts.votes, support-Grows v r.term bs bs' r.grantors grows);
  within = counts.within;
}

module _ (members : List Text) (c : Cluster) (v : Text) (r : Running) (before after : List Text)
    (p : Text) (cut : r.pending ≡ before ++ p ∷ after)
    (sent_votes : (reply : Reply) → Mem reply c.replies → IsTrue c.ballots reply)
    (counts : IsCounted members c.owner c.ballots v r) where
  -- The peer is no longer pending; its vote may be counted if it has given it.
  without : IsCounted members c.owner c.ballots v (record r { pending = before ++ after })
  without = record {
    member = counts.member;
    votes = counts.votes;
    within = λ w.
        let at = λ (q : Text). w (c.owner q) in
        let whole : total at r.pending ≡ at p + total at (before ++ after) =
          ap (total at) cut ∙ total_cut at p before after in
        omega (arith, whole, counts.within w);
  }

  with_vote :
      has_voted (c.owner p) v r.term c.ballots ≡ true
      → IsCounted members c.owner c.ballots v (record r {
        votes = r.votes + 1;
        pending = before ++ after;
        grantors = c.owner p ∷ r.grantors;
      })
  with_vote voted = record {
    member = counts.member;
    votes = ground (arith, counts.votes, voted);
    within = λ w.
        let at = λ (q : Text). w (c.owner q) in
        let whole : total at r.pending ≡ at p + total at (before ++ after) =
          ap (total at) cut ∙ total_cut at p before after in
        omega (arith, whole, counts.within w);
  }

  pub answered_counts :
      (env : Env) (resp : Option VoteResponse) (n : Node)
      → FromPeer c.replies v r.term (c.owner p) resp
      → let votes = (on_vote_response env r.term resp (n, r.votes)).1 in
        IsCounted members c.owner c.ballots v (record r {
          votes = votes;
          pending = before ++ after;
          grantors = if ltb r.votes votes then c.owner p ∷ r.grantors else r.grantors;
        })
  unfolding on_vote_response
  answered_counts env none n from =
      let still : ltb r.votes r.votes ≡ false = ground arith in rw still without
  answered_counts env (some resp) n (sent req _ mem e e') =
      let still : ltb r.votes r.votes ≡ false = ground arith in
      let rise : ltb r.votes (r.votes + 1) ≡ true = ground arith in
      elim (Bool-cases (ltb r.term resp.term)) [
        | inl late ↦ rw (late, still) without
        | inr in_term ↦ elim (Bool-cases resp.vote_granted) [
          | inl granted ↦
              let voted : has_voted (c.owner p) v r.term c.ballots ≡ true =
                subst (λ x. has_voted (c.owner p) x r.term c.ballots ≡ true) e
                  (subst (λ t. has_voted (c.owner p) req.candidate_id t c.ballots ≡ true) e'
                    (sent_votes _ mem granted)) in
              rw (in_term, granted, rise) (with_vote voted)
          | inr refused ↦ rw (in_term, refused, still) without
        ]
      ]
