-- ===== src/Raft/Cluster/Ballots.antt =====
-- internal/raft/node.go: the votes that the nodes of a cluster have given, over the events.
use mathlib.Core.List.{Mem}
use sky_lock.Common.{
  ℕ, ◌+◌, ◌^◌, ◌<◌, ◌≤◌, ◌≡◌, ◌≢◌, refl, sym, ap, subst, ◌∙◌, ◌⊎◌, inl, inr, true, none, some,
  str_eq, List, [], ◌∷◌, Text, str_eq_iff, str_eq_refl, arith, Bool-cases,
}
use sky_lock.Raft.State.{become_candidate, set_voted_for}
use sky_lock.Raft.Node.{Env, reset_election_timer}
use sky_lock.Raft.Vote.{VoteRequest, handle_request_vote}
use sky_lock.Raft.Vote.Safety.{handle_request_vote-Granted}
use sky_lock.Raft.Election.{open_election, vote_for_self}
use sky_lock.Raft.Cluster.{
  Ballot, Cluster, assign, open_candidacy, begin, vote, accept, answer, conclude, change,
}
use sky_lock.Raft.Cluster.Weights.{has_voted}
use sky_lock.Raft.Cluster.Keeping.{Bound}
use sky_lock.Raft.Cluster.Steps.{
  Step, open_step, begin_step, vote_step, append_step, answer_step, conclude_step, change_step,
}
use sky_lock.Raft.Cluster.Following.{Follows, Step-Follows, IsSeated}
use sky_lock.Raft.Cluster.Honest.{IsHonest, votes_earlier, Follows-IsHonest, opening-IsHonest}

-- A new ballot, of a voter that is bound by it and that has given no other vote in the term, and that
-- has then opened no election.
module _ (c d : Cluster) (b : Ballot) (added : d.ballots ≡ b ∷ c.ballots) (k : Follows c d)
    (binds : Bound b.candidate b.term (d.node b.voter) (d.heard b.voter))
    (first : (x : Text) → has_voted b.voter x b.term c.ballots ≡ true → x ≡ b.candidate)
    (named : b.candidate ≢ [])
    (shut : (x : Text) (u : ℕ) → d.opening x ≡ some u → (b.voter ≢ x) × (c.opening x ≡ some u))
    (honest : IsHonest c) where
  -- A vote is the new one or one given before.
  which :
      (v x : Text) (t : ℕ)
      → has_voted v x t d.ballots ≡ true
      → ((b.voter ≡ v) × (b.candidate ≡ x) × (b.term ≡ t)) ⊎ (has_voted v x t c.ballots ≡ true)
  which v x t h =
      let e = ap (has_voted v x t) added in
      ground (arith, e, h, str_eq_iff b.voter v, str_eq_iff b.candidate x)

  only :
      (v y : Text) (t : ℕ)
      → b.voter ≡ v
      → b.term ≡ t
      → has_voted v y t c.ballots ≡ true
      → y ≡ b.candidate
  only v y t e e' was =
      let was' : has_voted b.voter y b.term c.ballots ≡ true = rw (e, e') was in first y was'

  new_ballot-IsHonest : IsHonest d
  new_ballot-IsHonest = record {
    bound = λ v x t h. elim (which v x t h) [
      | inl (e, e', e'') ↦
          subst (λ y. Bound x t (d.node y) (d.heard y)) e
            (subst (λ y. Bound y t (d.node b.voter) (d.heard b.voter)) e'
              (subst (λ u. Bound b.candidate u (d.node b.voter) (d.heard b.voter)) e'' binds))
      | inr was ↦
          (k v).bound x t (honest.named v x t was) (votes_earlier c v x t honest was)
            (honest.bound v x t was)
    ];
    once = λ v x y t h h'. elim (which v x t h) [
      | inl (e, e', e'') ↦ elim (which v y t h') [
        | inl (_, f, _) ↦ sym e' ∙ f
        | inr was ↦ sym e' ∙ sym (only v y t e e'' was)
      ]
      | inr was ↦ elim (which v y t h') [
        | inl (e, f, e'') ↦ only v x t e e'' was ∙ f
        | inr was' ↦ honest.once v x y t was was'
      ]
    ];
    named = λ v x t h. elim (which v x t h) [
      | inl (_, e, _) ↦ subst (λ y. y ≢ []) e named
      | inr was ↦ honest.named v x t was
    ];
    heard = λ v. (k v).heard (honest.heard v);
    fresh = λ v u opened.
        let (other, was_open) = shut v u opened in
        let (le, votes) = honest.fresh v u was_open in
        let rises = (k v).rises in
        (
          omega (arith, le, rises),
          λ x t h. elim (which v x t h) [
            | inl (e, _, _) ↦ absurd (other e)
            | inr was ↦ votes x t was
          ],
        );
  }

at_self {ℓ} : {A : Type ℓ} (v : Text) (a : A) (f : Text → A) → assign v a f v ≡ a
at_self v a f = rw (str_eq_refl v) refl

vote-IsHonest :
    (members : List Text) (env : Env) (v : Text) (req : VoteRequest) (c : Cluster)
    → req.candidate_id ≢ []
    → c.heard v ≢ req.term
    → c.opening v ≡ none
    → IsHonest c
    → IsHonest (vote env v req c)
unfolding vote
vote-IsHonest members env v req c named free quiet honest =
    let d = vote env v req c in
    let (n, resp) = handle_request_vote env req (c.node v) in
    let k = Step-Follows members c d (vote_step env v req named free quiet) in
    elim (Bool-cases resp.vote_granted) [
      | inl granted ↦
          let g = handle_request_vote-Granted env req (c.node v) granted in
          new_ballot-IsHonest c d
            (record { voter = v; candidate = req.candidate_id; term = req.term }) (rw granted refl)
            k (rw (at_self v n c.node) (inr (sym g.current, inl g.voted)))
            (λ x was.
              let b = honest.bound v x req.term was in
              let x_named = honest.named v x req.term was in ground (arith, g.free, b, x_named))
            named (λ x u opened. ((λ e. absurd (cc (quiet, e, opened))), opened)) honest
      | inr refused ↦ Follows-IsHonest c d k (rw refused refl) refl honest
    ]

open-IsHonest :
    (members : List Text) (v : Text) (c : Cluster)
    → Mem v members
    → (c.node v).state.current_term + 1 < 2 ^ 64
    → IsHonest c
    → IsHonest (open_candidacy v c)
unfolding open_candidacy open_election become_candidate
open-IsHonest members v c member small honest =
    let (n, term) = open_election (c.node v) in
    let moved = record c { node = assign v n c.node } in
    let k = Step-Follows members c (open_candidacy v c) (open_step v member small) in
    let risen : term ≤ (assign v n c.node v).state.current_term =
      rw (at_self v n c.node) (omega arith) in
    opening-IsHonest moved v term risen
      (λ x t was. let b = honest.bound v x t was in omega (arith, b, small))
      (Follows-IsHonest c moved k refl refl honest)

begin-IsHonest :
    (members : List Text) (env : Env) (v : Text) (term : ℕ) (c : Cluster)
    → Mem v members
    → c.opening v ≡ some term
    → IsSeated members c
    → IsHonest c
    → IsHonest (begin env v term c)
unfolding begin vote_for_self set_voted_for reset_election_timer
begin-IsHonest members env v term c member opened seats honest =
    let d = begin env v term c in
    let n = vote_for_self env (c.node v) in
    let k = Step-Follows members c d (begin_step env v term member opened) in
    let (id, named, _) = seats v member in
    let (le, votes) = honest.fresh v term opened in
    new_ballot-IsHonest c d (record { voter = v; candidate = n.id; term = term }) refl k
      (rw (at_self v n c.node) (ground (arith, le)))
      (λ x was. absurd (omega (arith, votes x term was))) (λ e. named (sym id ∙ e))
      (λ x u e. elim (Bool-cases (str_eq v x)) [
        | inl here ↦ absurd (ground (arith, e, here))
        | inr away ↦ ((λ e'. ground (arith, away, str_eq_iff v x, e')), ground (arith, e, away))
      ])
      honest

pub Step-IsHonest :
    (members : List Text) (c d : Cluster)
    → Step members c d
    → IsSeated members c
    → IsHonest c
    → IsHonest d
unfolding accept answer conclude change
Step-IsHonest members c d (open_step v member small) seats honest =
    open-IsHonest members v c member small honest
Step-IsHonest members c d (begin_step env v term member opened) seats honest =
    begin-IsHonest members env v term c member opened seats honest
Step-IsHonest members c d (vote_step env v req named free quiet) seats honest =
    vote-IsHonest members env v req c named free quiet honest
Step-IsHonest members c d (append_step env v req) seats honest =
    Follows-IsHonest c d (Step-Follows members c d (append_step env v req)) refl refl honest
Step-IsHonest members c d (answer_step env v r before after p resp at cut from in_time) seats
      honest =
    Follows-IsHonest c d
      (Step-Follows members c d (answer_step env v r before after p resp at cut from in_time)) refl
      refl honest
Step-IsHonest members c d (conclude_step env v r at) seats honest =
    Follows-IsHonest c d (Step-Follows members c d (conclude_step env v r at)) refl refl honest
Step-IsHonest members c d (change_step v n moved) seats honest =
    Follows-IsHonest c d (Step-Follows members c d (change_step v n moved)) refl refl honest
