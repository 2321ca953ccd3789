-- ===== src/Raft/Cluster/Honest.antt =====
-- internal/raft/node.go: the votes that the nodes of a cluster have given, over events without a vote.
use sky_lock.Common.{
  ℕ, ◌<◌, ◌≤◌, ◌≡◌, ◌≢◌, sym, ap, subst, ◌∙◌, inl, inr, true, Option, some, Option-cases, [], Text,
  arith,
}
use sky_lock.Raft.Cluster.{Cluster, assign}
use sky_lock.Raft.Cluster.Weights.{has_voted}
use sky_lock.Raft.Cluster.Keeping.{Bound, Earlier}
use sky_lock.Raft.Cluster.Following.{Follows, assign_elim}

-- Every vote given binds its voter, which has given no other in the term.
pub record IsHonest (c : Cluster) : Type 0 where
  pub bound :
      (v x : Text) (t : ℕ) → has_voted v x t c.ballots ≡ true → Bound x t (c.node v) (c.heard v)
  pub once :
      (v x y : Text) (t : ℕ)
      → has_voted v x t c.ballots ≡ true
      → has_voted v y t c.ballots ≡ true
      → x ≡ y
  pub named : (v x : Text) (t : ℕ) → has_voted v x t c.ballots ≡ true → x ≢ []
  pub heard : (v : Text) → c.heard v ≤ (c.node v).state.current_term
  pub fresh :
      (v : Text) (u : ℕ)
      → c.opening v ≡ some u
      → (u ≤ (c.node v).state.current_term)
        × ((x : Text) (t : ℕ) → has_voted v x t c.ballots ≡ true → t < u)

-- The votes of a node that has opened an election are of earlier terms.
pub votes_earlier :
    (c : Cluster) (v x : Text) (t : ℕ)
    → IsHonest c
    → has_voted v x t c.ballots ≡ true
    → Earlier (c.opening v) t (c.node v)
votes_earlier c v x t honest h = elim (Option-cases (c.opening v)) [
  | inl shut ↦ rw shut tt
  | inr (u, opened) ↦ let (le, votes) = honest.fresh v u opened in rw opened (votes x t h, le)
]

pub Follows-IsHonest :
    (c d : Cluster)
    → Follows c d
    → d.ballots ≡ c.ballots
    → d.opening ≡ c.opening
    → IsHonest c
    → IsHonest d
Follows-IsHonest c d k same as_open honest = record {
  bound = λ v x t h.
      let was = ap (has_voted v x t) (sym same) ∙ h in
      (k v).bound x t (honest.named v x t was) (votes_earlier c v x t honest was)
        (honest.bound v x t was);
  once = λ v x y t h h'.
      honest.once v x y t (ap (has_voted v x t) (sym same) ∙ h)
        (ap (has_voted v y t) (sym same) ∙ h');
  named = λ v x t h. honest.named v x t (ap (has_voted v x t) (sym same) ∙ h);
  heard = λ v. (k v).heard (honest.heard v);
  fresh = λ v u opened.
      let (le, votes) =
        honest.fresh v u (ap (λ (o : Text → Option ℕ). o v) (sym as_open) ∙ opened) in
      let rises = (k v).rises in
      (omega (arith, le, rises), λ x t h. votes x t (ap (has_voted v x t) (sym same) ∙ h));
}

-- The node becomes a candidate: its votes are of the terms that it has left.
pub opening-IsHonest :
    (c : Cluster) (v : Text) (u : ℕ)
    → u ≤ (c.node v).state.current_term
    → ((x : Text) (t : ℕ) → has_voted v x t c.ballots ≡ true → t < u)
    → IsHonest c
    → IsHonest (record c { opening = assign v (some u) c.opening })
opening-IsHonest c v u le votes honest = record {
  bound = honest.bound;
  once = honest.once;
  named = honest.named;
  heard = honest.heard;
  fresh =
      assign_elim Fresh v (some u) c.opening
        (λ u' e. let same : u ≡ u' = ground (arith, e) in subst IsFresh same (le, votes))
        honest.fresh;
}
  where
    IsFresh : ℕ → Type 0
    IsFresh t =
        (t ≤ (c.node v).state.current_term)
        × ((x : Text) (t' : ℕ) → has_voted v x t' c.ballots ≡ true → t' < t)

    Fresh : Text → Option ℕ → Type 0
    Fresh y o =
        (t : ℕ)
        → o ≡ some t
        → (t ≤ (c.node y).state.current_term)
          × ((x : Text) (t' : ℕ) → has_voted y x t' c.ballots ≡ true → t' < t)
