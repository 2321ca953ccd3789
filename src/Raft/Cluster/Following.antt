-- ===== src/Raft/Cluster/Following.antt =====
-- internal/raft/node.go: what the nodes of a cluster keep, over the events.
use mathlib.Core.List.{Mem}
use sky_lock.Common.{
  ℕ, ◌+◌, ◌≡◌, ◌≢◌, refl, sym, subst, ◌∙◌, inl, inr, List, [], Text, str_eq, str_eq_iff, Bool-cases,
}
use sky_lock.Raft.Node.{Node}
use sky_lock.Raft.Election.{vote_for_self}
use sky_lock.Raft.Entries.{handle_append_entries}
use sky_lock.Raft.Cluster.{
  Cluster, assign, open_candidacy, begin, vote, accept, answer, conclude, change,
}
use sky_lock.Raft.Cluster.Weights.{total}
use sky_lock.Raft.Cluster.Keeping.{
  Keeps, Quiet-Keeps, open_election-Quiet, vote_for_self-Keeps, on_vote_response-Quiet,
  conclude_election-Quiet, Change-Quiet, handle_request_vote-Keeps, handle_append_entries-Keeps,
  heard_after,
}
use sky_lock.Raft.Cluster.Steps.{
  Step, open_step, begin_step, vote_step, append_step, answer_step, conclude_step, change_step,
}

-- A property of what is at each place of a family of which one place has changed.
pub assign_elim {ℓ κ} :
    {A : Type ℓ} (P : Text → A → Type κ) (v : Text) (a : A) (f : Text → A)
    → P v a
    → ((x : Text) → P x (f x))
    → (x : Text) → P x (assign v a f x)
assign_elim P v a f hit miss x = elim (Bool-cases (str_eq v x)) [
  | inl here ↦ rw here (subst (λ y. P y a) ((str_eq_iff v x).0 here) hit)
  | inr away ↦ rw away (miss x)
]

-- The nodes go on, and what they have voted stays.
abbrev pub Follows : Cluster → Cluster → Type 0
Follows c d = (x : Text) → Keeps (c.opening x) (c.node x) (d.node x) (c.heard x) (d.heard x)

-- An event in which one node moves.
module _ (c : Cluster) (v : Text) (n : Node) where
  Keeps-self : (x : Text) → Keeps (c.opening x) (c.node x) (c.node x) (c.heard x) (c.heard x)
  Keeps-self x =
      Quiet-Keeps (c.opening x) (c.node x) (c.node x) (c.heard x)
        (record { id = refl; peers = refl; votes = inr (refl, refl) })

  abbrev Moves : Text → Node → Type 0
  Moves x m = Keeps (c.opening x) (c.node x) m (c.heard x) (c.heard x)

  moves :
      Keeps (c.opening v) (c.node v) n (c.heard v) (c.heard v)
      → (x : Text) → Moves x (assign v n c.node x)
  moves k = assign_elim Moves v n c.node k Keeps-self

pub Step-Follows : (members : List Text) (c d : Cluster) → Step members c d → Follows c d
unfolding open_candidacy begin vote accept answer conclude change
Step-Follows members c d (open_step v seated small) =
    moves c v _ (Quiet-Keeps _ _ _ _ (open_election-Quiet (c.node v) small))
Step-Follows members c d (begin_step env v term seated opened) = moves c v _ (
    subst (λ o. Keeps o (c.node v) (vote_for_self env (c.node v)) (c.heard v) (c.heard v))
      (sym opened) (vote_for_self-Keeps env term (c.node v) (c.heard v)))
Step-Follows members c d (vote_step env v req named free quiet) =
    moves c v _ (handle_request_vote-Keeps (c.opening v) env req (c.node v) (c.heard v) named free)
Step-Follows members c d (append_step env v req) =
    let n = (handle_append_entries env req (c.node v)).0 in
    let h = heard_after req (c.node v) (c.heard v) in
    let k = handle_append_entries-Keeps (c.opening v) env req (c.node v) (c.heard v) in
    λ x. elim (Bool-cases (str_eq v x)) [
      | inl here ↦
          rw here (
            subst (λ y. Keeps (c.opening y) (c.node y) n (c.heard y) h) ((str_eq_iff v x).0 here) k)
      | inr away ↦ rw away (Keeps-self c v (c.node v) x)
    ]
Step-Follows members c d (answer_step env v r before after p resp at cut from in_time) =
    moves c v _
      (Quiet-Keeps _ _ _ _ (on_vote_response-Quiet env r.term resp (c.node v) r.votes in_time))
Step-Follows members c d (conclude_step env v r at) =
    moves c v _ (Quiet-Keeps _ _ _ _ (conclude_election-Quiet env (c.node v) r.votes))
Step-Follows members c d (change_step v n moved) =
    moves c v n (Quiet-Keeps _ _ _ _ (Change-Quiet (c.node v) n moved))

-- The addresses stay with their nodes.
pub Step-owner : (members : List Text) (c d : Cluster) → Step members c d → d.owner ≡ c.owner
unfolding open_candidacy begin vote accept answer conclude change
Step-owner members c d (open_step v seated small) = refl
Step-owner members c d (begin_step env v term seated opened) = refl
Step-owner members c d (vote_step env v req named free quiet) = refl
Step-owner members c d (append_step env v req) = refl
Step-owner members c d (answer_step env v r before after p resp at cut from in_time) = refl
Step-owner members c d (conclude_step env v r at) = refl
Step-owner members c d (change_step v n moved) = refl

-- Every member bears its name, and its peers are the addresses of the other members.
abbrev pub IsSeated : List Text → Cluster → Type 0
IsSeated members c =
    (v : Text)
    → Mem v members
    → ((c.node v).id ≡ v)
      × (v ≢ [])
      × ((w : Text → ℕ) → w v + total (λ p. w (c.owner p)) (c.node v).peers ≡ total w members)

pub Step-IsSeated :
    (members : List Text) (c d : Cluster)
    → Step members c d
    → IsSeated members c
    → IsSeated members d
Step-IsSeated members c d step seats v member =
    let k = Step-Follows members c d step v in
    let (id, named, all) = seats v member in
    (k.id ∙ id, named, λ w. rw (k.peers, Step-owner members c d step) (all w))
