-- ===== src/Transport/Codec.antt =====
-- internal/transport/grpc.go and internal/raft/node.go: the vote requests of a candidate over calls
-- that all fail. The messages are not values of proto.Message, which is what the default codec of
-- google.golang.org/grpc marshals; the `invoke` of that library then returns an error.
use sky_lock.Common.{
  ℕ, ◌≡◌, ◌≢◌, refl, Option, none, some, List, [], ◌∷◌, Text, Result, ok, err, length, arith,
}
use sky_lock.Raft.State.{leader}
use sky_lock.Raft.Node.{Env, Node}
use sky_lock.Raft.Vote
use sky_lock.Raft.Election.{begin_election, run_candidate, answered}
use sky_lock.Raft.Election.Majority.{granted, run_candidate-leader_iff}
use sky_lock.Transport.{
  Transport, VoteRequest, VoteResponse, vote_message, get_connection, request_vote,
}

-- An error of the transport is no answer.
abbrev pub response : Result Text Vote.VoteResponse → Option Vote.VoteResponse
response (err e) = none
response (ok resp) = some resp

module _ {ℓ} {C : Type ℓ} (dial : Text → Result Text C)
    (invoke : C → VoteRequest → Result Text VoteResponse) where
  -- What the goroutines of `runCandidate` get, in the order in which they ask.
  abbrev pub ask_peers :
      Env → Vote.VoteRequest → List Text → Transport C → List (Env × Option Vote.VoteResponse)
  ask_peers env req [] t = []
  ask_peers env req (peer ∷ rest) t =
      let (t', r) = request_vote dial invoke peer req t in
      (env, response r) ∷ ask_peers env req rest t'

  -- Every call fails.
  abbrev pub Refuses : Type ℓ
  Refuses = (conn : C) (m : VoteRequest) → (e : Text) × (invoke conn m ≡ err e)

  module _ (refuses : Refuses) (env : Env) (req : Vote.VoteRequest) where
    no_response :
        (peer : Text) (t : Transport C) → response (request_vote dial invoke peer req t).1 ≡ none
    unfolding request_vote
    no_response peer t = by_connection (get_connection dial peer t).1 refl
      where
        by_connection :
            (r : Result Text C)
            → (get_connection dial peer t).1 ≡ r
            → response (request_vote dial invoke peer req t).1 ≡ none
        by_connection (err e) at = rw (at, request_vote) refl
        by_connection (ok conn) at =
            let (e, failed) = refuses conn (vote_message req) in rw (at, request_vote, failed) refl

    none_granted :
        (term : ℕ) (order : List Text) (t : Transport C)
        → granted term (ask_peers env req order t) ≡ 0
    none_granted term [] t = refl
    none_granted term (peer ∷ rest) t =
        let (t', _) = request_vote dial invoke peer req t in
        let rest_none = none_granted term rest t' in
        rw (no_response peer t) (omega (arith, rest_none))

  -- When every call over the transport fails, a candidate that has a peer does not become leader,
  -- in whatever order it asks and whatever the request says.
  pub run_candidate-request_vote :
      Refuses
      → (env env' : Env) (req : Vote.VoteRequest) (order : List Text) (t : Transport C) (n : Node)
      → n.peers ≢ []
      → (run_candidate env (ask_peers env req order t) (answered env') n).state.role ≢ leader
  run_candidate-request_vote refuses env env' req order t n named won =
      let rs = ask_peers env req order t in
      let few = none_granted refuses env req (begin_election env n).1 order t in
      let most = (run_candidate-leader_iff env env' rs n).0 won in
      absurd (named (no_peers n.peers (omega (arith, few, most))))
    where
      no_peers : (xs : List Text) → length xs ≡ 0 → xs ≡ []
      no_peers [] h = refl
      no_peers (x ∷ xs) h = absurd (omega (arith, h))
