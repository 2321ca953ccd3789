-- ===== src/Raft/Heartbeat/Retry.antt =====
-- internal/raft/node.go: heartbeats to one peer until one is accepted.
use sky_lock.Common.{
  ℕ, zero, suc, ◌+◌, ◌-◌, ◌^◌, ◌≤◌, ◌<◌, ◌≡◌, ap, ◌∙◌, inl, inr, Bool, true, false, Option, none,
  some, Text, arith, Bool-cases, take, str_eq_refl,
}
use sky_lock.Raft.Log.{last_index}
use sky_lock.Raft.Log.Numbering.{IsNumbered}
use sky_lock.Raft.State.{index_of, become_follower}
use sky_lock.Raft.Node.{Env, Node, reset_election_timer}
use sky_lock.Raft.Entries.{inconsistent}
use sky_lock.Raft.Heartbeat.{append_request}
use sky_lock.Raft.Heartbeat.CatchUp.{index_of-put, request}
use sky_lock.Raft.Heartbeat.Exchange.{
  exchange, Match, HasTerms, moved_back, stepped, refused_positive, exchange_refused,
  exchange-Accepted,
}

-- Heartbeats until one is accepted, or `none` when the fuel is used up.
unfoldable pub catch_up : ℕ → Env → Text → Node → Node → Option (Node × Node)
catch_up zero env peer leader follower = none
catch_up (suc fuel) env peer leader follower =
    let ((leader', follower'), accepted) = exchange env peer leader follower in
    elim accepted [
      | true ↦ some (leader', follower')
      | false ↦ catch_up fuel env peer leader' follower'
    ]

-- What a round of the loop does after its exchange.
abbrev resume : ℕ → Env → Text → (Node × Node) × Bool → Option (Node × Node)
resume fuel env peer r = elim r.1 [ true ↦ some r.0 | false ↦ catch_up fuel env peer r.0.0 r.0.1 ]

-- A leader with a numbered log below 2^64 whose entries have positive terms, and a peer that is
-- not in a later term and whose log has the leader's entries up to every entry of one term with
-- the leader's: heartbeats, each with the answer of the peer, come to one that is accepted, as
-- many as the peer's next index is high at most, and the peer's log then begins with the leader's
-- whole log.
pub catch_up_terminates :
    (fuel : ℕ) (env : Env) (peer : Text) (p : ℕ) (leader follower : Node)
    → IsNumbered leader.state.log
    → last_index leader.state.log + 1 < 2 ^ 64
    → HasTerms leader.state.log
    → Match leader.state.log follower.state.log
    → follower.state.current_term ≤ leader.state.current_term
    → index_of peer leader.state.next_index ≡ p + 1
    → p ≤ last_index leader.state.log
    → p < fuel
    → (leader' : Node) × (follower' : Node) × (catch_up fuel env peer leader follower
        ≡ some (leader', follower'))
      × (take (last_index leader.state.log) follower'.state.log.entries ≡ leader.state.log.entries)
unfolding catch_up reset_election_timer become_follower append_request
catch_up_terminates zero env peer p leader follower numbered below terms matches current next fits
      enough =
    absurd (omega arith)
catch_up_terminates (suc fuel) env peer p leader follower numbered below terms matches current next
      fits enough =
    let small : p + 1 < 2 ^ 64 = omega arith in
    let r = request p peer leader in
    let ((leader', follower'), accepted) = exchange env peer leader follower in
    elim (Bool-cases (inconsistent r follower.state)) [
      | inl refused ↦
          let back = moved_back p peer leader follower small next fits terms matches in
          let step = stepped p peer leader follower small next fits terms matches env in
          let turn =
            exchange_refused p peer leader follower small next fits terms matches env current
              refused in
          let positive =
            refused_positive p peer leader follower small next fits terms matches refused in
          let moved : index_of peer back.state.next_index ≡ (p - 1) + 1 =
            ground (
              arith,
              index_of-put peer peer p leader.state.next_index,
              str_eq_refl peer,
              positive,
            ) in
          let (l, f, run, got) =
            catch_up_terminates fuel env peer (p - 1) back step numbered below terms matches
              (omega arith) moved (omega arith) (omega (arith, positive)) in
          (l, f, ap (resume fuel env peer) turn ∙ run, got)
      | inr consistent ↦
          let (accepted_, got) =
            exchange-Accepted p peer leader follower small next fits terms matches env numbered
              below current consistent in
          (
            leader',
            follower',
            ap (λ b. resume fuel env peer ((leader', follower'), b)) accepted_,
            got,
          )
    ]
