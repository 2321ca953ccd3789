-- ===== src/Raft/Heartbeat/Exchange.antt =====
-- internal/raft/node.go: one heartbeat to a peer that answers, `sendHeartbeats` and `HandleAppendEntries`.
use sky_lock.Common.{
  ℕ, ◌+◌, ◌^◌, ◌≤◌, ◌<◌, ◌≡◌, refl, sym, ap, ◌∙◌, inl, inr, Bool, true, false, some, [], Text,
  arith, Bool-cases, ltb, take, take_all, drop_all, get_elem?-some, drop-eq-cons, put,
}
use sky_lock.Raft.Log.{Log, last_index, term_at}
use sky_lock.Raft.Log.Numbering.{IsNumbered}
use sky_lock.Raft.State.{index_of, become_follower}
use sky_lock.Raft.Node.{Env, Node, reset_election_timer}
use sky_lock.Raft.Entries.{
  AppendEntriesRequest, AppendEntriesResponse, inconsistent, advance_commit, store_entries,
  store_from, handle_append_entries,
}
use sky_lock.Raft.Heartbeat.{append_request, record_refusal, on_append_response}
use sky_lock.Raft.Heartbeat.CatchUp.{
  request, request_prev, request_entries, request_prev_term, handle_at, heartbeat_replicates,
}

-- One heartbeat to a peer that answers: the leader and the peer after it, and whether it was accepted.
unfoldable pub exchange : Env → Text → Node → Node → (Node × Node) × Bool
exchange env peer leader follower =
    let term = leader.state.current_term in
    let req = append_request term peer leader in
    let (follower', resp) = handle_append_entries env req follower in
    ((on_append_response env term peer req.entries (some resp) leader, follower'), resp.success)

-- Where two logs have an entry of one term they have the same entries up to it.
abbrev pub Match : Log → Log → Type 0
Match l f =
    (p : ℕ)
    → p ≤ last_index l
    → p ≤ last_index f
    → term_at p f ≡ term_at p l
    → take p f.entries ≡ take p l.entries

abbrev pub HasTerms : Log → Type 0
HasTerms l = (p : ℕ) → 0 < p → p ≤ last_index l → 0 < term_at p l

refuse_at :
    (env : Env) (req : AppendEntriesRequest) (n : Node)
    → n.state.current_term ≤ req.term
    → inconsistent req n.state ≡ true
    → handle_append_entries env req n ≡ (
      record (reset_election_timer env n) {
        state = become_follower env.now req.term req.leader_id n.state;
      },
      record { term = req.term; success = false },
    )
unfolding handle_append_entries reset_election_timer become_follower inconsistent
refuse_at env req n current refused = ground (arith, refused)

accept_at :
    (env : Env) (req : AppendEntriesRequest) (n : Node)
    → n.state.current_term ≤ req.term
    → inconsistent req n.state ≡ false
    → req.entries ≡ []
    → let (n', resp) = handle_append_entries env req n in
      (n'.state.log ≡ n.state.log) × (resp ≡ record { term = req.term; success = true })
unfolding handle_append_entries reset_election_timer store_entries advance_commit become_follower
    store_from inconsistent
accept_at env req n current consistent no_entries = ground (arith, consistent, no_entries)

term_at_past : (p : ℕ) (l : Log) → last_index l < p → term_at p l ≡ 0
unfolding term_at last_index
term_at_past p l h = ground (arith, h)

module _ (p : ℕ) (peer : Text) (leader follower : Node) (small : p + 1 < 2 ^ 64)
    (next : index_of peer leader.state.next_index ≡ p + 1) (fits : p ≤ last_index leader.state.log)
    (terms : HasTerms leader.state.log) (matches : Match leader.state.log follower.state.log) where
  abbrev req : AppendEntriesRequest
  req = request p peer leader

  -- A request that passes the consistency test finds the leader's entries before its own.
  pub consistent_agrees :
      inconsistent req follower.state ≡ false
      → (p ≤ last_index follower.state.log)
        × (take p follower.state.log.entries ≡ take p leader.state.log.entries)
  unfolding inconsistent
  consistent_agrees consistent =
      let prev = request_prev p peer leader next small in
      let prev_term = request_prev_term p peer leader next small in
      let at_prev : term_at req.prev_log_index follower.state.log ≡ term_at p follower.state.log =
        ap (λ k. term_at k follower.state.log) prev in
      elim (Bool-cases (ltb 0 p)) [
        | inl some_before ↦
            let same : term_at p follower.state.log ≡ term_at p leader.state.log =
              ground (arith, consistent, prev, prev_term, at_prev, some_before) in
            let positive = terms p (ground (arith, some_before)) fits in
            let inside : p ≤ last_index follower.state.log =
              ground (arith, same, positive, term_at_past p follower.state.log) in
            (inside, matches p fits inside same)
        | inr none_before ↦
            let zero_ : p ≡ 0 = ground (arith, none_before) in (omega (arith, zero_), rw zero_ refl)
      ]

  -- A refusal comes at a positive previous index only.
  pub refused_positive : inconsistent req follower.state ≡ true → 0 < p
  unfolding inconsistent
  refused_positive refused =
      let prev = request_prev p peer leader next small in ground (arith, refused, prev)

  abbrev pub moved_back : Node
  moved_back = record leader {
    state = record (leader.state) { next_index = put peer p leader.state.next_index };
  }

  abbrev pub stepped : Env → Node
  stepped env = record (reset_election_timer env follower) {
    state = become_follower env.now req.term req.leader_id follower.state;
  }

  pub exchange_refused :
      (env : Env)
      → follower.state.current_term ≤ leader.state.current_term
      → inconsistent req follower.state ≡ true
      → exchange env peer leader follower ≡ ((moved_back, stepped env), false)
  unfolding exchange append_request on_append_response record_refusal
  exchange_refused env current refused =
      let answer = refuse_at env req follower current refused in
      let positive = refused_positive refused in ground (arith, answer, positive, next)

  -- What an accepted exchange leaves: the peer has the leader's log first, and the leader its own.
  abbrev Accepted : Env → Type 0
  Accepted env =
      let ((leader', follower'), accepted) = exchange env peer leader follower in
      (accepted ≡ true)
      × (take (last_index leader.state.log) follower'.state.log.entries ≡ leader.state.log.entries)

  pub exchange-Accepted :
      (env : Env)
      → IsNumbered leader.state.log
      → last_index leader.state.log + 1 < 2 ^ 64
      → follower.state.current_term ≤ leader.state.current_term
      → inconsistent req follower.state ≡ false
      → Accepted env
  unfolding exchange append_request
  exchange-Accepted env numbered below current consistent =
      let (inside, agree) = consistent_agrees consistent in
      let log = leader.state.log in
      let es = request_entries p peer leader next small in
      elim (Bool-cases (ltb p (last_index log))) [
        | inl more ↦
            let more' : p < last_index log = ground (arith, more) in
            let (entry, found) = get_elem?-some p log.entries (unfold last_index in more') in
            let first = drop-eq-cons p log.entries entry found in
            let done =
              heartbeat_replicates env env peer p leader follower numbered below next more' inside
                agree current in
            let (_, answer) = handle_at env req entry _ follower current consistent (es ∙ first) in
            (
              ap (λ (r : AppendEntriesResponse). r.success) answer,
              ap (λ (l : Log). take (last_index log) l.entries) done.0
                  ∙ take_all (last_index log) log.entries (unfold last_index in omega arith),
            )
        | inr all ↦
            let whole : p ≡ last_index log = ground (arith, all, fits) in
            let nothing = es ∙ drop_all p log.entries (unfold last_index in omega (arith, whole)) in
            let (kept, answer) = accept_at env req follower current consistent nothing in
            (
              ap (λ (r : AppendEntriesResponse). r.success) answer,
              ap (λ (l : Log). take (last_index log) l.entries) kept
                  ∙ ap (λ k. take k follower.state.log.entries) (sym whole)
                  ∙ agree
                  ∙ take_all p log.entries (unfold last_index in omega (arith, whole)),
            )
      ]
