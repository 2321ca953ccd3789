-- ===== src/Raft/Heartbeat/CatchUp.antt =====
-- internal/raft/node.go: `sendHeartbeats` with `HandleAppendEntries` of the peer.
use mathlib.Core.Path.{ap₂}
use sky_lock.Common.{
  Bool, ℕ, zero, suc, ◌+◌, ◌^◌, ◌≤◌, ◌<◌, ◌≡◌, refl, sym, ap, subst, ◌∙◌, List, ◌∷◌, some, arith,
  length, take, drop, get_elem?, get_elem?-some, drop-eq-cons, length-drop, get_elem?-take, true,
  false, Text, Map, put, lookup-put, str_eq, str_eq_refl, if◌then◌else◌,
}
use sky_lock.Raft.Log.{LogEntry, Log, last_index, term_at, append_entries}
use sky_lock.Raft.Log.Numbering.{NumberedFrom, IsNumbered, NumberedFrom-drop}
use sky_lock.Raft.Log.Replication.{append_entries-entries_after, entries_after_lem}
use sky_lock.Raft.State.{State, index_of, become_follower}
use sky_lock.Raft.Node.{Env, Node, reset_election_timer}
use sky_lock.Raft.Entries.{
  AppendEntriesRequest, last_new_entry, store_entries, store_from, advance_commit, inconsistent,
  handle_append_entries,
}
use sky_lock.Raft.Entries.CommitIndex.{last_new_entry_lem}
use sky_lock.Raft.Heartbeat.{append_request, on_append_response}

pub index_of-put :
    (k j : Text) (v : ℕ) (m : Map ℕ)
    → index_of j (put k v m) ≡ (if str_eq k j then v else index_of j m)
unfolding index_of
index_of-put k j v m = ground (arith, lookup-put k j v m)

-- Logs that agree on their first entries agree on the term of the last of these.
term_at_of_take :
    (p : ℕ) (l f : Log)
    → p ≤ last_index l
    → p ≤ last_index f
    → take p f.entries ≡ take p l.entries
    → term_at p f ≡ term_at p l
unfolding term_at last_index
term_at_of_take zero l f hl hf agree = refl
term_at_of_take (suc p) l f hl hf agree =
    let same =
      sym (get_elem?-take (suc p) p f.entries (omega arith))
      ∙ ap (λ (es : List LogEntry). get_elem? es p) agree
      ∙ get_elem?-take (suc p) p l.entries (omega arith) in
    ground (arith, same)

-- The request at a next index of `p + 1`, and the facts about it that the receiver needs.
module _ (p : ℕ) (peer : Text) (leader : Node) where
  abbrev pub request : AppendEntriesRequest
  request = append_request leader.state.current_term peer leader

  module _ (next : index_of peer leader.state.next_index ≡ p + 1) (small : p + 1 < 2 ^ 64) where
    pub request_prev : request.prev_log_index ≡ p
    unfolding append_request
    request_prev = rw next (omega arith)

    pub request_entries : request.entries ≡ drop p leader.state.log.entries
    unfolding append_request
    request_entries =
        entries_after_lem request.prev_log_index leader.state.log
        ∙ ap (λ k. drop k leader.state.log.entries) request_prev

    pub request_prev_term : request.prev_log_term ≡ term_at p leader.state.log
    unfolding append_request
    request_prev_term = ap (λ k. term_at k leader.state.log) request_prev

    pub request_consistent :
        (follower : State)
        → p ≤ last_index leader.state.log
        → p ≤ last_index follower.log
        → take p follower.log.entries ≡ take p leader.state.log.entries
        → inconsistent request follower ≡ false
    unfolding inconsistent
    request_consistent follower hl hf agree =
        let same = term_at_of_take p leader.state.log follower.log hl hf agree in
        ground (
          arith,
          same,
          request_prev,
          request_prev_term,
          ap (λ k. term_at k follower.log) request_prev,
        )

pub handle_at :
    (env : Env) (req : AppendEntriesRequest) (entry : LogEntry) (rest : List LogEntry) (n : Node)
    → n.state.current_term ≤ req.term
    → inconsistent req n.state ≡ false
    → req.entries ≡ entry ∷ rest
    → let (n', resp) = handle_append_entries env req n in
      (n'.state.log ≡ (append_entries req.prev_log_index req.entries n.state.log).0)
      × (resp ≡ record { term = req.term; success = true })
unfolding handle_append_entries reset_election_timer store_entries advance_commit become_follower
    store_from inconsistent
handle_at env req entry rest n current consistent some_entries =
    ground (arith, consistent, some_entries)

-- What the leader records about a peer that has stored the whole log.
pub record UpToDate (peer : Text) (log : Log) (n : Node) : Type 0 where
  pub matched : index_of peer n.state.match_index ≡ last_index log
  pub next : index_of peer n.state.next_index ≡ last_index log + 1
  pub signalled : n.commit_signal ≡ true

on_append_response-UpToDate :
    (env : Env) (p : ℕ) (peer : Text) (entry : LogEntry) (n : Node) (es : List LogEntry)
    → es ≡ drop p n.state.log.entries
    → drop p n.state.log.entries ≡ entry ∷ drop (p + 1) n.state.log.entries
    → IsNumbered n.state.log
    → last_index n.state.log + 1 < 2 ^ 64
    → UpToDate peer n.state.log (
        on_append_response env n.state.current_term peer es
          (some (record { term = n.state.current_term; success = true }))
          n)
unfolding on_append_response last_index last_new_entry
on_append_response-UpToDate env p peer entry n es is_rest first numbered small =
    let xs = n.state.log.entries in
    let from : NumberedFrom p (drop p xs) =
      subst (λ k. NumberedFrom k (drop p xs)) (omega arith) (NumberedFrom-drop 0 p xs numbered) in
    let last : last_new_entry p (drop p xs) ≡ p + length (drop p xs) =
      last_new_entry_lem p (drop p xs) from in
    let len = length-drop p xs in
    let last' : last_new_entry p (entry ∷ drop (p + 1) xs) ≡ p + length (drop p xs) =
      sym (ap (last_new_entry p) first) ∙ last in
    let full = last_new_entry entry.index (drop (p + 1) xs) in
    ground (
      arith,
      first,
      last',
      index_of-put peer peer full n.state.match_index,
      index_of-put peer peer (full + 1) n.state.next_index,
      str_eq_refl peer,
    )

-- A heartbeat of a leader with a numbered log below 2^64, to a follower that is not in a later
-- term and that agrees with the leader on the entries before the next index, which the leader's
-- log goes past: the follower's log becomes the leader's, whatever it held beyond, and the leader
-- then knows that the peer has its whole log.
pub heartbeat_replicates :
    (env env' : Env) (peer : Text) (p : ℕ) (leader follower : Node)
    → IsNumbered leader.state.log
    → last_index leader.state.log + 1 < 2 ^ 64
    → index_of peer leader.state.next_index ≡ p + 1
    → p < last_index leader.state.log
    → p ≤ last_index follower.state.log
    → take p follower.state.log.entries ≡ take p leader.state.log.entries
    → follower.state.current_term ≤ leader.state.current_term
    → let term = leader.state.current_term in
      let req = append_request term peer leader in
      let (follower', resp) = handle_append_entries env req follower in
      (follower'.state.log ≡ leader.state.log)
      × UpToDate peer leader.state.log
          (on_append_response env' term peer req.entries (some resp) leader)
unfolding append_request
heartbeat_replicates env env' peer p leader follower numbered small next more fits agree current =
    let log = leader.state.log in
    let req = append_request leader.state.current_term peer leader in
    let (entry, found) = get_elem?-some p log.entries (unfold last_index in more) in
    let first = drop-eq-cons p log.entries entry found in
    let small' : p + 1 < 2 ^ 64 = omega arith in
    let es = request_entries p peer leader next small' in
    let consistent =
      request_consistent p peer leader next small' follower.state (omega arith) fits agree in
    let (stored, answer) =
      handle_at env req entry (drop (p + 1) log.entries) follower current consistent (es ∙ first) in
    let copied = append_entries-entries_after p log follower.state.log numbered fits agree in
    let prev = request_prev p peer leader next small' in
    let put_in = λ (k : ℕ) (e : List LogEntry). (append_entries k e follower.state.log).0 in
    (
      stored
          ∙ ap₂ put_in prev es
          ∙ ap (put_in p) (sym (entries_after_lem p log))
          ∙ ap (λ (r : Log × Bool). r.0) copied,
      subst
          (λ r.
            UpToDate peer log
              (on_append_response env' leader.state.current_term peer req.entries (some r) leader))
          (sym answer)
          (on_append_response-UpToDate env' p peer entry leader req.entries es first numbered
            small),
    )
