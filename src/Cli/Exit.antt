-- ===== src/Cli/Exit.antt =====
-- cmd/skylockctl/main.go: the exit status.
use sky_lock.Common.{
  ℕ, ◌<◌, ◌≤◌, ◌≡◌, ◌⊎◌, inl, inr, refl, List, Text, leb, Result, ok, err, arith, Bool-cases,
}
use sky_lock.Client.{Request}
use sky_lock.Cli.{shown, Report, Action, refuse, send, do_request, perform, dispatch, main, Finish}

module _ (exchange : Text → Request → Result Text (ℕ × Text)) (usage server : Text) where
  -- A command succeeds when its request is answered with a status below 400, and prints what its report says
  -- of the answer; it fails with status 1 when it sends none, when there is no answer, and for any other status.
  abbrev pub Exits : Action → Finish → Type 0
  Exits (refuse message) f = (f.status ≡ 1) × (f.output ≡ message)
  Exits (send req report) f =
      ((f.status ≡ 0)
        × (status : ℕ) × (answer : Text) × (exchange server req ≡ ok (status, answer))
        × (status < 400)
        × (f.output ≡ shown report answer))
      ⊎ ((f.status ≡ 1)
          × (((e : Text) × (exchange server req ≡ err e))
              ⊎ ((status : ℕ) × (answer : Text) × (exchange server req ≡ ok (status, answer))
                  × (400 ≤ status))))

  abbrev status_of : Request → Report → ℕ
  status_of req report = (perform exchange server (send req report)).status

  answered :
      (req : Request) (report : Report) (r : Result Text (ℕ × Text))
      → exchange server req ≡ r
      → Exits (send req report) (perform exchange server (send req report))
  unfolding perform do_request
  answered req report (err e) at =
      let fails : status_of req report ≡ 1 = ground (arith, at) in inr (fails, inl (e, at))
  answered req report (ok (status, answer)) at = elim (Bool-cases (leb 400 status)) [
    | inl refused ↦
        let fails : status_of req report ≡ 1 = ground (arith, at, refused) in
        inr (fails, inr (status, answer, at, ground (arith, refused)))
    | inr fine ↦
        let works : status_of req report ≡ 0 = ground (arith, at, fine) in
        let printed : (perform exchange server (send req report)).output ≡ shown report answer =
          ground (arith, at, fine) in
        inl (works, status, answer, at, ground (arith, fine), printed)
  ]

  -- A command of skylockctl that is refused exits with status 1 and prints its message. Any other
  -- sends one request: it exits with status 0 and prints what its report says when the answer has
  -- a status below 400, and exits with status 1 when there is no answer and for every status from
  -- 400 on.
  pub main_lem : (args : List Text) → Exits (dispatch usage args) (main exchange usage server args)
  unfolding main
  main_lem args = by_action (dispatch usage args)
    where
      by_action : (a : Action) → Exits a (perform exchange server a)
      by_action (refuse message) = (refl, refl)
      by_action (send req report) = answered req report (exchange server req) refl
