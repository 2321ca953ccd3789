-- ===== src/Cli.antt =====
-- cmd/skylockctl/main.go: the command line, from the arguments that are left of the flags to what is
-- printed and the exit status. `exchange` is as in the client library.
pub mod Exit
use sky_lock.Common.{
  ℕ, ◌≡◌, Bool, true, false, Option, none, some, List, [], ◌∷◌, ◌++◌, Text, text, str_eq, leb,
  if◌then◌else◌, Result, ok, err, pos, negsuc,
}
use sky_lock.Sequence.{itoa}
use sky_lock.Client.{
  Json, json_string, json_number, json_boolean, Request, session_request, close_request,
  node_request, lock_request, unlock_request,
}

-- What a successful command prints: the answer's body or a sentence.
pub data Report : Type 0 where
  body : Report
  sentence : Text → Report

-- A command is refused with what is printed, or sends a request.
pub data Action : Type 0 where
  refuse : Text → Action
  send : Request → Report → Action

abbrev plain_request : Text → Text → Request
plain_request method path = record { method = method; path = path; body = none }

unfoldable pub get_leader : Action
get_leader = send (plain_request (text "GET") (text "/v1/cluster/leader")) body

unfoldable pub get_status : Action
get_status = send (plain_request (text "GET") (text "/v1/cluster/status")) body

unfoldable pub create_session : Text → Action
create_session client_id = send (session_request client_id) body

unfoldable pub heartbeat : Text → Action
heartbeat session_id =
    send (plain_request (text "POST") (text "/v1/session/" ++ session_id ++ text "/heartbeat")) body

unfoldable pub close_session : Text → Action
close_session session_id = send (close_request session_id) (sentence (text "Session closed"))

unfoldable pub get_node : Text → Action
get_node path = send (node_request (text "GET") path none) body

unfoldable pub create_node : Text → Text → Bool → Text → Action
create_node path payload ephemeral session_id =
    send
      (node_request (text "PUT") path (
        some (
          (text "data", json_string payload)
          ∷ (text "ephemeral", json_boolean ephemeral)
          ∷ (text "session_id", json_string session_id)
          ∷ [])))
      body

unfoldable pub set_node : Text → Text → Action
set_node path payload =
    send
      (node_request (text "POST") path
        (some ((text "data", json_string payload) ∷ (text "version", json_number (negsuc 0)) ∷ [])))
      body

unfoldable pub delete_node : Text → Action
delete_node path = send (node_request (text "DELETE") path none) (sentence (text "Node deleted"))

unfoldable pub get_children : Text → Action
get_children path = send (plain_request (text "GET") (text "/v1/children/" ++ path)) body

unfoldable pub acquire_lock : Text → Text → Text → Action
acquire_lock name session_id owner = send (lock_request name owner session_id (pos 30000)) body

unfoldable pub release_lock : Text → Text → Action
release_lock name lock_id = send (unlock_request name lock_id) (sentence (text "Lock released"))

unfoldable pub get_lock_info : Text → Action
get_lock_info name = send (plain_request (text "GET") (text "/v1/locks/" ++ name)) body

-- A command that needs one argument or two, and its usage.
abbrev with_one : Text → (Text → Action) → List Text → Action
with_one usage f [] = refuse usage
with_one usage f (a ∷ rest) = f a

abbrev with_two : Text → (Text → Text → Action) → List Text → Action
with_two usage f [] = refuse usage
with_two usage f (a ∷ []) = refuse usage
with_two usage f (a ∷ b ∷ rest) = f a b

unfoldable pub run_session : List Text → Action
unfolding create_session heartbeat close_session
run_session [] = refuse (text "Usage: skylockctl session <create|heartbeat|close> [args]")
run_session (cmd ∷ args) =
    if str_eq cmd (text "create")
    then with_one (text "Usage: skylockctl session create <client-id>") create_session args
    else if str_eq cmd (text "heartbeat")
    then with_one (text "Usage: skylockctl session heartbeat <session-id>") heartbeat args
    else if str_eq cmd (text "close")
    then with_one (text "Usage: skylockctl session close <session-id>") close_session args
    else refuse (text "Unknown session command: " ++ cmd)

unfoldable pub run_create : List Text → Action
unfolding create_node
run_create [] = refuse (text "Usage: skylockctl create <path> [data]")
run_create (path ∷ []) = create_node path [] false []
run_create (path ∷ payload ∷ rest) = create_node path payload false []

unfoldable pub run_lock : List Text → Action
unfolding acquire_lock
run_lock [] = refuse (text "Usage: skylockctl lock <name> <session-id> [owner]")
run_lock (name ∷ []) = refuse (text "Usage: skylockctl lock <name> <session-id> [owner]")
run_lock (name ∷ session_id ∷ []) = acquire_lock name session_id (text "cli")
run_lock (name ∷ session_id ∷ owner ∷ rest) = acquire_lock name session_id owner

-- `usage` is what printUsage prints.
unfoldable pub run_command : Text → Text → List Text → Action
unfolding get_leader get_status run_session get_node run_create set_node delete_node get_children
    run_lock release_lock get_lock_info
run_command usage cmd args =
    if str_eq cmd (text "leader")
    then get_leader
    else if str_eq cmd (text "status")
    then get_status
    else if str_eq cmd (text "session")
    then run_session args
    else if str_eq cmd (text "get")
    then with_one (text "Usage: skylockctl get <path>") get_node args
    else if str_eq cmd (text "create")
    then run_create args
    else if str_eq cmd (text "set")
    then with_two (text "Usage: skylockctl set <path> <data>") set_node args
    else if str_eq cmd (text "delete")
    then with_one (text "Usage: skylockctl delete <path>") delete_node args
    else if str_eq cmd (text "children")
    then with_one (text "Usage: skylockctl children <path>") get_children args
    else if str_eq cmd (text "lock")
    then run_lock args
    else if str_eq cmd (text "unlock")
    then with_two (text "Usage: skylockctl unlock <name> <lock-id>") release_lock args
    else if str_eq cmd (text "lockinfo")
    then with_one (text "Usage: skylockctl lockinfo <name>") get_lock_info args
    else refuse (text "Unknown command: " ++ cmd ++ text "\n" ++ usage)

unfoldable pub dispatch : Text → List Text → Action
unfolding run_command
dispatch usage [] = refuse usage
dispatch usage (cmd ∷ args) = run_command usage cmd args

-- The exit status, and what is printed to each stream.
pub record Finish : Type 0 where
  pub status : ℕ
  pub output : Text
  pub errors : Text

abbrev pub shown : Report → Text → Text
shown body answer = answer
shown (sentence s) answer = s

module _ (exchange : Text → Request → Result Text (ℕ × Text)) where
  unfoldable pub do_request : Text → Request → Result Text Text
  do_request base_url req = elim (exchange base_url req) [
    | err e ↦ err e
    | ok (status, answer) ↦
        if leb 400 status
        then err (text "HTTP " ++ itoa status ++ text ": " ++ answer)
        else ok answer
  ]

  -- Each line that is printed is given without the line's end.
  unfoldable pub perform : Text → Action → Finish
  unfolding do_request
  perform base_url (refuse message) = record { status = 1; output = message; errors = [] }
  perform base_url (send req report) = elim (do_request base_url req) [
    | err e ↦ record { status = 1; output = []; errors = text "Error: " ++ e }
    | ok answer ↦ record { status = 0; output = shown report answer; errors = [] }
  ]

  unfoldable pub main : Text → Text → List Text → Finish
  unfolding dispatch perform
  main usage server args = perform server (dispatch usage args)
