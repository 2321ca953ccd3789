-- ===== src/Store/Types.antt =====
-- internal/store/store.go: nodes, the store and its callbacks.
use sky_lock.Common.{ℕ, Bool, false, Option, none, some, List, [], ◌∷◌, Text, Map}
use sky_lock.Path.{root}

-- The last two are made where they are returned.
pub data StoreError : Type 0 where
  node_exists node_not_found version_mismatch not_empty invalid_path : StoreError
  ephemeral_parent root_deletion : StoreError

pub record Node : Type 0 where
  pub path : Text
  pub payload : List ℕ
  pub version : ℕ
  pub ephemeral : Bool
  pub session_id : Text
  pub sequential : Bool
  pub sequence : ℕ
  pub children : List Text
  pub create_time : ℕ
  pub modify_time : ℕ

-- The functions that the program registers as callbacks: `onNodeDeleted` of the lock manager, and the
-- closures over the watch manager in `main`.
pub data Listener : Type 0 where
  lock_manager watch_manager : Listener

pub data Notice : Type 0 where
  created updated : Text → Node → Notice
  deleted : Text → Notice

pub record Callbacks : Type 0 where
  pub on_create : Option Listener
  pub on_update : Option Listener
  pub on_delete : Option Listener

pub record Store : Type 0 where
  pub nodes : Map Node
  pub seq_counter : ℕ
  pub callbacks : Callbacks

abbrev pub Calls : Type 0
Calls = List (Listener × Notice)

-- `if callback != nil { go callback(…) }`
unfoldable pub start : Option Listener → Notice → Calls
start none notice = []
start (some listener) notice = (listener, notice) ∷ []

unfoldable pub new_store : ℕ → Store
new_store now = record {
  nodes =
      (
        root,
        record {
          path = root;
          payload = [];
          version = 0;
          ephemeral = false;
          session_id = [];
          sequential = false;
          sequence = 0;
          children = [];
          create_time = now;
          modify_time = now;
        },
      )
      ∷ [];
  seq_counter = 0;
  callbacks = record { on_create = none; on_update = none; on_delete = none };
}

unfoldable pub set_watch_callbacks : Callbacks → Store → Store
set_watch_callbacks callbacks s = record s { callbacks = callbacks }
