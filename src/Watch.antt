-- ===== src/Watch.antt =====
-- internal/watch/watcher.go: the manager of the watches and their event channels.
pub mod Removal
pub mod Delivery
use sky_lock.Common.{
  ℕ, ◌+◌, Bool, true, false, not, ◌&&◌, Option, none, some, List, [], ◌∷◌, ◌++◌, ltb, ◌==◌,
  if◌then◌else◌, length, Text, text, str_eq, Map, lookup, put, delete,
}

pub data EventType : Type 0 where
  event_created event_deleted event_data_changed event_children_changed : EventType

-- `String`; an EventType is one of the four constants.
unfoldable pub event_name : EventType → Text
event_name event_created = text "Created"
event_name event_deleted = text "Deleted"
event_name event_data_changed = text "DataChanged"
event_name event_children_changed = text "ChildrenChanged"

pub record Event : Type 0 where
  pub id : Text
  pub kind : EventType
  pub path : Text
  pub payload : List ℕ
  pub version : ℕ

-- `EventCh` is the channel that the manager keeps under the watcher's identifier.
pub record Watcher : Type 0 where
  pub id : Text
  pub path : Text
  pub persistent : Bool
  pub triggered : Bool

-- A channel with room for ten events: what waits in it, and whether it is closed.
pub record Channel : Type 0 where
  pub waiting : List Event
  pub closed : Bool

pub record Manager : Type 0 where
  pub watchers : Map (List Watcher)
  pub channels : Map Channel

unfoldable pub new_manager : Manager
new_manager = record { watchers = []; channels = [] }

-- m.watchers[path], which is nil for a path without watchers.
unfoldable pub watchers_at : Text → Map (List Watcher) → List Watcher
watchers_at path m = elim (lookup path m) [ none ↦ [] | some ws ↦ ws ]

-- `Watch`, with the identifier that uuid.New gives.
unfoldable pub watch : Text → Text → Bool → Manager → Manager × Watcher
unfolding watchers_at
watch id path persistent m =
    let watcher : Watcher = record {
      id = id;
      path = path;
      persistent = persistent;
      triggered = false;
    } in
    (
      record {
        watchers = put path (watchers_at path m.watchers ++ watcher ∷ []) m.watchers;
        channels = put id (record { waiting = []; closed = false }) m.channels;
      },
      watcher,
    )

-- close(w.EventCh)
unfoldable pub close : Text → Map Channel → Map Channel
close id channels = elim (lookup id channels) [
  | none ↦ channels
  | some channel ↦ put id (record channel { closed = true }) channels
]

-- The loop that cuts the first watcher with an identifier out of the slice.
unfoldable pub cut_watcher : Text → List Watcher → Option (List Watcher)
cut_watcher id [] = none
cut_watcher id (w ∷ rest) =
    let cut : Option (List Watcher) = elim (cut_watcher id rest) [
      | none ↦ none
      | some ws ↦ some (w ∷ ws)
    ] in
    if str_eq w.id id then some rest else cut

-- `Clean up empty paths`
unfoldable pub clean_up : Text → List Watcher → Map (List Watcher) → Map (List Watcher)
clean_up path [] m = delete path m
clean_up path (w ∷ ws) m = put path (w ∷ ws) m

unfoldable pub unwatch : Watcher → Manager → Manager
unfolding close cut_watcher clean_up
unwatch watcher m = elim (lookup watcher.path m.watchers) [
  | none ↦ m
  | some ws ↦ elim (cut_watcher watcher.id ws) [
    | none ↦ record m { watchers = clean_up watcher.path ws m.watchers }
    | some left ↦ record {
      watchers = clean_up watcher.path left m.watchers;
      channels = close watcher.id m.channels;
    }
  ]
]

-- The `select` that drops the event when the channel is full. A channel is closed when its watcher is cut
-- out, so that none to which the code sends is closed.
unfoldable pub send : Event → Text → Map Channel → Map Channel
send event id channels = elim (lookup id channels) [
  | none ↦ channels
  | some channel ↦
      let sent : Channel = record channel { waiting = channel.waiting ++ event ∷ [] } in
      if ltb (length channel.waiting) 10 then put id sent channels else channels
]

-- The first loop of `TriggerEvent`: the watchers, the channels and the identifiers in toRemove.
unfoldable pub visit : Event → List Watcher → Map Channel → List Watcher × Map Channel × List Text
unfolding send
visit event [] channels = ([], channels, [])
visit event (w ∷ ws) channels =
    let (ws', channels', to_remove) = visit event ws (send event w.id channels) in
    let marked : Watcher = record w { triggered = true } in
    if not w.persistent && not w.triggered
    then (marked ∷ ws', channels', w.id ∷ to_remove)
    else (w ∷ ws', channels', to_remove)

-- `Remove one-time watches`
unfoldable pub remove_all : List Text → List Watcher → Map Channel → List Watcher × Map Channel
unfolding close cut_watcher
remove_all [] ws channels = (ws, channels)
remove_all (id ∷ ids) ws channels = elim (cut_watcher id ws) [
  | none ↦ remove_all ids ws channels
  | some left ↦ remove_all ids left (close id channels)
]

-- `TriggerEvent`, with the identifier that uuid.New gives.
unfoldable pub trigger_event : Text → Event → Manager → Manager
unfolding visit remove_all clean_up
trigger_event id unnamed m =
    let event : Event = record unnamed { id = id } in
    elim (lookup event.path m.watchers) [
      | none ↦ m
      | some ws ↦
          let (ws', channels', to_remove) = visit event ws m.channels in
          let (left, channels'') = remove_all to_remove ws' channels' in
          record { watchers = clean_up event.path left m.watchers; channels = channels'' }
    ]

unfoldable pub trigger_create : Text → Text → List ℕ → ℕ → Manager → Manager
unfolding trigger_event
trigger_create id path payload version =
    trigger_event id
      (record { id = []; kind = event_created; path = path; payload = payload; version = version })

unfoldable pub trigger_delete : Text → Text → Manager → Manager
unfolding trigger_event
trigger_delete id path =
    trigger_event id
      (record { id = []; kind = event_deleted; path = path; payload = []; version = 0 })

unfoldable pub trigger_data_change : Text → Text → List ℕ → ℕ → Manager → Manager
unfolding trigger_event
trigger_data_change id path payload version = trigger_event id (record {
  id = [];
  kind = event_data_changed;
  path = path;
  payload = payload;
  version = version;
})

unfoldable pub trigger_children_change : Text → Text → Manager → Manager
unfolding trigger_event
trigger_children_change id path =
    trigger_event id
      (record { id = []; kind = event_children_changed; path = path; payload = []; version = 0 })

unfoldable pub get_watch_count : Text → Manager → ℕ
get_watch_count path m = elim (lookup path m.watchers) [ none ↦ 0 | some ws ↦ length ws ]

-- The loop of `GetTotalWatchCount`.
unfoldable pub total : Map (List Watcher) → ℕ
total [] = 0
total ((path, ws) ∷ rest) = length ws + total rest

unfoldable pub get_total_watch_count : Manager → ℕ
unfolding total
get_total_watch_count m = total m.watchers
