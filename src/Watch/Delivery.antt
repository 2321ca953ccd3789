-- ===== src/Watch/Delivery.antt =====
-- internal/watch/watcher.go: what waits in the event channels.
use sky_lock.Common.{
  ◌≡◌, refl, Bool, true, false, ◌&&◌, Option, none, some, inl, inr, Option-cases, List, [], ◌∷◌,
  ◌++◌, length, ltb, if◌then◌else◌, Text, str_eq, str_eq_iff, Map, lookup, lookup-put, arith,
}
use sky_lock.Watch.{
  Event, Watcher, Channel, Manager, watchers_at, cut_watcher, send, visit, close, remove_all,
  trigger_event,
}
use sky_lock.Watch.Removal.{has_id, IsFresh}

-- The events that wait for a watcher.
abbrev pub waiting : Option Channel → List Event
waiting none = []
waiting (some c) = c.waiting

abbrev pub has_channel : Option Channel → Bool
has_channel none = false
has_channel (some c) = true

abbrev pub waiting_at : Text → Map Channel → List Event
waiting_at id channels = waiting (lookup id channels)

-- A queue of at most ten events is offered one more.
abbrev pub offered : Event → List Event → List Event
offered event queue = if ltb (length queue) 10 then queue ++ event ∷ [] else queue

waiting_at-close :
    (id other : Text) (channels : Map Channel)
    → waiting_at other (close id channels) ≡ waiting_at other channels
unfolding close
waiting_at-close id other channels = elim (Option-cases (lookup id channels)) [
  | inl missing ↦ ground (arith, missing)
  | inr (c, there) ↦
      ground (
        arith,
        there,
        str_eq_iff id other,
        lookup-put id other (record c { closed = true }) channels,
      )
]

waiting_at-remove_all :
    (id : Text) (ids : List Text) (ws : List Watcher) (channels : Map Channel)
    → waiting_at id (remove_all ids ws channels).1 ≡ waiting_at id channels
unfolding remove_all
waiting_at-remove_all id [] ws channels = refl
waiting_at-remove_all id (i ∷ ids) ws channels = elim (Option-cases (cut_watcher i ws)) [
  | inl missing ↦ ground (arith, missing, waiting_at-remove_all id ids ws channels)
  | inr (left, found) ↦ ground (
    arith,
    found,
    waiting_at-remove_all id ids left (close i channels),
    waiting_at-close i id channels,
  )
]

lookup-send :
    (event : Event) (id other : Text) (channels : Map Channel)
    → (waiting_at other (send event id channels) ≡ (
        if str_eq id other && has_channel (lookup other channels)
        then offered event (waiting_at other channels)
        else waiting_at other channels))
      × (has_channel (lookup other (send event id channels)) ≡ has_channel (lookup other channels))
unfolding send
lookup-send event id other channels = elim (Option-cases (lookup id channels)) [
  | inl missing ↦ ground (arith, missing, str_eq_iff id other)
  | inr (c, there) ↦
      let sent : Channel = record c { waiting = c.waiting ++ event ∷ [] } in
      ground (arith, there, str_eq_iff id other, lookup-put id other sent channels)
]

waiting_at-visit :
    (event : Event) (id : Text) (ws : List Watcher) (channels : Map Channel)
    → IsFresh ws
    → waiting_at id (visit event ws channels).1 ≡ (
        if has_id id ws && has_channel (lookup id channels)
        then offered event (waiting_at id channels)
        else waiting_at id channels)
unfolding visit has_id IsFresh
waiting_at-visit event id [] channels fresh = refl
waiting_at-visit event id (w ∷ ws) channels (here, untouched, fresh) = ground (
  arith,
  here,
  str_eq_iff w.id id,
  lookup-send event w.id id channels,
  waiting_at-visit event id ws (send event w.id channels) fresh,
)

-- TriggerEvent, when the watches of the event's path have different identifiers and none of them
-- has been triggered, puts the event, with its new identifier, last in the channel of each of them
-- that has fewer than ten events waiting. A full channel, and the channel of any other watcher,
-- keep what they have.
pub trigger_event-waiting :
    (id : Text) (event : Event) (m : Manager) (watcher_id : Text)
    → IsFresh (watchers_at event.path m.watchers)
    → waiting_at watcher_id (trigger_event id event m).channels ≡ (
        if has_id watcher_id (watchers_at event.path m.watchers)
          && has_channel (lookup watcher_id m.channels)
        then offered (record event { id = id }) (waiting_at watcher_id m.channels)
        else waiting_at watcher_id m.channels)
unfolding trigger_event watchers_at has_id
trigger_event-waiting id event m watcher_id fresh =
    elim (Option-cases (lookup event.path m.watchers)) [
      | inl missing ↦ ground (arith, missing)
      | inr (ws, there) ↦
          let named : Event = record event { id = id } in
          let (marked, channels, to_remove) = visit named ws m.channels in
          ground (
            arith,
            there,
            waiting_at-remove_all watcher_id to_remove marked channels,
            waiting_at-visit named watcher_id ws m.channels,
            fresh,
          )
    ]
