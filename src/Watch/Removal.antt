-- ===== src/Watch/Removal.antt =====
-- internal/watch/watcher.go, `TriggerEvent`: the watches that go and those that stay.
use sky_lock.Common.{
  ◌≡◌, refl, Bool, false, ◌||◌, inl, inr, Option-cases, List, [], ◌∷◌, if◌then◌else◌, Text, str_eq,
  str_eq_iff, str_eq_refl, Map, lookup, lookup-put, lookup-delete, arith,
}
use sky_lock.Watch.{
  Event, Watcher, Channel, Manager, watchers_at, cut_watcher, clean_up, send, visit, close,
  remove_all, trigger_event,
}

unfoldable pub has_id : Text → List Watcher → Bool
has_id id [] = false
has_id id (w ∷ ws) = str_eq w.id id || has_id id ws

-- Identifiers differ, and no watcher in the slice has been triggered.
unfoldable pub IsFresh : List Watcher → Type 0
IsFresh [] = Unit
IsFresh (w ∷ ws) = (has_id w.id ws ≡ false) × (w.triggered ≡ false) × IsFresh ws

unfoldable pub persistent_of : List Watcher → List Watcher
persistent_of [] = []
persistent_of (w ∷ ws) = let rest = persistent_of ws in if w.persistent then w ∷ rest else rest

has_text : Text → List Text → Bool
has_text id [] = false
has_text id (i ∷ ids) = str_eq i id || has_text id ids

-- A watcher that is not named stays at the head.
remove_all-cons :
    (w : Watcher) (ids : List Text) (ws : List Watcher) (channels : Map Channel)
    → has_text w.id ids ≡ false
    → (remove_all ids (w ∷ ws) channels).0 ≡ w ∷ (remove_all ids ws channels).0
unfolding remove_all cut_watcher has_text
remove_all-cons w [] ws channels h = refl
remove_all-cons w (id ∷ ids) ws channels h = elim (Option-cases (cut_watcher id ws)) [
  | inl missing ↦
      ground (
        arith,
        missing,
        h,
        str_eq_iff w.id id,
        str_eq_iff id w.id,
        remove_all-cons w ids ws channels,
      )
  | inr (left, found) ↦ ground (
    arith,
    found,
    h,
    str_eq_iff w.id id,
    str_eq_iff id w.id,
    remove_all-cons w ids left (close id channels),
  )
]

has_text-visit :
    (id : Text) (event : Event) (ws : List Watcher) (channels : Map Channel)
    → has_id id ws ≡ false
    → has_text id (visit event ws channels).2 ≡ false
unfolding has_id has_text visit
has_text-visit id event [] channels h = refl
has_text-visit id event (w ∷ ws) channels h =
    ground (arith, h, has_text-visit id event ws (send event w.id channels))

remove_all-visit :
    (event : Event) (ws : List Watcher) (channels channels' : Map Channel)
    → IsFresh ws
    → (let (marked, _, to_remove) = visit event ws channels in
        (remove_all to_remove marked channels').0 ≡ persistent_of ws)
unfolding visit remove_all cut_watcher persistent_of IsFresh
remove_all-visit event [] channels channels' fresh = refl
remove_all-visit event (w ∷ ws) channels channels' (here, untouched, fresh) =
    let sent = send event w.id channels in
    let (marked, _, to_remove) = visit event ws sent in
    ground (
      arith,
      untouched,
      str_eq_refl w.id,
      has_text-visit w.id event ws sent here,
      remove_all-cons w to_remove marked channels',
      remove_all-visit event ws sent channels' fresh,
      remove_all-visit event ws sent (close w.id channels') fresh,
    )

watchers_at-clean_up :
    (path other : Text) (ws : List Watcher) (m : Map (List Watcher))
    → watchers_at other (clean_up path ws m)
      ≡ (if str_eq path other then ws else watchers_at other m)
unfolding watchers_at clean_up
watchers_at-clean_up path other [] m = ground (arith, lookup-delete path other m)
watchers_at-clean_up path other (w ∷ ws) m = ground (arith, lookup-put path other (w ∷ ws) m)

-- TriggerEvent, when the watches of the event's path have different identifiers and none of them
-- has been triggered, leaves the persistent ones there, in their order, and no others: a one-time
-- watch does not see a second event. The watches of every other path stay.
pub trigger_event-persistent_of :
    (id other : Text) (event : Event) (m : Manager)
    → IsFresh (watchers_at event.path m.watchers)
    → watchers_at other (trigger_event id event m).watchers ≡ (
        if str_eq event.path other
        then persistent_of (watchers_at event.path m.watchers)
        else watchers_at other m.watchers)
unfolding trigger_event watchers_at persistent_of
trigger_event-persistent_of id other event m fresh =
    elim (Option-cases (lookup event.path m.watchers)) [
      | inl missing ↦ ground (arith, missing, str_eq_iff event.path other)
      | inr (ws, there) ↦
          let named : Event = record event { id = id } in
          let (marked, channels, to_remove) = visit named ws m.channels in
          let left = (remove_all to_remove marked channels).0 in
          ground (
            arith,
            there,
            watchers_at-clean_up event.path other left m.watchers,
            remove_all-visit named ws m.channels channels,
            fresh,
          )
    ]
