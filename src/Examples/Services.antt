-- ===== src/Examples/Services.antt =====
-- internal/session and internal/watch: the managers at work.
use sky_lock.Common.{
  ◌≡◌, refl, true, false, none, [], ◌∷◌, text, pos, lookup, put, str_eq, if◌then◌else◌, IsFlat,
  ◌&&◌,
}
use sky_lock.Session
use sky_lock.Session.Expiration.{alive, expired_in, check_expirations_lem}
use sky_lock.Watch
use sky_lock.Watch.Removal.{IsFresh, has_id, persistent_of, trigger_event-persistent_of}
use sky_lock.Watch.Delivery.{waiting_at, has_channel, offered, trigger_event-waiting}

abbrev sessions : Session.Manager
sessions = Session.set_on_expire (Session.new_manager (pos 30) (pos 60))

-- One session, from time 10.
abbrev pub mine : Session.Session
mine = record {
  id = text "s";
  client_id = text "client";
  created_at = 10;
  last_heartbeat = 10;
  ttl = pos 60;
  ephemeral_keys = [];
}

abbrev pub one_session : Session.Manager
one_session = record {
  sessions = (text "s", mine) ∷ [];
  default_ttl = pos 30;
  max_ttl = pos 60;
  on_expire = true;
}

check_expirations_lem_example :
    let (m', calls) = Session.check_expirations 100 one_session in
    (Session.get (text "s") m' ≡ (
      if alive 100 (Session.get (text "s") one_session)
      then Session.get (text "s") one_session
      else none))
    × (calls ≡ expired_in 100 one_session.sessions)
unfolding IsFlat lookup
check_expirations_lem_example = check_expirations_lem 100 (text "s") one_session (refl, tt)

-- A one-time and a persistent watch of "/a".
abbrev watches : Watch.Manager
watches =
    (Watch.watch (text "w2") (text "/a") true
      (Watch.watch (text "w1") (text "/a") false Watch.new_manager).0).0

abbrev change : Watch.Event
change = record {
  id = [];
  kind = Watch.event_data_changed;
  path = text "/a";
  payload = [];
  version = 2;
}

watches-IsFresh : IsFresh (Watch.watchers_at (text "/a") watches.watchers)
unfolding IsFresh has_id Watch.watchers_at Watch.watch Watch.new_manager lookup put str_eq
watches-IsFresh = (refl, refl, (refl, refl, tt))

trigger_event-persistent_of_example :
    Watch.watchers_at (text "/a") (Watch.trigger_event (text "e") change watches).watchers ≡ (
      if str_eq (text "/a") (text "/a")
      then persistent_of (Watch.watchers_at (text "/a") watches.watchers)
      else Watch.watchers_at (text "/a") watches.watchers)
trigger_event-persistent_of_example =
    trigger_event-persistent_of (text "e") (text "/a") change watches watches-IsFresh

trigger_event-waiting_example :
    waiting_at (text "w1") (Watch.trigger_event (text "e") change watches).channels ≡ (
      if has_id (text "w1") (Watch.watchers_at (text "/a") watches.watchers)
        && has_channel (lookup (text "w1") watches.channels)
      then offered (record change { id = text "e" }) (waiting_at (text "w1") watches.channels)
      else waiting_at (text "w1") watches.channels)
trigger_event-waiting_example =
    trigger_event-waiting (text "e") change watches (text "w1") watches-IsFresh
