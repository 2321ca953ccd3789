-- ===== src/Examples/Holders.antt =====
-- internal/lock: a lock that is acquired once, as a sequence of events.
use sky_lock.Common.{◌≡◌, refl, false, [], Text, text, arith, pos, lookup, put, str_eq}
use sky_lock.Path.{
  normalize_path, parent_path, base_name, resolve, push_segment, split, join, dir_part, has_slash,
  has_prefix, last_segment,
}
use sky_lock.Path.Segments.{IsProper}
use sky_lock.Sequence.{format_sequence, itoa, itoa_loop, pad_left}
use sky_lock.Store.{
  Creation, create, place_node, insert_node, add_child, new_store, start, exists, get_children,
  sort_texts, insert_text,
}
use sky_lock.Store.Tree.{has_name}
use sky_lock.Lock.{
  Attempt, trim_prefix, try_lock, ensure_directory, contend, hold, check_lock_acquired,
}
use sky_lock.Lock.Exclusion.{
  Site, Reachable, here, next, create_step, try_step, new_site, with_store, after,
}
use sky_lock.Lock.Exclusion.Safety.{one_holder}

abbrev x : Text
x = text "x"

x_proper : IsProper x
unfolding has_slash
x_proper = record {
  whole = refl;
  not_empty = λ e. ground (arith, e);
  not_dot = λ e. ground (arith, e);
  not_dot_dot = λ e. ground (arith, e);
}

abbrev directory : Creation
directory = record { now = 7; payload = []; ephemeral = false; session_id = []; sequential = false }

abbrev attempt : Attempt
attempt = record { name = x; owner = text "o"; session_id = text "s"; timeout = pos 0; now = 8 }

abbrev ready : Site
ready = with_store (create directory (text "/locks") (new_store 5)).0 (new_site 5)

abbrev taken : Site
taken = after x (try_lock attempt ready.world) ready

abbrev ticket_one : Text
ticket_one = text "lock-0000000001"

taken-Reachable : Reachable x (new_site 5) taken
unfolding create place_node insert_node add_child new_store start normalize_path parent_path
    base_name resolve push_segment split join dir_part str_eq lookup put has_slash last_segment
taken-Reachable =
    next (next here (create_step directory (text "/locks") (λ e. ground (arith, e)) (omega arith)))
      (try_step attempt refl (omega arith))

one_holder_example : ticket_one ≡ ticket_one
unfolding create place_node insert_node add_child new_store start normalize_path parent_path
    base_name resolve push_segment split join dir_part str_eq lookup put format_sequence itoa
    itoa_loop pad_left exists get_children sort_texts insert_text trim_prefix has_prefix try_lock
    ensure_directory contend hold check_lock_acquired has_name has_slash last_segment
one_holder_example =
    one_holder x x_proper 5 taken ticket_one ticket_one taken-Reachable refl refl refl refl
