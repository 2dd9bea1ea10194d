-- ===== src/Events/Tests.antt =====
-- The theorems on events, with events of the mouse and of keys at times that are natural numbers.
use libs_gui.Base.{ℕ, ◌≡◌, refl, pos, true, false, [], ◌∷◌, none, ltb, arith}
use libs_gui.Events.Types.{event_mask_from_type, overlaps}
use libs_gui.Events.Record.{Event, Common, event_with, mouse, key, tracking, enter_exit_event}
use libs_gui.Events.Created.{
  Created, tracked, misreads, ask_event_number, is_cursor_number, misreads-Created,
}
use libs_gui.Events.Queue.{Round, returned, get_event_matching_mask, discard_events, matches}
use libs_gui.Events.Waiting.{AtEnd, AllAtEnd, first_event, get_event_matching_mask_lem}
use libs_gui.Events.Discard.{kept, discard_events_lem}
use libs_gui.Events.Missed.{
  NoneMatches, posting_at_start, out_of_time, get_event_matching_mask-misses,
}
use libs_gui.Events.Ignored.{discards_mouse_event, discards_mouse_event-never}

abbrev in_window : Common ℕ
in_window = record { location = (3, 4); flags = 0; time = 7; window = pos 1; context = 5 }

abbrev key_down_event : Event ℕ
key_down_event = event_with 10 in_window (key false 40 41 42)

abbrev click_event : Event ℕ
click_event = event_with 1 in_window (mouse (pos 1) (pos 2) (pos 0) 1 0 0 0)

abbrev posting_click : Round ℕ
posting_click = record {
  posts = record { event = click_event; at_start = false } ∷ [];
  ran = true;
  before_limit = true;
}

abbrev cursor_event : Event ℕ
cursor_event = event_with 17 in_window (tracking (pos 6) (pos 43) 44)

cursor_event-Created : Created cursor_event
unfolding enter_exit_event
cursor_event-Created = tracked 17 in_window (pos 6) (pos 43) 44 cursor_event (omega arith) refl

misreads-Created_example :
    misreads 0 ask_event_number cursor_event ≡ is_cursor_number ask_event_number cursor_event
misreads-Created_example = misreads-Created 0 ask_event_number cursor_event cursor_event-Created

get_event_matching_mask_lem_example :
    get_event_matching_mask 2 true (posting_click ∷ []) (key_down_event ∷ [])
    ≡ first_event 2 true (posting_click ∷ []) (key_down_event ∷ [])
unfolding AllAtEnd AtEnd
get_event_matching_mask_lem_example =
    get_event_matching_mask_lem 2 true (posting_click ∷ []) (key_down_event ∷ []) ((refl, tt), tt)

discard_events_lem_example :
    discard_events ltb 0x400 click_event (key_down_event ∷ [])
    ≡ kept ltb 0x400 7 (key_down_event ∷ [])
discard_events_lem_example = discard_events_lem ltb 0x400 click_event (key_down_event ∷ [])

keys_only : NoneMatches 2 (key_down_event ∷ [])
unfolding NoneMatches matches overlaps event_mask_from_type
keys_only = (refl, tt)

get_event_matching_mask-misses_example :
    get_event_matching_mask 2 true
      (posting_at_start click_event ∷ out_of_time ∷ [])
      (key_down_event ∷ [])
    ≡ returned none (click_event ∷ key_down_event ∷ [])
get_event_matching_mask-misses_example =
    get_event_matching_mask-misses 2 true click_event (key_down_event ∷ []) refl (omega arith)
      keys_only

discards_mouse_event-never_example : discards_mouse_event true 1 ≡ false
discards_mouse_event-never_example = discards_mouse_event-never true 1 (omega arith)
