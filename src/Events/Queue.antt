-- ===== src/Events/Queue.antt =====
-- Source/GSDisplayServer.m: the queue of events, and Headers/Additions/GNUstepGUI/GSDisplayServer.h.
use libs_gui.Base.{
  ℕ, zero, suc, ◌+◌, Bool, true, false, ◌&&◌, ◌||◌, List, [], ◌∷◌, ◌++◌, Option, none, some,
  if◌then◌else◌, ◌==◌, ltb, length, get_elem?, erase_idx, insert_idx, drop,
}
use libs_gui.Events.Types.{event_mask_from_type, overlaps, any_event_mask}
use libs_gui.Events.Record.{Event}

-- An event that is posted while the run loop runs, and one run of the loop: what it posts, whether it
-- had an input to wait for, and whether the limit date is still to come.
pub record Post (F : Type 0) : Type 0 where
  pub event : Event F
  pub at_start : Bool

pub record Round (F : Type 0) : Type 0 where
  pub posts : List (Post F)
  pub ran : Bool
  pub before_limit : Bool

-- The event, or nil, and the queue; or the program waits in the run loop for good.
pub data Outcome (F : Type 0) : Type 0 where
  returned : Option (Event F) → List (Event F) → Outcome F
  waits : Outcome F

module _ {F : Type 0} where
  unfoldable pub post_event : Event F → Bool → List (Event F) → List (Event F)
  post_event e at_start queue = if at_start then insert_idx queue 0 e else queue ++ e ∷ []

  unfoldable pub post_all : List (Post F) → List (Event F) → List (Event F)
  post_all [] queue = queue
  post_all (p ∷ rest) queue = post_all rest (post_event p.event p.at_start queue)

  unfoldable pub matches : ℕ → Event F → Bool
  matches mask e = overlaps mask (event_mask_from_type e.event_type)

  -- The loop over the events from the position on: how many it passes.
  unfoldable pub scan : ℕ → List (Event F) → ℕ
  scan mask [] = 0
  scan mask (e ∷ rest) = let later = scan mask rest in if matches mask e then 0 else suc later

  -- The event that is found and the position reached, in one run of the loop over a queue.
  unfoldable pub look : ℕ → ℕ → List (Event F) → Option (Event F) × ℕ
  look mask pos queue =
      if length queue == 0
      then (none, pos)
      else if mask == any_event_mask
      then (get_elem? queue 0, pos)
      else if ltb pos (length queue)
      then (
        get_elem? (drop pos queue) (scan mask (drop pos queue)),
        pos + scan mask (drop pos queue),
      )
      else (none, pos)

  -- The return of an event, with the queue that is left, or what comes where there is none.
  unfoldable pub found_or : Option (Event F) → List (Event F) → Outcome F → Outcome F
  found_or (some e) queue otherwise = returned (some e) queue
  found_or none queue otherwise = otherwise

  unfoldable pub get_event_from : ℕ → Bool → ℕ → List (Round F) → List (Event F) → Outcome F
  get_event_from mask dequeue pos [] queue =
      let search = look mask pos queue in
      found_or search.0 (if dequeue then erase_idx queue search.1 else queue) waits
  get_event_from mask dequeue pos (round ∷ rest) queue =
      let search = look mask pos queue in
      let queue_after = post_all round.posts queue in
      let later = get_event_from mask dequeue search.1 rest queue_after in
      found_or search.0 (if dequeue then erase_idx queue search.1 else queue)
        (if round.ran && round.before_limit then later else returned none queue_after)

  -- `getEventMatchingMask:beforeDate:inMode:dequeue:`
  unfoldable pub get_event_matching_mask : ℕ → Bool → List (Round F) → List (Event F) → Outcome F
  get_event_matching_mask mask dequeue rounds queue = get_event_from mask dequeue 0 rounds queue

  unfoldable pub is_discarded : (F → F → Bool) → ℕ → F → Event F → Bool
  is_discarded earlier mask when e =
      earlier e.event_time when && ((mask == any_event_mask) || matches mask e)

  unfoldable pub discard_at :
      (F → F → Bool) → ℕ → F → Option (Event F) → ℕ → List (Event F) → List (Event F)
  discard_at earlier mask when none index queue = queue
  discard_at earlier mask when (some e) index queue =
      if is_discarded earlier mask when e then erase_idx queue index else queue

  -- The loop from the last event to the first, over the events as they were at the begin.
  unfoldable pub discard_from :
      (F → F → Bool) → ℕ → F → ℕ → List (Event F) → List (Event F) → List (Event F)
  discard_from earlier mask when zero events queue = queue
  discard_from earlier mask when (suc index) events queue =
      discard_from earlier mask when index events
        (discard_at earlier mask when (get_elem? events index) index queue)

  -- `discardEventsMatchingMask:beforeEvent:`, with the comparison of times.
  unfoldable pub discard_events : (F → F → Bool) → ℕ → Event F → List (Event F) → List (Event F)
  discard_events earlier mask limit queue =
      discard_from earlier mask limit.event_time (length queue) queue queue

  unfoldable pub dps_get_event : ℕ → List (Round F) → List (Event F) → Outcome F
  dps_get_event mask rounds queue = get_event_matching_mask mask true rounds queue

  unfoldable pub dps_peek_event : ℕ → List (Round F) → List (Event F) → Outcome F
  dps_peek_event mask rounds queue = get_event_matching_mask mask false rounds queue

  unfoldable pub dps_discard_events : (F → F → Bool) → ℕ → Event F → List (Event F) → List (Event F)
  dps_discard_events earlier mask limit queue = discard_events earlier mask limit queue

  unfoldable pub dps_post_event : Event F → Bool → List (Event F) → List (Event F)
  dps_post_event e at_start queue = post_event e at_start queue
