-- ===== src/Events/Missed.antt =====
-- An event at the begin of the queue that the search in Source/GSDisplayServer.m has passed already.
use libs_gui.Base.{
  ℕ, zero, suc, ◌+◌, ◌≡◌, ◌<◌, refl, Bool, true, false, List, [], ◌∷◌, none, ◌==◌, ltb, length,
  get_elem?, drop, arith,
}
use libs_gui.Events.Types.{any_event_mask}
use libs_gui.Events.Record.{Event}
use libs_gui.Events.Queue.{
  Round, returned, post_event, post_all, matches, scan, look, found_or, get_event_from,
  get_event_matching_mask,
}

module _ {F : Type 0} where
  -- The mask matches no event of the queue.
  unfoldable pub NoneMatches : ℕ → List (Event F) → Type 0
  NoneMatches mask [] = Unit {0}
  NoneMatches mask (e ∷ rest) = (matches mask e ≡ false) × NoneMatches mask rest

  scan-NoneMatches : (mask : ℕ) (l : List (Event F)) → NoneMatches mask l → scan mask l ≡ length l
  unfolding scan NoneMatches
  scan-NoneMatches mask [] h = refl
  scan-NoneMatches mask (e ∷ rest) (now, later) = rw (now, scan-NoneMatches mask rest later) refl

  drop-NoneMatches :
      (mask n : ℕ) (l : List (Event F)) → NoneMatches mask l → NoneMatches mask (drop n l)
  unfolding NoneMatches
  drop-NoneMatches mask zero l h = h
  drop-NoneMatches mask (suc n) [] h = tt
  drop-NoneMatches mask (suc n) (e ∷ rest) (now, later) = drop-NoneMatches mask n rest later

  get_elem?-length : (l : List (Event F)) → get_elem? l (length l) ≡ none
  get_elem?-length [] = refl
  get_elem?-length (e ∷ rest) = get_elem?-length rest

  look-NoneMatches :
      (mask pos : ℕ) (l : List (Event F))
      → (mask == any_event_mask) ≡ false
      → pos < length l
      → NoneMatches mask (drop pos l)
      → look mask pos l ≡ (none, pos + length (drop pos l))
  unfolding look
  look-NoneMatches mask pos l special more h =
      let not_empty : (length l == 0) ≡ false = ground arith in
      let before_end : ltb pos (length l) ≡ true = ground arith in
      rw
        (
          not_empty,
          special,
          before_end,
          scan-NoneMatches mask (drop pos l) h,
          get_elem?-length (drop pos l),
        )
        refl

  abbrev pub posting_at_start : Event F → Round F
  posting_at_start e = record {
    posts = record { event = e; at_start = true } ∷ [];
    ran = true;
    before_limit = true;
  }

  abbrev pub out_of_time : Round F
  out_of_time = record { posts = []; ran = true; before_limit = false }

  -- Where the mask matches no event of a queue that is not empty, and the run loop then posts an event at
  -- the start of the queue, the search does not find it, whatever it is: it goes on behind it, and where
  -- nothing else comes returns nil at the limit date, with the event in the queue.
  pub get_event_matching_mask-misses :
      (mask : ℕ) (dequeue : Bool) (e : Event F) (queue : List (Event F))
      → (mask == any_event_mask) ≡ false
      → 0 < length queue
      → NoneMatches mask queue
      → get_event_matching_mask mask dequeue (posting_at_start e ∷ out_of_time ∷ []) queue
        ≡ returned none (e ∷ queue)
  unfolding get_event_matching_mask get_event_from post_all post_event found_or NoneMatches
  get_event_matching_mask-misses mask dequeue e [] special some_event h = absurd (omega arith)
  get_event_matching_mask-misses mask dequeue e (x ∷ rest) special some_event h =
      let start : 0 + length (x ∷ rest) ≡ suc (length rest) = omega arith in
      rw
        (
          look-NoneMatches mask 0 (x ∷ rest) special (omega arith) h,
          start,
          look-NoneMatches mask (suc (length rest)) (e ∷ x ∷ rest) special (omega arith)
              (drop-NoneMatches mask (length rest) (x ∷ rest) h),
        )
        refl
