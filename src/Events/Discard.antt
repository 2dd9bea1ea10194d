-- ===== src/Events/Discard.antt =====
-- The events that Source/GSDisplayServer.m discards from its queue, and those that its search passes over.
use libs_gui.Base.{
  ℕ, zero, suc, ◌*◌, ◌/◌, ◌%◌, ◌^◌, ◌<◌, ◌==◌, ◌&&◌, ◌||◌, true, false, not, arith, ◌≡◌, refl, ap,
  ◌∙◌, Bool, List, [], ◌∷◌, Option, none, some, if◌then◌else◌, length, get_elem?, Bool-cases, inl,
  inr,
}
use Prim.Native.Nat.{bit_and}
use libs_gui.Flags.Layout.{pow_pos}
use libs_gui.Cells.FirstWord.{masked}
use libs_gui.Events.Types.{overlaps, event_mask_from_type}
use libs_gui.Events.Kinds.{if-not}
use libs_gui.Events.Record.{Event}
use libs_gui.Events.Queue.{matches, is_discarded, discard_at, discard_from, discard_events}

-- A product is 0 where a factor is, if the other is not.
scaled : (b p : ℕ) → 0 < p → not (b * p == 0) ≡ not (b == 0)
scaled zero p h = ground arith
scaled (suc b) p h = ground arith

both :
    (before any_type unset : Bool)
    → (before && (any_type || not unset))
      ≡ not (if before then (if any_type then false else unset) else true)
both true true unset = refl
both true false unset = refl
both false any_type unset = refl

module _ {F : Type 0} (earlier : F → F → Bool) (mask : ℕ) where
  -- Whether an event stays: it was not created before the time, or the mask has no bit for its type and is
  -- not the one for any event.
  unfoldable pub stays : F → Event F → Bool
  stays when e =
      if earlier e.event_time when
      then (if mask == 0xffffffff then false else mask / 2 ^ e.event_type % 2 == 0)
      else true

  -- The events that stay, in their order.
  unfoldable pub kept : F → List (Event F) → List (Event F)
  kept when [] = []
  kept when (e ∷ rest) = let later = kept when rest in if stays when e then e ∷ later else later

  -- The mask `&` the bit of a type, read from the bit.
  overlaps-event_mask_from_type :
      (type : ℕ) → overlaps mask (event_mask_from_type type) ≡ not (mask / 2 ^ type % 2 == 0)
  unfolding overlaps event_mask_from_type
  overlaps-event_mask_from_type type =
      let one : bit_and mask (2 ^ type) ≡ mask / 2 ^ type % 2 * 2 ^ type =
        masked type (2 ^ type) mask refl in
      rw one (scaled (mask / 2 ^ type % 2) (2 ^ type) (pow_pos type))

  is_discarded-stays :
      (when : F) (e : Event F) → is_discarded earlier mask when e ≡ not (stays when e)
  unfolding is_discarded stays matches
  is_discarded-stays when e =
      rw (overlaps-event_mask_from_type e.event_type)
        (both (earlier e.event_time when) (mask == 0xffffffff) (mask / 2 ^ e.event_type % 2 == 0))

  cons-discard_at :
      (when : F) (o : Option (Event F)) (index : ℕ) (e : Event F) (queue : List (Event F))
      → discard_at earlier mask when o (suc index) (e ∷ queue)
        ≡ e ∷ discard_at earlier mask when o index queue
  unfolding discard_at
  cons-discard_at when none index e queue = refl
  cons-discard_at when (some x) index e queue =
      elim (Bool-cases (is_discarded earlier mask when x)) [
        | inl yes_it ↦ rw yes_it refl
        | inr no_it ↦ rw no_it refl
      ]

  -- The first event is looked at last.
  cons-discard_from :
      (when : F) (count : ℕ) (e first : Event F) (events queue : List (Event F))
      → discard_from earlier mask when (suc count) (e ∷ events) (first ∷ queue)
        ≡ discard_at earlier mask when
            (some e)
            0
            (first ∷ discard_from earlier mask when count events queue)
  unfolding discard_from
  cons-discard_from when zero e first events queue = refl
  cons-discard_from when (suc count) e first events queue =
      rw (cons-discard_at when (get_elem? events count) count first queue)
        (cons-discard_from when count e first events _)

  discard_from_lem :
      (when : F) (queue : List (Event F))
      → discard_from earlier mask when (length queue) queue queue ≡ kept when queue
  unfolding discard_from kept discard_at
  discard_from_lem when [] = refl
  discard_from_lem when (e ∷ rest) =
      cons-discard_from when (length rest) e e rest rest
      ∙ ap (λ l. discard_at earlier mask when (some e) 0 (e ∷ l)) (discard_from_lem when rest)
      ∙ rw (is_discarded-stays when e) (if-not (stays when e) _ _)

  -- The method discards exactly the events whose time is earlier than that of the given one and for whose
  -- type the mask has its bit set, or all of that time for the mask NSAnyEventMask; the others stay in
  -- their order.
  pub discard_events_lem :
      (limit : Event F) (queue : List (Event F))
      → discard_events earlier mask limit queue ≡ kept limit.event_time queue
  unfolding discard_events
  discard_events_lem limit queue = discard_from_lem limit.event_time queue
