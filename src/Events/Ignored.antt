-- ===== src/Events/Ignored.antt =====
-- Source/NSWindow.m: the mouse events that a window ignores.
use libs_gui.Base.{all_below, ℕ, ◌<◌, ◌≡◌, refl, Bool, true, false, not, ◌&&◌, ◌==◌, arith}
use libs_gui.Events.Types.{event_mask_from_type, type_number, type_mask, masks, mouse_event_mask}
use libs_gui.Events.Kinds.{use_implication}

-- The test of `sendEvent:` for an event to discard.
unfoldable pub discards_mouse_event : Bool → ℕ → Bool
discards_mouse_event ignores_mouse_events type =
    ignores_mouse_events && (mouse_event_mask == event_mask_from_type type)

-- The test holds for no type of events below 31: a window that ignores mouse events discards none of them.
pub discards_mouse_event-never :
    (ignores_mouse_events : Bool) (type : ℕ)
    → type < 31
    → discards_mouse_event ignores_mouse_events type ≡ false
unfolding discards_mouse_event all_below event_mask_from_type masks type_mask type_number
    mouse_event_mask
discards_mouse_event-never false type small = refl
discards_mouse_event-never true type small =
    let other : not (mouse_event_mask == event_mask_from_type type) ≡ true =
      use_implication (λ t. true) (λ t. not (mouse_event_mask == event_mask_from_type t)) type refl
        small refl in
    ground (arith, other)
