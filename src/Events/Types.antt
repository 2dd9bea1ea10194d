-- ===== src/Events/Types.antt =====
-- Headers/AppKit/NSEvent.h: the types of events and the masks of types.
use libs_gui.Base.{ℕ, ◌^◌, Bool, not, List, [], ◌∷◌, ◌==◌}
use Prim.Native.Nat.{bit_and, bit_or}

-- The constants of NSEventType; those with two names have one constructor.
pub data EventType : Type 0 where
  left_mouse_down left_mouse_up right_mouse_down right_mouse_up mouse_moved : EventType
  left_mouse_dragged right_mouse_dragged mouse_entered mouse_exited key_down : EventType
  key_up flags_changed app_kit_defined system_defined application_defined : EventType
  periodic cursor_update rotate begin_gesture end_gesture : EventType
  scroll_wheel tablet_point tablet_proximity other_mouse_down other_mouse_up : EventType
  other_mouse_dragged gesture magnify swipe smart_magnify : EventType
  quick_look pressure direct_touch change_mode : EventType

unfoldable pub type_number : EventType → ℕ
type_number left_mouse_down = 1
type_number left_mouse_up = 2
type_number right_mouse_down = 3
type_number right_mouse_up = 4
type_number mouse_moved = 5
type_number left_mouse_dragged = 6
type_number right_mouse_dragged = 7
type_number mouse_entered = 8
type_number mouse_exited = 9
type_number key_down = 10
type_number key_up = 11
type_number flags_changed = 12
type_number app_kit_defined = 13
type_number system_defined = 14
type_number application_defined = 15
type_number periodic = 16
type_number cursor_update = 17
type_number rotate = 18
type_number begin_gesture = 19
type_number end_gesture = 20
type_number scroll_wheel = 22
type_number tablet_point = 23
type_number tablet_proximity = 24
type_number other_mouse_down = 25
type_number other_mouse_up = 26
type_number other_mouse_dragged = 27
type_number gesture = 29
type_number magnify = 30
type_number swipe = 31
type_number smart_magnify = 32
type_number quick_look = 33
type_number pressure = 34
type_number direct_touch = 37
type_number change_mode = 38

-- `1 << type` of an int, for the types below 31. For the greater ones, from swipe on, C leaves the value
-- open.
unfoldable pub event_mask_from_type : ℕ → ℕ
event_mask_from_type type = 2 ^ type

-- The mask of a constant, NSLeftMouseDownMask of NSLeftMouseDown for example.
unfoldable pub type_mask : EventType → ℕ
type_mask t = 2 ^ type_number t

-- The masks of the constants, combined by `|`.
unfoldable pub masks : List EventType → ℕ
masks [] = 0
masks (t ∷ rest) = bit_or (type_mask t) (masks rest)

-- `mask & of`, as a condition.
unfoldable pub overlaps : ℕ → ℕ → Bool
overlaps mask of = not (bit_and mask of == 0)

abbrev pub any_event_mask : ℕ
any_event_mask = 0xffffffff

unfoldable pub key_event_mask : ℕ
key_event_mask = masks (key_down ∷ key_up ∷ flags_changed ∷ [])

unfoldable pub mouse_event_mask : ℕ
mouse_event_mask = masks (
    left_mouse_down ∷ left_mouse_up ∷ left_mouse_dragged ∷ right_mouse_down ∷ right_mouse_up
    ∷ right_mouse_dragged ∷ other_mouse_down ∷ other_mouse_up ∷ other_mouse_dragged ∷ mouse_moved
    ∷ scroll_wheel ∷ tablet_point ∷ tablet_proximity ∷ [])

unfoldable pub mouse_moved_event_mask : ℕ
mouse_moved_event_mask = masks (
    mouse_moved ∷ scroll_wheel ∷ left_mouse_dragged ∷ right_mouse_dragged ∷ other_mouse_dragged
    ∷ [])

unfoldable pub enter_exit_event_mask : ℕ
enter_exit_event_mask = masks (mouse_entered ∷ mouse_exited ∷ cursor_update ∷ [])

unfoldable pub other_event_mask : ℕ
other_event_mask = masks (app_kit_defined ∷ system_defined ∷ application_defined ∷ periodic ∷ [])

unfoldable pub tracking_loop_mask : ℕ
tracking_loop_mask = masks (
    left_mouse_down ∷ left_mouse_up ∷ left_mouse_dragged ∷ mouse_moved ∷ right_mouse_up
    ∷ other_mouse_up ∷ [])
