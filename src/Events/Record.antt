-- ===== src/Events/Record.antt =====
-- Source/NSEvent.m: the object of an event, its creation and its accessors.
use libs_gui.Base.{ℕ, ℤ, pos, Bool, not, ◌&&◌, if◌then◌else◌, ◌==◌, Option, none, some}
use libs_gui.Events.Types.{
  event_mask_from_type, overlaps, key_event_mask, mouse_event_mask, other_event_mask,
}

-- The member of the union event_data that is in use. F is the type of the numbers in floating point; an
-- object is its address.
pub data EventData (F : Type 0) : Type 0 where
  mouse : ℤ → ℤ → ℤ → F → F → F → F → EventData F
  key : Bool → ℕ → ℕ → ℕ → EventData F
  tracking : ℤ → ℤ → ℕ → EventData F
  misc : ℤ → ℤ → ℤ → EventData F

pub record Event (F : Type 0) : Type 0 where
  pub event_type : ℕ
  pub location_point : F × F
  pub modifier_flags : ℕ
  pub event_time : F
  pub window_num : ℤ
  pub event_context : ℕ
  pub event_data : EventData F

-- What an accessor does: it raises an exception, or it reads the union, maybe by a member that is not the
-- one in use.
pub data Answer {ℓ} (A : Type ℓ) : Type ℓ where
  answers : A → Answer A
  raises reads_other_member : Answer A

-- The arguments that all methods which create events share.
pub record Common (F : Type 0) : Type 0 where
  pub location : F × F
  pub flags : ℕ
  pub time : F
  pub window : ℤ
  pub context : ℕ

module _ {F : Type 0} where
  abbrev pub event_with : ℕ → Common F → EventData F → Event F
  event_with type c data_ = record {
    event_type = type;
    location_point = c.location;
    modifier_flags = c.flags;
    event_time = c.time;
    window_num = c.window;
    event_context = c.context;
    event_data = data_;
  }

  -- `none` is the exception.
  unfoldable pub enter_exit_event : ℕ → Common F → ℤ → ℤ → ℕ → Option (Event F)
  enter_exit_event type c event_num tracking_num user_data =
      if type == 17
      then some (event_with type c (tracking event_num tracking_num user_data))
      else if not (type == 8) && not (type == 9)
      then none
      else some (event_with type c (tracking event_num tracking_num user_data))

  unfoldable pub key_event : ℕ → Common F → ℕ → ℕ → Bool → ℕ → Option (Event F)
  key_event type c keys unmodified_keys repeats code =
      if not (overlaps (event_mask_from_type type) key_event_mask)
      then none
      else some (event_with type c (key repeats keys unmodified_keys code))

  -- A new object is filled with zeros.
  unfoldable pub mouse_event : F → ℕ → Common F → ℤ → ℤ → F → Option (Event F)
  mouse_event zero_float type c event_num click pressure =
      if not (overlaps (event_mask_from_type type) mouse_event_mask)
      then none
      else some (
          event_with type c
            (mouse event_num click (pos 0) pressure zero_float zero_float zero_float))

  unfoldable pub mouse_event_moved : ℕ → Common F → ℤ → ℤ → F → ℤ → F → F → F → Option (Event F)
  mouse_event_moved type c event_num click pressure button delta_x delta_y delta_z =
      if not (overlaps (event_mask_from_type type) mouse_event_mask)
      then none
      else some (event_with type c (mouse event_num click button pressure delta_x delta_y delta_z))

  unfoldable pub other_event : ℕ → Common F → ℤ → ℤ → ℤ → Option (Event F)
  other_event type c sub_type data1 data2 =
      if not (overlaps (event_mask_from_type type) other_event_mask)
      then none
      else some (event_with type c (misc sub_type data1 data2))
