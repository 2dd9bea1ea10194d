-- ===== src/Events/Accessors.antt =====
-- Source/NSEvent.m: the accessors of an event, which read the union of its data.
use libs_gui.Base.{ℕ, ℤ, pos, Bool, not, ◌&&◌, ◌||◌, if◌then◌else◌, ◌==◌, ltb}
use libs_gui.Events.Types.{
  event_mask_from_type, overlaps, key_event_mask, mouse_event_mask, other_event_mask,
  enter_exit_event_mask, mouse_moved_event_mask,
}
use libs_gui.Events.Record.{
  EventData, mouse, key, tracking, misc, Event, Answer, answers, raises, reads_other_member,
}

-- A member of the union, by the structure that it belongs to.
module _ {ℓ} {F : Type 0} {A : Type ℓ} where
  abbrev pub of_mouse : (ℤ → ℤ → ℤ → F → F → F → F → A) → EventData F → Answer A
  of_mouse read (mouse n c b p x y z) = answers (read n c b p x y z)
  of_mouse read (key r k u c) = reads_other_member
  of_mouse read (tracking n t u) = reads_other_member
  of_mouse read (misc s d e) = reads_other_member

  abbrev pub of_key : (Bool → ℕ → ℕ → ℕ → A) → EventData F → Answer A
  of_key read (mouse n c b p x y z) = reads_other_member
  of_key read (key r k u c) = answers (read r k u c)
  of_key read (tracking n t u) = reads_other_member
  of_key read (misc s d e) = reads_other_member

  abbrev pub of_tracking : (ℤ → ℤ → ℕ → A) → EventData F → Answer A
  of_tracking read (mouse n c b p x y z) = reads_other_member
  of_tracking read (key r k u c) = reads_other_member
  of_tracking read (tracking n t u) = answers (read n t u)
  of_tracking read (misc s d e) = reads_other_member

  abbrev pub of_misc : (ℤ → ℤ → ℤ → A) → EventData F → Answer A
  of_misc read (mouse n c b p x y z) = reads_other_member
  of_misc read (key r k u c) = reads_other_member
  of_misc read (tracking n t u) = reads_other_member
  of_misc read (misc s d e) = answers (read s d e)

module _ {F : Type 0} where
  abbrev pub in_group : Event F → ℕ → Bool
  in_group e group = overlaps (event_mask_from_type e.event_type) group

  unfoldable pub button_number : Event F → Answer ℤ
  button_number e =
      if not (in_group e mouse_event_mask)
      then raises
      else of_mouse (λ n c b p x y z. b) e.event_data

  unfoldable pub characters : Event F → Answer ℕ
  characters e =
      if not (e.event_type == 11) && not (e.event_type == 10)
      then raises
      else of_key (λ r k u c. k) e.event_data

  unfoldable pub characters_ignoring_modifiers : Event F → Answer ℕ
  characters_ignoring_modifiers e =
      if not (e.event_type == 11) && not (e.event_type == 10)
      then raises
      else of_key (λ r k u c. u) e.event_data

  unfoldable pub click_count : Event F → Answer ℤ
  click_count e =
      if not (in_group e mouse_event_mask)
      then raises
      else of_mouse (λ n c b p x y z. c) e.event_data

  unfoldable pub data1_of : Event F → Answer ℤ
  data1_of e =
      if ltb e.event_type 13 || ltb 16 e.event_type
      then raises
      else of_misc (λ s d1 d2. d1) e.event_data

  unfoldable pub data2_of : Event F → Answer ℤ
  data2_of e =
      if ltb e.event_type 13 || ltb 16 e.event_type
      then raises
      else of_misc (λ s d1 d2. d2) e.event_data

  unfoldable pub delta_x_of : F → Event F → Answer F
  delta_x_of zero_float e =
      if not (in_group e mouse_moved_event_mask)
      then answers zero_float
      else of_mouse (λ n c b p x y z. x) e.event_data

  unfoldable pub delta_y_of : F → Event F → Answer F
  delta_y_of zero_float e =
      if not (in_group e mouse_moved_event_mask)
      then answers zero_float
      else of_mouse (λ n c b p x y z. y) e.event_data

  unfoldable pub delta_z_of : F → Event F → Answer F
  delta_z_of zero_float e =
      if not (in_group e mouse_moved_event_mask)
      then answers zero_float
      else of_mouse (λ n c b p x y z. z) e.event_data

  unfoldable pub event_number : Event F → Answer ℤ
  event_number e =
      if not (in_group e mouse_event_mask) && not (in_group e enter_exit_event_mask)
      then raises
      else if (e.event_type == 8) || (e.event_type == 9)
      then of_tracking (λ n t u. n) e.event_data
      else of_mouse (λ n c b p x y z. n) e.event_data

  unfoldable pub is_a_repeat : Event F → Answer Bool
  is_a_repeat e =
      if not (e.event_type == 11) && not (e.event_type == 10)
      then raises
      else of_key (λ r k u c. r) e.event_data

  unfoldable pub key_code_of : Event F → Answer ℕ
  key_code_of e =
      if not (in_group e key_event_mask) then raises else of_key (λ r k u c. c) e.event_data

  unfoldable pub pressure_of : Event F → Answer F
  pressure_of e =
      if not (in_group e mouse_event_mask)
      then raises
      else of_mouse (λ n c b p x y z. p) e.event_data

  -- The constants are NSTabletPointEventSubtype, NSTabletProximityEventSubtype and NSMouseEventSubtype.
  unfoldable pub subtype_of : Event F → Answer ℤ
  subtype_of e =
      if not (in_group e other_event_mask) && not (in_group e mouse_event_mask)
      then raises
      else if in_group e other_event_mask
      then of_misc (λ s d1 d2. s) e.event_data
      else if e.event_type == 23
      then answers (pos 1)
      else if e.event_type == 24
      then answers (pos 2)
      else answers (pos 0)

  unfoldable pub tracking_number : Event F → Answer ℤ
  tracking_number e =
      if not (e.event_type == 8) && not (e.event_type == 9) && not (e.event_type == 17)
      then raises
      else of_tracking (λ n t u. t) e.event_data

  unfoldable pub user_data_of : Event F → Answer ℕ
  user_data_of e =
      if not (e.event_type == 8) && not (e.event_type == 9) && not (e.event_type == 17)
      then raises
      else of_tracking (λ n t u. u) e.event_data
