-- ===== src/Events/Created.antt =====
-- The accessors of Source/NSEvent.m on the events that its methods create.
use libs_gui.Base.{
  ℕ, ◌<◌, ◌≡◌, refl, subst, ℤ, pos, Bool, true, false, not, ◌&&◌, ◌||◌, if◌then◌else◌, ◌==◌, none,
  some, arith,
}
use libs_gui.Events.Record.{
  mouse, key, tracking, misc, Event, answers, raises, Common, event_with, enter_exit_event,
  key_event, mouse_event, mouse_event_moved, other_event,
}
use libs_gui.Events.Accessors.{
  button_number, characters, characters_ignoring_modifiers, click_count, data1_of, data2_of,
  event_number, is_a_repeat, key_code_of, pressure_of, subtype_of, tracking_number, user_data_of,
  delta_x_of, delta_y_of, delta_z_of,
}
use libs_gui.Events.Kinds.{
  misread, is_mouse, is_key, is_misc, Agrees, read_mouse, read_key, read_tracking, read_misc,
}
use libs_gui.Events.Guards.{
  Fitting, stops_mouse_lem, stops_unmoved_lem, stops_unpressed_lem, stops_key_lem, stops_data_lem,
  stops_tracking_lem, read_number, misread-read_number, read_subtype,
}

-- The accessors that read the union.
pub data Question : Type 0 where
  ask_button_number ask_characters ask_characters_ignoring_modifiers ask_click_count ask_data1
        ask_data2 ask_event_number ask_is_a_repeat ask_key_code ask_pressure ask_subtype
        ask_tracking_number ask_user_data ask_delta_x ask_delta_y ask_delta_z :
      Question

module _ {F : Type 0} where
  -- Whether the accessor reads a member of the union that is not in use.
  unfoldable pub misreads : F → Question → Event F → Bool
  misreads zero_float ask_button_number e = misread (button_number e)
  misreads zero_float ask_characters e = misread (characters e)
  misreads zero_float ask_characters_ignoring_modifiers e =
      misread (characters_ignoring_modifiers e)
  misreads zero_float ask_click_count e = misread (click_count e)
  misreads zero_float ask_data1 e = misread (data1_of e)
  misreads zero_float ask_data2 e = misread (data2_of e)
  misreads zero_float ask_event_number e = misread (event_number e)
  misreads zero_float ask_is_a_repeat e = misread (is_a_repeat e)
  misreads zero_float ask_key_code e = misread (key_code_of e)
  misreads zero_float ask_pressure e = misread (pressure_of e)
  misreads zero_float ask_subtype e = misread (subtype_of e)
  misreads zero_float ask_tracking_number e = misread (tracking_number e)
  misreads zero_float ask_user_data e = misread (user_data_of e)
  misreads zero_float ask_delta_x e = misread (delta_x_of zero_float e)
  misreads zero_float ask_delta_y e = misread (delta_y_of zero_float e)
  misreads zero_float ask_delta_z e = misread (delta_z_of zero_float e)

  -- The events that the methods create, of the types for which C gives a mask.
  pub data Created : Event F → Type 0 where
    tracked :
        (type : ℕ) (c : Common F) (n t : ℤ) (u : ℕ) (e : Event F)
        → type < 31
        → enter_exit_event type c n t u ≡ some e
        → Created e
    keyed :
        (type : ℕ) (c : Common F) (k u : ℕ) (r : Bool) (code : ℕ) (e : Event F)
        → type < 31
        → key_event type c k u r code ≡ some e
        → Created e
    clicked :
        (zero_float : F) (type : ℕ) (c : Common F) (n k : ℤ) (p : F) (e : Event F)
        → type < 31
        → mouse_event zero_float type c n k p ≡ some e
        → Created e
    moved :
        (type : ℕ) (c : Common F) (n k : ℤ) (p : F) (b : ℤ) (x y z : F) (e : Event F)
        → type < 31
        → mouse_event_moved type c n k p b x y z ≡ some e
        → Created e
    other :
        (type : ℕ) (c : Common F) (s d1 d2 : ℤ) (e : Event F)
        → type < 31
        → other_event type c s d1 d2 ≡ some e
        → Created e

module _ {F : Type 0} where
  made :
      (g : Bool) (d e : Event F) → (if not g then none else some d) ≡ some e → (g ≡ true) × (d ≡ e)
  made true d e h = (refl, ground arith)
  made false d e h = absurd (ground arith)

  made_of_three :
      (a b c : Bool) (d e : Event F)
      → (if a then some d else if not b && not c then none else some d) ≡ some e
      → ((a || b || c) ≡ true) × (d ≡ e)
  made_of_three true b c d e h = (refl, ground arith)
  made_of_three false true c d e h = (refl, ground arith)
  made_of_three false false true d e h = (refl, ground arith)
  made_of_three false false false d e h = absurd (ground arith)

  Created-Fitting : (e : Event F) → Created e → Fitting e
  unfolding Fitting Agrees enter_exit_event key_event mouse_event mouse_event_moved other_event
  Created-Fitting e (keyed type c k u r code e' small h) =
      let m = made (is_key type) (event_with type c (key r k u code)) e h in
      subst Fitting m.1 (m.0, small)
  Created-Fitting e (clicked zero_float type c n k p e' small h) =
      let m =
        made (is_mouse type)
          (event_with type c (mouse n k (pos 0) p zero_float zero_float zero_float)) e h in
      subst Fitting m.1 (m.0, small)
  Created-Fitting e (moved type c n k p b x y z e' small h) =
      let m = made (is_mouse type) (event_with type c (mouse n k b p x y z)) e h in
      subst Fitting m.1 (m.0, small)
  Created-Fitting e (other type c s d1 d2 e' small h) =
      let m = made (is_misc type) (event_with type c (misc s d1 d2)) e h in
      subst Fitting m.1 (m.0, small)
  Created-Fitting e (tracked type c n t u e' small h) =
      let m =
        made_of_three (type == 17) (type == 8) (type == 9) (event_with type c (tracking n t u)) e
          h in
      subst Fitting m.1 (m.0, small)

-- The one question whose accessor reads the wrong member, for NSCursorUpdate.
unfoldable pub is_cursor_number : {F : Type 0} → Question → Event F → Bool
is_cursor_number ask_event_number e = e.event_type == 17
is_cursor_number ask_button_number e = false
is_cursor_number ask_characters e = false
is_cursor_number ask_characters_ignoring_modifiers e = false
is_cursor_number ask_click_count e = false
is_cursor_number ask_data1 e = false
is_cursor_number ask_data2 e = false
is_cursor_number ask_is_a_repeat e = false
is_cursor_number ask_key_code e = false
is_cursor_number ask_pressure e = false
is_cursor_number ask_subtype e = false
is_cursor_number ask_tracking_number e = false
is_cursor_number ask_user_data e = false
is_cursor_number ask_delta_x e = false
is_cursor_number ask_delta_y e = false
is_cursor_number ask_delta_z e = false

-- Of an event that the methods of NSEvent create, of a type below 31, every accessor but one answers without
-- a read of a structure of the union other than the one that was set, or raises its exception. The
-- exception is `eventNumber`, which reads the structure mouse of an event of the type
-- NSCursorUpdate, whose structure tracking was set, and for no other type reads the wrong one.
pub misreads-Created :
    {F : Type 0} (zero_float : F) (q : Question) (e : Event F)
    → Created e
    → misreads zero_float q e ≡ is_cursor_number q e
unfolding misreads is_cursor_number Fitting read_number button_number characters
    characters_ignoring_modifiers click_count data1_of data2_of event_number is_a_repeat key_code_of
    pressure_of subtype_of tracking_number user_data_of delta_x_of delta_y_of delta_z_of
misreads-Created zero_float ask_button_number e h =
    read_mouse raises _ e.event_data _ refl (stops_mouse_lem e (Created-Fitting e h))
misreads-Created zero_float ask_characters e h =
    read_key raises _ e.event_data _ refl (stops_unpressed_lem e (Created-Fitting e h))
misreads-Created zero_float ask_characters_ignoring_modifiers e h =
    read_key raises _ e.event_data _ refl (stops_unpressed_lem e (Created-Fitting e h))
misreads-Created zero_float ask_click_count e h =
    read_mouse raises _ e.event_data _ refl (stops_mouse_lem e (Created-Fitting e h))
misreads-Created zero_float ask_data1 e h =
    read_misc raises _ e.event_data _ refl (stops_data_lem e (Created-Fitting e h))
misreads-Created zero_float ask_data2 e h =
    read_misc raises _ e.event_data _ refl (stops_data_lem e (Created-Fitting e h))
misreads-Created zero_float ask_is_a_repeat e h =
    read_key raises _ e.event_data _ refl (stops_unpressed_lem e (Created-Fitting e h))
misreads-Created zero_float ask_key_code e h =
    read_key raises _ e.event_data _ refl (stops_key_lem e (Created-Fitting e h))
misreads-Created zero_float ask_pressure e h =
    read_mouse raises _ e.event_data _ refl (stops_mouse_lem e (Created-Fitting e h))
misreads-Created zero_float ask_tracking_number e h =
    read_tracking raises _ e.event_data _ refl (stops_tracking_lem e (Created-Fitting e h))
misreads-Created zero_float ask_user_data e h =
    read_tracking raises _ e.event_data _ refl (stops_tracking_lem e (Created-Fitting e h))
misreads-Created zero_float ask_delta_x e h =
    read_mouse (answers zero_float) _ e.event_data _ refl
      (stops_unmoved_lem e (Created-Fitting e h))
misreads-Created zero_float ask_delta_y e h =
    read_mouse (answers zero_float) _ e.event_data _ refl
      (stops_unmoved_lem e (Created-Fitting e h))
misreads-Created zero_float ask_delta_z e h =
    read_mouse (answers zero_float) _ e.event_data _ refl
      (stops_unmoved_lem e (Created-Fitting e h))
misreads-Created zero_float ask_event_number e h =
    misread-read_number e.event_data e.event_type (Created-Fitting e h)
misreads-Created zero_float ask_subtype e h = read_subtype e (Created-Fitting e h)
