-- ===== src/Events/Guards.antt =====
-- What the guards of the accessors in Source/NSEvent.m let through, by the structure that an event has in
-- use.
use libs_gui.Base.{
  all_below, ℕ, ◌<◌, ◌≡◌, refl, subst, ℤ, pos, Bool, true, false, not, ◌&&◌, ◌||◌, if◌then◌else◌,
  ◌==◌, ltb, arith,
}
use libs_gui.Events.Types.{
  event_mask_from_type, type_number, type_mask, masks, overlaps, key_event_mask, mouse_event_mask,
  other_event_mask, enter_exit_event_mask, mouse_moved_event_mask,
}
use libs_gui.Events.Record.{
  EventData, mouse, key, tracking, misc, Event, Answer, answers, raises, reads_other_member,
}
use libs_gui.Events.Accessors.{of_mouse, of_tracking, of_misc, subtype_of}
use libs_gui.Events.Kinds.{
  either_way, if-not, use_implication, misread, is_mouse, is_key, is_tracking, is_misc, Agrees,
  OnlyMouse, OnlyKey, OnlyTracking, OnlyMisc, only_mouse, only_key, only_tracking, only_misc,
  read_misc,
}

-- The guards of the accessors.
abbrev pub stops_mouse : ℕ → Bool
stops_mouse t = not (is_mouse t)

abbrev pub stops_unmoved : ℕ → Bool
stops_unmoved t = not (overlaps (event_mask_from_type t) mouse_moved_event_mask)

abbrev pub stops_unpressed : ℕ → Bool
stops_unpressed t = not (t == 11) && not (t == 10)

abbrev pub stops_key : ℕ → Bool
stops_key t = not (is_key t)

abbrev pub stops_data : ℕ → Bool
stops_data t = ltb t 13 || ltb 16 t

abbrev pub stops_misc : ℕ → Bool
stops_misc t = not (is_misc t)

abbrev pub stops_common : ℕ → Bool
stops_common t = not (is_mouse t) && not (overlaps (event_mask_from_type t) enter_exit_event_mask)

abbrev pub stops_tracking : ℕ → Bool
stops_tracking t = not (t == 8) && not (t == 9) && not (t == 17)

module _ {F : Type 0} where
  -- An event whose type is one of those of the structure in use.
  unfoldable pub Fitting : Event F → Type 0
  Fitting e = Agrees e.event_data e.event_type × (e.event_type < 31)

  pub stops_mouse_lem :
      (e : Event F) → Fitting e → OnlyMouse e.event_data (stops_mouse e.event_type)
  unfolding Fitting all_below overlaps event_mask_from_type masks type_mask type_number
      mouse_event_mask key_event_mask other_event_mask enter_exit_event_mask mouse_moved_event_mask
  stops_mouse_lem e f = only_mouse e.event_data e.event_type stops_mouse refl refl refl f.1 f.0

  pub stops_unmoved_lem :
      (e : Event F) → Fitting e → OnlyMouse e.event_data (stops_unmoved e.event_type)
  unfolding Fitting all_below overlaps event_mask_from_type masks type_mask type_number
      mouse_event_mask key_event_mask other_event_mask enter_exit_event_mask mouse_moved_event_mask
  stops_unmoved_lem e f = only_mouse e.event_data e.event_type stops_unmoved refl refl refl f.1 f.0

  pub stops_unpressed_lem :
      (e : Event F) → Fitting e → OnlyKey e.event_data (stops_unpressed e.event_type)
  unfolding Fitting all_below overlaps event_mask_from_type masks type_mask type_number
      mouse_event_mask key_event_mask other_event_mask enter_exit_event_mask mouse_moved_event_mask
  stops_unpressed_lem e f =
      only_key e.event_data e.event_type stops_unpressed refl refl refl f.1 f.0

  pub stops_key_lem : (e : Event F) → Fitting e → OnlyKey e.event_data (stops_key e.event_type)
  unfolding Fitting all_below overlaps event_mask_from_type masks type_mask type_number
      mouse_event_mask key_event_mask other_event_mask enter_exit_event_mask mouse_moved_event_mask
  stops_key_lem e f = only_key e.event_data e.event_type stops_key refl refl refl f.1 f.0

  pub stops_data_lem : (e : Event F) → Fitting e → OnlyMisc e.event_data (stops_data e.event_type)
  unfolding Fitting all_below overlaps event_mask_from_type masks type_mask type_number
      mouse_event_mask key_event_mask other_event_mask enter_exit_event_mask mouse_moved_event_mask
  stops_data_lem e f = only_misc e.event_data e.event_type stops_data refl refl refl f.1 f.0

  pub stops_misc_lem : (e : Event F) → Fitting e → OnlyMisc e.event_data (stops_misc e.event_type)
  unfolding Fitting all_below overlaps event_mask_from_type masks type_mask type_number
      mouse_event_mask key_event_mask other_event_mask enter_exit_event_mask mouse_moved_event_mask
  stops_misc_lem e f = only_misc e.event_data e.event_type stops_misc refl refl refl f.1 f.0

  pub stops_tracking_lem :
      (e : Event F) → Fitting e → OnlyTracking e.event_data (stops_tracking e.event_type)
  unfolding Fitting all_below overlaps event_mask_from_type masks type_mask type_number
      mouse_event_mask key_event_mask other_event_mask enter_exit_event_mask mouse_moved_event_mask
  stops_tracking_lem e f =
      only_tracking e.event_data e.event_type stops_tracking refl refl refl f.1 f.0

not_seventeen : (a b c : Bool) → (not a && not b && not c) ≡ true → false ≡ c
not_seventeen a b true h = absurd (ground arith)
not_seventeen a b false h = refl

not_tracking :
    (stops a b c : Bool) (n : ℤ)
    → (not a && not b && not c) ≡ true
    → misread (if stops then raises else if a || b then reads_other_member else answers n) ≡ c
not_tracking stops true b c n h = absurd (ground arith)
not_tracking stops false true c n h = absurd (ground arith)
not_tracking stops false false true n h = absurd (ground arith)
not_tracking true false false false n h = refl
not_tracking false false false false n h = refl

if_tracking :
    (stops : Bool) (type : ℕ) (n : ℤ)
    → not stops ≡ true
    → is_tracking type ≡ true
    → misread (
        if stops
        then raises
        else if (type == 8) || (type == 9)
        then answers n
        else reads_other_member)
      ≡ (type == 17)
if_tracking true type n passed h = absurd (ground arith)
if_tracking false type n passed h = ground arith

module _ {F : Type 0} where
  -- The number that a guarded read of tracking or of mouse answers.
  unfoldable pub read_number : EventData F → ℕ → Answer ℤ
  read_number d type =
      if stops_common type
      then raises
      else if (type == 8) || (type == 9)
      then of_tracking (λ n t u. n) d
      else of_mouse (λ n c b p x y z. n) d

  pub misread-read_number :
      (d : EventData F) (type : ℕ)
      → Agrees d type × (type < 31)
      → misread (read_number d type) ≡ (type == 17)
  unfolding read_number Agrees all_below overlaps event_mask_from_type masks type_mask type_number
      mouse_event_mask key_event_mask other_event_mask enter_exit_event_mask
  misread-read_number (mouse n c b p x y z) type f =
      let apart = use_implication is_mouse stops_tracking type refl f.1 f.0 in
      not_tracking (stops_common type) (type == 8) (type == 9) (type == 17) _ apart
  misread-read_number (tracking n t u) type f =
      let passed = use_implication is_tracking (λ x. not (stops_common x)) type refl f.1 f.0 in
      if_tracking (stops_common type) type n passed f.0
  misread-read_number (key r k u c) type f =
      let apart = use_implication is_key stops_tracking type refl f.1 f.0 in
      rw (use_implication is_key stops_common type refl f.1 f.0)
        (not_seventeen (type == 8) (type == 9) (type == 17) apart)
  misread-read_number (misc s d e) type f =
      let apart = use_implication is_misc stops_tracking type refl f.1 f.0 in
      rw (use_implication is_misc stops_common type refl f.1 f.0)
        (not_seventeen (type == 8) (type == 9) (type == 17) apart)

  pub read_subtype : (e : Event F) → Fitting e → misread (subtype_of e) ≡ false
  unfolding subtype_of
  read_subtype e f =
      let as_mouse : Answer ℤ =
        if e.event_type == 23
        then answers (pos 1)
        else if e.event_type == 24
        then answers (pos 2)
        else answers (pos 0) in
      let as_misc : Answer ℤ = of_misc (λ s d1 d2. s) e.event_data in
      let plain : misread as_mouse ≡ false =
        either_way (e.event_type == 23) (answers (pos 1)) _ refl
          (either_way (e.event_type == 24) (answers (pos 2)) (answers (pos 0)) refl refl) in
      either_way (not (is_misc e.event_type) && not (is_mouse e.event_type)) raises
        (if is_misc e.event_type then as_misc else as_mouse) refl
        (subst (λ (a : Answer ℤ). misread a ≡ false)
          (if-not (is_misc e.event_type) as_misc as_mouse)
          (read_misc as_mouse (λ s d1 d2. s) e.event_data (not (is_misc e.event_type)) plain
            (stops_misc_lem e f)))
