-- ===== src/Events/Kinds.antt =====
-- The masks of Headers/AppKit/NSEvent.h tell the types of the structures in the union of an event apart: what
-- guards of accessors rely on.
use libs_gui.Base.{
  all_below, all_below-use, ℕ, ◌<◌, ◌≡◌, refl, ℤ, Bool, true, false, not, ◌||◌, if◌then◌else◌, ◌==◌,
  arith,
}
use libs_gui.Events.Types.{
  event_mask_from_type, overlaps, key_event_mask, mouse_event_mask, other_event_mask,
}
use libs_gui.Events.Record.{
  EventData, mouse, key, tracking, misc, Answer, answers, raises, reads_other_member,
}
use libs_gui.Events.Accessors.{of_mouse, of_key, of_tracking, of_misc}

abbrev pub misread {ℓ} : {A : Type ℓ} → Answer A → Bool
misread (answers a) = false
misread raises = false
misread reads_other_member = true

-- A test that holds of all the types of a kind.
abbrev pub Implies : (ℕ → Bool) → (ℕ → Bool) → Type 0
Implies kind test = all_below 31 (λ t. not (kind t) || test t) ≡ true

pub use_implication :
    (kind test : ℕ → Bool) (t : ℕ) → Implies kind test → t < 31 → kind t ≡ true → test t ≡ true
use_implication kind test t h small k =
    let found = all_below-use 31 (λ x. not (kind x) || test x) t h small in ground (arith, found)

-- The types of the events with each structure of the union.
abbrev pub is_mouse : ℕ → Bool
is_mouse t = overlaps (event_mask_from_type t) mouse_event_mask

abbrev pub is_key : ℕ → Bool
is_key t = overlaps (event_mask_from_type t) key_event_mask

abbrev pub is_tracking : ℕ → Bool
is_tracking t = (t == 17) || (t == 8) || (t == 9)

abbrev pub is_misc : ℕ → Bool
is_misc t = overlaps (event_mask_from_type t) other_event_mask

module _ {F : Type 0} where
  -- The type of an event is one of those of the structure in use.
  unfoldable pub Agrees : EventData F → ℕ → Type 0
  Agrees (mouse n c b p x y z) t = is_mouse t ≡ true
  Agrees (key r k u c) t = is_key t ≡ true
  Agrees (tracking n t u) type = is_tracking type ≡ true
  Agrees (misc s d1 d2) t = is_misc t ≡ true

  -- A guard lets only the events with one structure through.
  unfoldable pub OnlyMouse : EventData F → Bool → Type 0
  OnlyMouse (mouse n c b p x y z) stops = Unit {0}
  OnlyMouse (key r k u c) stops = stops ≡ true
  OnlyMouse (tracking n t u) stops = stops ≡ true
  OnlyMouse (misc s d1 d2) stops = stops ≡ true

  unfoldable pub OnlyKey : EventData F → Bool → Type 0
  OnlyKey (mouse n c b p x y z) stops = stops ≡ true
  OnlyKey (key r k u c) stops = Unit {0}
  OnlyKey (tracking n t u) stops = stops ≡ true
  OnlyKey (misc s d1 d2) stops = stops ≡ true

  unfoldable pub OnlyTracking : EventData F → Bool → Type 0
  OnlyTracking (mouse n c b p x y z) stops = stops ≡ true
  OnlyTracking (key r k u c) stops = stops ≡ true
  OnlyTracking (tracking n t u) stops = Unit {0}
  OnlyTracking (misc s d1 d2) stops = stops ≡ true

  unfoldable pub OnlyMisc : EventData F → Bool → Type 0
  OnlyMisc (mouse n c b p x y z) stops = stops ≡ true
  OnlyMisc (key r k u c) stops = stops ≡ true
  OnlyMisc (tracking n t u) stops = stops ≡ true
  OnlyMisc (misc s d1 d2) stops = Unit {0}

  pub only_mouse :
      (d : EventData F) (type : ℕ) (stops : ℕ → Bool)
      → Implies is_key stops
      → Implies is_tracking stops
      → Implies is_misc stops
      → type < 31
      → Agrees d type
      → OnlyMouse d (stops type)
  unfolding Agrees OnlyMouse
  only_mouse (mouse n c b p x y z) type stops h1 h2 h3 small agrees = tt
  only_mouse (key r k u c) type stops h1 h2 h3 small agrees =
      use_implication is_key stops type h1 small agrees
  only_mouse (tracking n t u) type stops h1 h2 h3 small agrees =
      use_implication is_tracking stops type h2 small agrees
  only_mouse (misc s d1 d2) type stops h1 h2 h3 small agrees =
      use_implication is_misc stops type h3 small agrees

  pub only_key :
      (d : EventData F) (type : ℕ) (stops : ℕ → Bool)
      → Implies is_mouse stops
      → Implies is_tracking stops
      → Implies is_misc stops
      → type < 31
      → Agrees d type
      → OnlyKey d (stops type)
  unfolding Agrees OnlyKey
  only_key (mouse n c b p x y z) type stops h1 h2 h3 small agrees =
      use_implication is_mouse stops type h1 small agrees
  only_key (key r k u c) type stops h1 h2 h3 small agrees = tt
  only_key (tracking n t u) type stops h1 h2 h3 small agrees =
      use_implication is_tracking stops type h2 small agrees
  only_key (misc s d1 d2) type stops h1 h2 h3 small agrees =
      use_implication is_misc stops type h3 small agrees

  pub only_tracking :
      (d : EventData F) (type : ℕ) (stops : ℕ → Bool)
      → Implies is_mouse stops
      → Implies is_key stops
      → Implies is_misc stops
      → type < 31
      → Agrees d type
      → OnlyTracking d (stops type)
  unfolding Agrees OnlyTracking
  only_tracking (mouse n c b p x y z) type stops h1 h2 h3 small agrees =
      use_implication is_mouse stops type h1 small agrees
  only_tracking (key r k u c) type stops h1 h2 h3 small agrees =
      use_implication is_key stops type h2 small agrees
  only_tracking (tracking n t u) type stops h1 h2 h3 small agrees = tt
  only_tracking (misc s d1 d2) type stops h1 h2 h3 small agrees =
      use_implication is_misc stops type h3 small agrees

  pub only_misc :
      (d : EventData F) (type : ℕ) (stops : ℕ → Bool)
      → Implies is_mouse stops
      → Implies is_key stops
      → Implies is_tracking stops
      → type < 31
      → Agrees d type
      → OnlyMisc d (stops type)
  unfolding Agrees OnlyMisc
  only_misc (mouse n c b p x y z) type stops h1 h2 h3 small agrees =
      use_implication is_mouse stops type h1 small agrees
  only_misc (key r k u c) type stops h1 h2 h3 small agrees =
      use_implication is_key stops type h2 small agrees
  only_misc (tracking n t u) type stops h1 h2 h3 small agrees =
      use_implication is_tracking stops type h3 small agrees
  only_misc (misc s d1 d2) type stops h1 h2 h3 small agrees = tt

  pub read_mouse :
      {A : Type 0} (otherwise : Answer A) (read : ℤ → ℤ → ℤ → F → F → F → F → A) (d : EventData F)
      (stops : Bool)
      → misread otherwise ≡ false
      → OnlyMouse d stops
      → misread (if stops then otherwise else of_mouse read d) ≡ false
  unfolding OnlyMouse
  read_mouse otherwise read (mouse n c b p x y z) true safe only = safe
  read_mouse otherwise read (mouse n c b p x y z) false safe only = refl
  read_mouse otherwise read (key r k u c) stops safe only = rw only safe
  read_mouse otherwise read (tracking n t u) stops safe only = rw only safe
  read_mouse otherwise read (misc s d1 d2) stops safe only = rw only safe

  pub read_key :
      {A : Type 0} (otherwise : Answer A) (read : Bool → ℕ → ℕ → ℕ → A) (d : EventData F)
      (stops : Bool)
      → misread otherwise ≡ false
      → OnlyKey d stops
      → misread (if stops then otherwise else of_key read d) ≡ false
  unfolding OnlyKey
  read_key otherwise read (mouse n c b p x y z) stops safe only = rw only safe
  read_key otherwise read (key r k u c) true safe only = safe
  read_key otherwise read (key r k u c) false safe only = refl
  read_key otherwise read (tracking n t u) stops safe only = rw only safe
  read_key otherwise read (misc s d1 d2) stops safe only = rw only safe

  pub read_tracking :
      {A : Type 0} (otherwise : Answer A) (read : ℤ → ℤ → ℕ → A) (d : EventData F) (stops : Bool)
      → misread otherwise ≡ false
      → OnlyTracking d stops
      → misread (if stops then otherwise else of_tracking read d) ≡ false
  unfolding OnlyTracking
  read_tracking otherwise read (mouse n c b p x y z) stops safe only = rw only safe
  read_tracking otherwise read (key r k u c) stops safe only = rw only safe
  read_tracking otherwise read (tracking n t u) true safe only = safe
  read_tracking otherwise read (tracking n t u) false safe only = refl
  read_tracking otherwise read (misc s d1 d2) stops safe only = rw only safe

  pub read_misc :
      {A : Type 0} (otherwise : Answer A) (read : ℤ → ℤ → ℤ → A) (d : EventData F) (stops : Bool)
      → misread otherwise ≡ false
      → OnlyMisc d stops
      → misread (if stops then otherwise else of_misc read d) ≡ false
  unfolding OnlyMisc
  read_misc otherwise read (mouse n c b p x y z) stops safe only = rw only safe
  read_misc otherwise read (key r k u c) stops safe only = rw only safe
  read_misc otherwise read (tracking n t u) stops safe only = rw only safe
  read_misc otherwise read (misc s d1 d2) true safe only = safe
  read_misc otherwise read (misc s d1 d2) false safe only = refl

pub either_way :
    {A : Type 0} (b : Bool) (x y : Answer A)
    → misread x ≡ false
    → misread y ≡ false
    → misread (if b then x else y) ≡ false
either_way true x y hx hy = hx
either_way false x y hx hy = hy

pub if-not : {A : Type 0} (b : Bool) (x y : A) → (if not b then y else x) ≡ (if b then x else y)
if-not true x y = refl
if-not false x y = refl
