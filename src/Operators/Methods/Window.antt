-- ===== src/Operators/Methods/Window.antt =====
-- Headers/Additions/GNUstepGUI/GSMethodTable.h: the functions of the table for devices and offsets; and how
-- Source/NSGraphicsContext.m fills them in.
use libs_gui.Base.{ℤ, [], ◌∷◌}
use libs_gui.Operators.Values.{String, Value, of_integer, of_pointer, Pointer, Method, Slot}

pub record WindowMethods (F S : Type 0) : Type 0 where
  pub gs_current_device : Slot (Pointer → Pointer → Pointer → S → Value F × S)
  pub dps_currentoffset : Slot (Pointer → Pointer → S → Value F × S)
  pub gs_set_device : Slot (Pointer → ℤ → ℤ → S → Value F × S)
  pub dps_setoffset : Slot (ℤ → ℤ → S → Value F × S)

-- `GET_IMP` gives the method of the class for a selector.
unfoldable pub initialize_window : {F S : Type 0} → (String → Method F S) → WindowMethods F S
initialize_window get_imp = record {
  gs_current_device = λ self cmd a0 a1 a2.
      get_imp "GSCurrentDevice:::" self cmd (of_pointer a0 ∷ of_pointer a1 ∷ of_pointer a2 ∷ []);
  dps_currentoffset =
      λ self cmd a0 a1. get_imp "DPScurrentoffset::" self cmd (of_pointer a0 ∷ of_pointer a1 ∷ []);
  gs_set_device = λ self cmd a0 a1 a2.
      get_imp "GSSetDevice:::" self cmd (of_pointer a0 ∷ of_integer a1 ∷ of_integer a2 ∷ []);
  dps_setoffset =
      λ self cmd a0 a1. get_imp "DPSsetoffset::" self cmd (of_integer a0 ∷ of_integer a1 ∷ []);
}
