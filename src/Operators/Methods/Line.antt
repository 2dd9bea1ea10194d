-- ===== src/Operators/Methods/Line.antt =====
-- Headers/Additions/GNUstepGUI/GSMethodTable.h: the functions of the table for the parameters of a graphics state; and how
-- Source/NSGraphicsContext.m fills them in.
use libs_gui.Base.{ℤ, [], ◌∷◌}
use libs_gui.Operators.Values.{
  String, Value, of_float, of_integer, of_pointer, Pointer, Method, Slot,
}

pub record LineMethods (F S : Type 0) : Type 0 where
  pub dps_currentflat : Slot (Pointer → S → Value F × S)
  pub dps_currentlinecap : Slot (Pointer → S → Value F × S)
  pub dps_currentlinejoin : Slot (Pointer → S → Value F × S)
  pub dps_currentlinewidth : Slot (Pointer → S → Value F × S)
  pub dps_currentmiterlimit : Slot (Pointer → S → Value F × S)
  pub dps_currentpoint : Slot (Pointer → Pointer → S → Value F × S)
  pub dps_currentstrokeadjust : Slot (Pointer → S → Value F × S)
  pub dps_setdash : Slot (Pointer → ℤ → F → S → Value F × S)
  pub dps_setflat : Slot (F → S → Value F × S)
  pub dps_sethalftonephase : Slot (F → F → S → Value F × S)
  pub dps_setlinecap : Slot (ℤ → S → Value F × S)
  pub dps_setlinejoin : Slot (ℤ → S → Value F × S)
  pub dps_setlinewidth : Slot (F → S → Value F × S)
  pub dps_setmiterlimit : Slot (F → S → Value F × S)
  pub dps_setstrokeadjust : Slot (ℤ → S → Value F × S)

-- `GET_IMP` gives the method of the class for a selector.
unfoldable pub initialize_line : {F S : Type 0} → (String → Method F S) → LineMethods F S
initialize_line get_imp = record {
  dps_currentflat = λ self cmd a0. get_imp "DPScurrentflat:" self cmd (of_pointer a0 ∷ []);
  dps_currentlinecap = λ self cmd a0. get_imp "DPScurrentlinecap:" self cmd (of_pointer a0 ∷ []);
  dps_currentlinejoin = λ self cmd a0. get_imp "DPScurrentlinejoin:" self cmd (of_pointer a0 ∷ []);
  dps_currentlinewidth =
      λ self cmd a0. get_imp "DPScurrentlinewidth:" self cmd (of_pointer a0 ∷ []);
  dps_currentmiterlimit =
      λ self cmd a0. get_imp "DPScurrentmiterlimit:" self cmd (of_pointer a0 ∷ []);
  dps_currentpoint =
      λ self cmd a0 a1. get_imp "DPScurrentpoint::" self cmd (of_pointer a0 ∷ of_pointer a1 ∷ []);
  dps_currentstrokeadjust =
      λ self cmd a0. get_imp "DPScurrentstrokeadjust:" self cmd (of_pointer a0 ∷ []);
  dps_setdash = λ self cmd a0 a1 a2.
      get_imp "DPSsetdash:::" self cmd (of_pointer a0 ∷ of_integer a1 ∷ of_float a2 ∷ []);
  dps_setflat = λ self cmd a0. get_imp "DPSsetflat:" self cmd (of_float a0 ∷ []);
  dps_sethalftonephase =
      λ self cmd a0 a1. get_imp "DPSsethalftonephase::" self cmd (of_float a0 ∷ of_float a1 ∷ []);
  dps_setlinecap = λ self cmd a0. get_imp "DPSsetlinecap:" self cmd (of_integer a0 ∷ []);
  dps_setlinejoin = λ self cmd a0. get_imp "DPSsetlinejoin:" self cmd (of_integer a0 ∷ []);
  dps_setlinewidth = λ self cmd a0. get_imp "DPSsetlinewidth:" self cmd (of_float a0 ∷ []);
  dps_setmiterlimit = λ self cmd a0. get_imp "DPSsetmiterlimit:" self cmd (of_float a0 ∷ []);
  dps_setstrokeadjust = λ self cmd a0. get_imp "DPSsetstrokeadjust:" self cmd (of_integer a0 ∷ []);
}
