-- ===== src/Operators/Methods/Color.antt =====
-- Headers/Additions/GNUstepGUI/GSMethodTable.h: the functions of the table for colors; and how
-- Source/NSGraphicsContext.m fills them in.
use libs_gui.Base.{[], ◌∷◌}
use libs_gui.Operators.Values.{
  String, Value, of_float, of_pointer, of_object, Pointer, Object, Method, Slot,
}

pub record ColorMethods (F S : Type 0) : Type 0 where
  pub dps_currentalpha : Slot (Pointer → S → Value F × S)
  pub dps_currentcmykcolor : Slot (Pointer → Pointer → Pointer → Pointer → S → Value F × S)
  pub dps_currentgray : Slot (Pointer → S → Value F × S)
  pub dps_currenthsbcolor : Slot (Pointer → Pointer → Pointer → S → Value F × S)
  pub dps_currentrgbcolor : Slot (Pointer → Pointer → Pointer → S → Value F × S)
  pub dps_setalpha : Slot (F → S → Value F × S)
  pub dps_setcmykcolor : Slot (F → F → F → F → S → Value F × S)
  pub dps_setgray : Slot (F → S → Value F × S)
  pub dps_sethsbcolor : Slot (F → F → F → S → Value F × S)
  pub dps_setrgbcolor : Slot (F → F → F → S → Value F × S)
  pub gs_set_fill_colorspace : Slot (Object → S → Value F × S)
  pub gs_set_stroke_colorspace : Slot (Object → S → Value F × S)
  pub gs_set_fill_color : Slot (Pointer → S → Value F × S)
  pub gs_set_stroke_color : Slot (Pointer → S → Value F × S)

-- `GET_IMP` gives the method of the class for a selector.
unfoldable pub initialize_color : {F S : Type 0} → (String → Method F S) → ColorMethods F S
initialize_color get_imp = record {
  dps_currentalpha = λ self cmd a0. get_imp "DPScurrentalpha:" self cmd (of_pointer a0 ∷ []);
  dps_currentcmykcolor = λ self cmd a0 a1 a2 a3.
      get_imp "DPScurrentcmykcolor::::" self cmd
        (of_pointer a0 ∷ of_pointer a1 ∷ of_pointer a2 ∷ of_pointer a3 ∷ []);
  dps_currentgray = λ self cmd a0. get_imp "DPScurrentgray:" self cmd (of_pointer a0 ∷ []);
  dps_currenthsbcolor = λ self cmd a0 a1 a2.
      get_imp "DPScurrenthsbcolor:::" self cmd (of_pointer a0 ∷ of_pointer a1 ∷ of_pointer a2 ∷ []);
  dps_currentrgbcolor = λ self cmd a0 a1 a2.
      get_imp "DPScurrentrgbcolor:::" self cmd (of_pointer a0 ∷ of_pointer a1 ∷ of_pointer a2 ∷ []);
  dps_setalpha = λ self cmd a0. get_imp "DPSsetalpha:" self cmd (of_float a0 ∷ []);
  dps_setcmykcolor = λ self cmd a0 a1 a2 a3.
      get_imp "DPSsetcmykcolor::::" self cmd
        (of_float a0 ∷ of_float a1 ∷ of_float a2 ∷ of_float a3 ∷ []);
  dps_setgray = λ self cmd a0. get_imp "DPSsetgray:" self cmd (of_float a0 ∷ []);
  dps_sethsbcolor = λ self cmd a0 a1 a2.
      get_imp "DPSsethsbcolor:::" self cmd (of_float a0 ∷ of_float a1 ∷ of_float a2 ∷ []);
  dps_setrgbcolor = λ self cmd a0 a1 a2.
      get_imp "DPSsetrgbcolor:::" self cmd (of_float a0 ∷ of_float a1 ∷ of_float a2 ∷ []);
  gs_set_fill_colorspace =
      λ self cmd a0. get_imp "GSSetFillColorspace:" self cmd (of_object a0 ∷ []);
  gs_set_stroke_colorspace =
      λ self cmd a0. get_imp "GSSetStrokeColorspace:" self cmd (of_object a0 ∷ []);
  gs_set_fill_color = λ self cmd a0. get_imp "GSSetFillColor:" self cmd (of_pointer a0 ∷ []);
  gs_set_stroke_color = λ self cmd a0. get_imp "GSSetStrokeColor:" self cmd (of_pointer a0 ∷ []);
}
