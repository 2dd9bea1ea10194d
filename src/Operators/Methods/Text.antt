-- ===== src/Operators/Methods/Text.antt =====
-- Headers/Additions/GNUstepGUI/GSMethodTable.h: the functions of the table for text; and how
-- Source/NSGraphicsContext.m fills them in.
use libs_gui.Base.{ℕ, ℤ, [], ◌∷◌}
use libs_gui.Operators.Values.{
  String, Value, of_float, of_integer, of_count, of_pointer, of_object, of_point, Point, Pointer,
  Object, Method, Slot,
}

pub record TextMethods (F S : Type 0) : Type 0 where
  pub dps_ashow : Slot (F → F → Pointer → S → Value F × S)
  pub dps_awidthshow : Slot (F → F → ℤ → F → F → Pointer → S → Value F × S)
  pub dps_charpath : Slot (Pointer → ℤ → S → Value F × S)
  pub dps_show : Slot (Pointer → S → Value F × S)
  pub dps_widthshow : Slot (F → F → ℤ → Pointer → S → Value F × S)
  pub dps_xshow : Slot (Pointer → Pointer → ℤ → S → Value F × S)
  pub dps_xyshow : Slot (Pointer → Pointer → ℤ → S → Value F × S)
  pub dps_yshow : Slot (Pointer → Pointer → ℤ → S → Value F × S)
  pub gs_set_character_spacing : Slot (F → S → Value F × S)
  pub gs_set_font : Slot (Object → S → Value F × S)
  pub gs_set_font_size : Slot (F → S → Value F × S)
  pub gs_get_text_ctm : Slot (S → Value F × S)
  pub gs_get_text_position : Slot (S → Value F × S)
  pub gs_set_text_ctm : Slot (Object → S → Value F × S)
  pub gs_set_text_drawing_mode : Slot (ℤ → S → Value F × S)
  pub gs_set_text_position : Slot (Point F → S → Value F × S)
  pub gs_show_text : Slot (Pointer → ℕ → S → Value F × S)
  pub gs_show_glyphs : Slot (Pointer → ℕ → S → Value F × S)
  pub gs_show_glyphs_with_advances : Slot (Pointer → Pointer → ℕ → S → Value F × S)

-- `GET_IMP` gives the method of the class for a selector.
unfoldable pub initialize_text : {F S : Type 0} → (String → Method F S) → TextMethods F S
initialize_text get_imp = record {
  dps_ashow = λ self cmd a0 a1 a2.
      get_imp "DPSashow:::" self cmd (of_float a0 ∷ of_float a1 ∷ of_pointer a2 ∷ []);
  dps_awidthshow = λ self cmd a0 a1 a2 a3 a4 a5.
      get_imp "DPSawidthshow::::::" self cmd (
        of_float a0 ∷ of_float a1 ∷ of_integer a2 ∷ of_float a3 ∷ of_float a4 ∷ of_pointer a5 ∷ []);
  dps_charpath =
      λ self cmd a0 a1. get_imp "DPScharpath::" self cmd (of_pointer a0 ∷ of_integer a1 ∷ []);
  dps_show = λ self cmd a0. get_imp "DPSshow:" self cmd (of_pointer a0 ∷ []);
  dps_widthshow = λ self cmd a0 a1 a2 a3.
      get_imp "DPSwidthshow::::" self cmd
        (of_float a0 ∷ of_float a1 ∷ of_integer a2 ∷ of_pointer a3 ∷ []);
  dps_xshow = λ self cmd a0 a1 a2.
      get_imp "DPSxshow:::" self cmd (of_pointer a0 ∷ of_pointer a1 ∷ of_integer a2 ∷ []);
  dps_xyshow = λ self cmd a0 a1 a2.
      get_imp "DPSxyshow:::" self cmd (of_pointer a0 ∷ of_pointer a1 ∷ of_integer a2 ∷ []);
  dps_yshow = λ self cmd a0 a1 a2.
      get_imp "DPSyshow:::" self cmd (of_pointer a0 ∷ of_pointer a1 ∷ of_integer a2 ∷ []);
  gs_set_character_spacing =
      λ self cmd a0. get_imp "GSSetCharacterSpacing:" self cmd (of_float a0 ∷ []);
  gs_set_font = λ self cmd a0. get_imp "GSSetFont:" self cmd (of_object a0 ∷ []);
  gs_set_font_size = λ self cmd a0. get_imp "GSSetFontSize:" self cmd (of_float a0 ∷ []);
  gs_get_text_ctm = λ self cmd. get_imp "GSGetTextCTM" self cmd ([]);
  gs_get_text_position = λ self cmd. get_imp "GSGetTextPosition" self cmd ([]);
  gs_set_text_ctm = λ self cmd a0. get_imp "GSSetTextCTM:" self cmd (of_object a0 ∷ []);
  gs_set_text_drawing_mode =
      λ self cmd a0. get_imp "GSSetTextDrawingMode:" self cmd (of_integer a0 ∷ []);
  gs_set_text_position = λ self cmd a0. get_imp "GSSetTextPosition:" self cmd (of_point a0 ∷ []);
  gs_show_text =
      λ self cmd a0 a1. get_imp "GSShowText::" self cmd (of_pointer a0 ∷ of_count a1 ∷ []);
  gs_show_glyphs =
      λ self cmd a0 a1. get_imp "GSShowGlyphs::" self cmd (of_pointer a0 ∷ of_count a1 ∷ []);
  gs_show_glyphs_with_advances = λ self cmd a0 a1 a2.
      get_imp "GSShowGlyphsWithAdvances:::" self cmd
        (of_pointer a0 ∷ of_pointer a1 ∷ of_count a2 ∷ []);
}
