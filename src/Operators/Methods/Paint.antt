-- ===== src/Operators/Methods/Paint.antt =====
-- Headers/Additions/GNUstepGUI/GSMethodTable.h: the functions of the table for paths; and how
-- Source/NSGraphicsContext.m fills them in.
use libs_gui.Base.{ℤ, [], ◌∷◌}
use libs_gui.Operators.Values.{
  String, Value, of_float, of_integer, of_pointer, of_object, Pointer, Object, Method, Slot,
}

pub record PaintMethods (F S : Type 0) : Type 0 where
  pub dps_arc : Slot (F → F → F → F → F → S → Value F × S)
  pub dps_arcn : Slot (F → F → F → F → F → S → Value F × S)
  pub dps_arct : Slot (F → F → F → F → F → S → Value F × S)
  pub dps_clip : Slot (S → Value F × S)
  pub dps_closepath : Slot (S → Value F × S)
  pub dps_curveto : Slot (F → F → F → F → F → F → S → Value F × S)
  pub dps_eoclip : Slot (S → Value F × S)
  pub dps_eofill : Slot (S → Value F × S)
  pub dps_fill : Slot (S → Value F × S)
  pub dps_flattenpath : Slot (S → Value F × S)
  pub dps_initclip : Slot (S → Value F × S)
  pub dps_lineto : Slot (F → F → S → Value F × S)
  pub dps_moveto : Slot (F → F → S → Value F × S)
  pub dps_newpath : Slot (S → Value F × S)
  pub dps_pathbbox : Slot (Pointer → Pointer → Pointer → Pointer → S → Value F × S)
  pub dps_rcurveto : Slot (F → F → F → F → F → F → S → Value F × S)
  pub dps_rectclip : Slot (F → F → F → F → S → Value F × S)
  pub dps_rectfill : Slot (F → F → F → F → S → Value F × S)
  pub dps_rectstroke : Slot (F → F → F → F → S → Value F × S)
  pub dps_reversepath : Slot (S → Value F × S)
  pub dps_rlineto : Slot (F → F → S → Value F × S)
  pub dps_rmoveto : Slot (F → F → S → Value F × S)
  pub dps_stroke : Slot (S → Value F × S)
  pub gs_send_bezier_path : Slot (Object → S → Value F × S)
  pub gs_rect_clip_list : Slot (Pointer → ℤ → S → Value F × S)
  pub gs_rect_fill_list : Slot (Pointer → ℤ → S → Value F × S)

-- `GET_IMP` gives the method of the class for a selector.
unfoldable pub initialize_paint : {F S : Type 0} → (String → Method F S) → PaintMethods F S
initialize_paint get_imp = record {
  dps_arc = λ self cmd a0 a1 a2 a3 a4.
      get_imp "DPSarc:::::" self cmd
        (of_float a0 ∷ of_float a1 ∷ of_float a2 ∷ of_float a3 ∷ of_float a4 ∷ []);
  dps_arcn = λ self cmd a0 a1 a2 a3 a4.
      get_imp "DPSarcn:::::" self cmd
        (of_float a0 ∷ of_float a1 ∷ of_float a2 ∷ of_float a3 ∷ of_float a4 ∷ []);
  dps_arct = λ self cmd a0 a1 a2 a3 a4.
      get_imp "DPSarct:::::" self cmd
        (of_float a0 ∷ of_float a1 ∷ of_float a2 ∷ of_float a3 ∷ of_float a4 ∷ []);
  dps_clip = λ self cmd. get_imp "DPSclip" self cmd ([]);
  dps_closepath = λ self cmd. get_imp "DPSclosepath" self cmd ([]);
  dps_curveto = λ self cmd a0 a1 a2 a3 a4 a5.
      get_imp "DPScurveto::::::" self cmd
        (of_float a0 ∷ of_float a1 ∷ of_float a2 ∷ of_float a3 ∷ of_float a4 ∷ of_float a5 ∷ []);
  dps_eoclip = λ self cmd. get_imp "DPSeoclip" self cmd ([]);
  dps_eofill = λ self cmd. get_imp "DPSeofill" self cmd ([]);
  dps_fill = λ self cmd. get_imp "DPSfill" self cmd ([]);
  dps_flattenpath = λ self cmd. get_imp "DPSflattenpath" self cmd ([]);
  dps_initclip = λ self cmd. get_imp "DPSinitclip" self cmd ([]);
  dps_lineto = λ self cmd a0 a1. get_imp "DPSlineto::" self cmd (of_float a0 ∷ of_float a1 ∷ []);
  dps_moveto = λ self cmd a0 a1. get_imp "DPSmoveto::" self cmd (of_float a0 ∷ of_float a1 ∷ []);
  dps_newpath = λ self cmd. get_imp "DPSnewpath" self cmd ([]);
  dps_pathbbox = λ self cmd a0 a1 a2 a3.
      get_imp "DPSpathbbox::::" self cmd
        (of_pointer a0 ∷ of_pointer a1 ∷ of_pointer a2 ∷ of_pointer a3 ∷ []);
  dps_rcurveto = λ self cmd a0 a1 a2 a3 a4 a5.
      get_imp "DPSrcurveto::::::" self cmd
        (of_float a0 ∷ of_float a1 ∷ of_float a2 ∷ of_float a3 ∷ of_float a4 ∷ of_float a5 ∷ []);
  dps_rectclip = λ self cmd a0 a1 a2 a3.
      get_imp "DPSrectclip::::" self cmd
        (of_float a0 ∷ of_float a1 ∷ of_float a2 ∷ of_float a3 ∷ []);
  dps_rectfill = λ self cmd a0 a1 a2 a3.
      get_imp "DPSrectfill::::" self cmd
        (of_float a0 ∷ of_float a1 ∷ of_float a2 ∷ of_float a3 ∷ []);
  dps_rectstroke = λ self cmd a0 a1 a2 a3.
      get_imp "DPSrectstroke::::" self cmd
        (of_float a0 ∷ of_float a1 ∷ of_float a2 ∷ of_float a3 ∷ []);
  dps_reversepath = λ self cmd. get_imp "DPSreversepath" self cmd ([]);
  dps_rlineto = λ self cmd a0 a1. get_imp "DPSrlineto::" self cmd (of_float a0 ∷ of_float a1 ∷ []);
  dps_rmoveto = λ self cmd a0 a1. get_imp "DPSrmoveto::" self cmd (of_float a0 ∷ of_float a1 ∷ []);
  dps_stroke = λ self cmd. get_imp "DPSstroke" self cmd ([]);
  gs_send_bezier_path = λ self cmd a0. get_imp "GSSendBezierPath:" self cmd (of_object a0 ∷ []);
  gs_rect_clip_list =
      λ self cmd a0 a1. get_imp "GSRectClipList::" self cmd (of_pointer a0 ∷ of_integer a1 ∷ []);
  gs_rect_fill_list =
      λ self cmd a0 a1. get_imp "GSRectFillList::" self cmd (of_pointer a0 ∷ of_integer a1 ∷ []);
}
