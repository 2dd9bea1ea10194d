-- ===== src/Operators/Methods/Matrix.antt =====
-- Headers/Additions/GNUstepGUI/GSMethodTable.h: the functions of the table for the transformation matrix; and how
-- Source/NSGraphicsContext.m fills them in.
use libs_gui.Base.{[], ◌∷◌}
use libs_gui.Operators.Values.{
  String, Value, of_float, of_pointer, of_object, Pointer, Object, Method, Slot,
}

pub record MatrixMethods (F S : Type 0) : Type 0 where
  pub dps_concat : Slot (Pointer → S → Value F × S)
  pub dps_initmatrix : Slot (S → Value F × S)
  pub dps_rotate : Slot (F → S → Value F × S)
  pub dps_scale : Slot (F → F → S → Value F × S)
  pub dps_translate : Slot (F → F → S → Value F × S)
  pub gs_current_ctm : Slot (S → Value F × S)
  pub gs_set_ctm : Slot (Object → S → Value F × S)
  pub gs_concat_ctm : Slot (Object → S → Value F × S)

-- `GET_IMP` gives the method of the class for a selector.
unfoldable pub initialize_matrix : {F S : Type 0} → (String → Method F S) → MatrixMethods F S
initialize_matrix get_imp = record {
  dps_concat = λ self cmd a0. get_imp "DPSconcat:" self cmd (of_pointer a0 ∷ []);
  dps_initmatrix = λ self cmd. get_imp "DPSinitmatrix" self cmd ([]);
  dps_rotate = λ self cmd a0. get_imp "DPSrotate:" self cmd (of_float a0 ∷ []);
  dps_scale = λ self cmd a0 a1. get_imp "DPSscale::" self cmd (of_float a0 ∷ of_float a1 ∷ []);
  dps_translate =
      λ self cmd a0 a1. get_imp "DPStranslate::" self cmd (of_float a0 ∷ of_float a1 ∷ []);
  gs_current_ctm = λ self cmd. get_imp "GSCurrentCTM" self cmd ([]);
  gs_set_ctm = λ self cmd a0. get_imp "GSSetCTM:" self cmd (of_object a0 ∷ []);
  gs_concat_ctm = λ self cmd a0. get_imp "GSConcatCTM:" self cmd (of_object a0 ∷ []);
}
