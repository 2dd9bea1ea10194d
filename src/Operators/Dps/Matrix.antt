-- ===== src/Operators/Dps/Matrix.antt =====
-- Headers/AppKit/DPSOperators.h: the operators on the transformation matrix. Each calls its function in the table of
-- the context.
use libs_gui.Base.{true, false, ℕ, [], ◌∷◌, Option, some, ◌≡◌, refl}
use libs_gui.Operators.Values.{
  String, of_float, of_pointer, of_object, Pointer, Object, Effect, Method, Message, msg_send,
}
use libs_gui.Operators.Methods.{initialize_method_table}
use libs_gui.Operators.Context.{Context, via, via_function, initialized}
use libs_gui.Operators.Methods.Matrix.{initialize_matrix}

-- The operators with their arguments.
pub data MatrixOperator (F : Type 0) : Type 0 where
  concat : Pointer → MatrixOperator F
  initmatrix : MatrixOperator F
  rotate : F → MatrixOperator F
  scale : F → F → MatrixOperator F
  translate : F → F → MatrixOperator F
  current_ctm : MatrixOperator F
  set_ctm : Object → MatrixOperator F
  concat_ctm : Object → MatrixOperator F

module _ {F S : Type 0} where
  unfoldable pub dps_concat : Option (Context F S) → Pointer → Effect F S
  dps_concat ctxt m = via ctxt λ table self. table.matrix.dps_concat self "DPSconcat:" m

  unfoldable pub dps_initmatrix : Option (Context F S) → Effect F S
  dps_initmatrix ctxt = via ctxt λ table self. table.matrix.dps_initmatrix self "DPSinitmatrix"

  unfoldable pub dps_rotate : Option (Context F S) → F → Effect F S
  dps_rotate ctxt angle = via ctxt λ table self. table.matrix.dps_rotate self "DPSrotate:" angle

  unfoldable pub dps_scale : Option (Context F S) → F → F → Effect F S
  dps_scale ctxt x y = via ctxt λ table self. table.matrix.dps_scale self "DPSscale::" x y

  unfoldable pub dps_translate : Option (Context F S) → F → F → Effect F S
  dps_translate ctxt x y =
      via ctxt λ table self. table.matrix.dps_translate self "DPStranslate::" x y

  unfoldable pub gs_current_ctm : Option (Context F S) → Effect F S
  gs_current_ctm ctxt =
      via_function ctxt λ table self. table.matrix.gs_current_ctm self "GSCurrentCTM"

  unfoldable pub gs_set_ctm : Option (Context F S) → Object → Effect F S
  gs_set_ctm ctxt ctm = via ctxt λ table self. table.matrix.gs_set_ctm self "GSSetCTM:" ctm

  unfoldable pub gs_concat_ctm : Option (Context F S) → Object → Effect F S
  gs_concat_ctm ctxt ctm = via ctxt λ table self. table.matrix.gs_concat_ctm self "GSConcatCTM:" ctm

  -- The call of an operator.
  unfoldable pub perform_matrix : MatrixOperator F → Option (Context F S) → Effect F S
  perform_matrix (concat m) ctxt = dps_concat ctxt m
  perform_matrix initmatrix ctxt = dps_initmatrix ctxt
  perform_matrix (rotate angle) ctxt = dps_rotate ctxt angle
  perform_matrix (scale x y) ctxt = dps_scale ctxt x y
  perform_matrix (translate x y) ctxt = dps_translate ctxt x y
  perform_matrix current_ctm ctxt = gs_current_ctm ctxt
  perform_matrix (set_ctm ctm) ctxt = gs_set_ctm ctxt ctm
  perform_matrix (concat_ctm ctm) ctxt = gs_concat_ctm ctxt ctm

-- The message that the operator stands for.
unfoldable pub matrix_message : {F : Type 0} → MatrixOperator F → Message F
matrix_message (concat m) = record {
  selector = "DPSconcat:";
  arguments = of_pointer m ∷ [];
  is_function = false;
}
matrix_message initmatrix = record {
  selector = "DPSinitmatrix";
  arguments = [];
  is_function = false;
}
matrix_message (rotate angle) = record {
  selector = "DPSrotate:";
  arguments = of_float angle ∷ [];
  is_function = false;
}
matrix_message (scale x y) = record {
  selector = "DPSscale::";
  arguments = of_float x ∷ of_float y ∷ [];
  is_function = false;
}
matrix_message (translate x y) = record {
  selector = "DPStranslate::";
  arguments = of_float x ∷ of_float y ∷ [];
  is_function = false;
}
matrix_message current_ctm = record {
  selector = "GSCurrentCTM";
  arguments = [];
  is_function = true;
}
matrix_message (set_ctm ctm) = record {
  selector = "GSSetCTM:";
  arguments = of_object ctm ∷ [];
  is_function = false;
}
matrix_message (concat_ctm ctm) = record {
  selector = "GSConcatCTM:";
  arguments = of_object ctm ∷ [];
  is_function = false;
}

pub perform_matrix-sent :
    {F S : Type 0} (get_imp : ℕ → String → Method F S) (o : MatrixOperator F) (id class : ℕ)
    (state : S)
    → perform_matrix o (some (initialized get_imp id class)) state
      ≡ msg_send get_imp (some (id, class)) (matrix_message o) state
unfolding perform_matrix matrix_message initialized msg_send initialize_method_table
    initialize_matrix dps_concat dps_initmatrix dps_rotate dps_scale dps_translate gs_current_ctm
    gs_set_ctm gs_concat_ctm via via_function
perform_matrix-sent get_imp (concat m) id class state = refl
perform_matrix-sent get_imp initmatrix id class state = refl
perform_matrix-sent get_imp (rotate angle) id class state = refl
perform_matrix-sent get_imp (scale x y) id class state = refl
perform_matrix-sent get_imp (translate x y) id class state = refl
perform_matrix-sent get_imp current_ctm id class state = refl
perform_matrix-sent get_imp (set_ctm ctm) id class state = refl
perform_matrix-sent get_imp (concat_ctm ctm) id class state = refl
