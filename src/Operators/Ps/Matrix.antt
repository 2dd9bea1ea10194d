-- ===== src/Operators/Ps/Matrix.antt =====
-- Headers/AppKit/PSOperators.h: the operators on the transformation matrix, on the context that is current.
use libs_gui.Base.{Option, ◌≡◌, refl}
use libs_gui.Operators.Values.{Pointer, Effect}
use libs_gui.Operators.Context.{Context}
use libs_gui.Operators.Dps.Matrix.{
  MatrixOperator, perform_matrix, dps_concat, dps_initmatrix, dps_rotate, dps_scale, dps_translate,
}

pub data PsMatrixOperator (F : Type 0) : Type 0 where
  concat : Pointer → PsMatrixOperator F
  initmatrix : PsMatrixOperator F
  rotate : F → PsMatrixOperator F
  scale : F → F → PsMatrixOperator F
  translate : F → F → PsMatrixOperator F

-- `DEFCTXT` is the current context of the state.
module _ {F S : Type 0} (current_context : S → Option (Context F S)) where
  unfoldable pub ps_concat : Pointer → Effect F S
  ps_concat m state = dps_concat (current_context state) m state

  unfoldable pub ps_initmatrix : Effect F S
  ps_initmatrix state = dps_initmatrix (current_context state) state

  unfoldable pub ps_rotate : F → Effect F S
  ps_rotate angle state = dps_rotate (current_context state) angle state

  unfoldable pub ps_scale : F → F → Effect F S
  ps_scale x y state = dps_scale (current_context state) x y state

  unfoldable pub ps_translate : F → F → Effect F S
  ps_translate x y state = dps_translate (current_context state) x y state

  unfoldable pub perform_ps_matrix : PsMatrixOperator F → Effect F S
  perform_ps_matrix (concat m) = ps_concat m
  perform_ps_matrix initmatrix = ps_initmatrix
  perform_ps_matrix (rotate angle) = ps_rotate angle
  perform_ps_matrix (scale x y) = ps_scale x y
  perform_ps_matrix (translate x y) = ps_translate x y

-- The operator of DPSOperators.h with the same name and arguments.
unfoldable pub as_matrix_operator : {F : Type 0} → PsMatrixOperator F → MatrixOperator F
as_matrix_operator (concat m) = MatrixOperator.concat m
as_matrix_operator initmatrix = MatrixOperator.initmatrix
as_matrix_operator (rotate angle) = MatrixOperator.rotate angle
as_matrix_operator (scale x y) = MatrixOperator.scale x y
as_matrix_operator (translate x y) = MatrixOperator.translate x y

pub perform_ps_matrix_lem :
    {F S : Type 0} (current_context : S → Option (Context F S)) (o : PsMatrixOperator F) (state : S)
    → perform_ps_matrix current_context o state
      ≡ perform_matrix (as_matrix_operator o) (current_context state) state
unfolding perform_ps_matrix perform_matrix as_matrix_operator ps_concat ps_initmatrix ps_rotate
    ps_scale ps_translate
perform_ps_matrix_lem current_context (concat m) state = refl
perform_ps_matrix_lem current_context initmatrix state = refl
perform_ps_matrix_lem current_context (rotate angle) state = refl
perform_ps_matrix_lem current_context (scale x y) state = refl
perform_ps_matrix_lem current_context (translate x y) state = refl
