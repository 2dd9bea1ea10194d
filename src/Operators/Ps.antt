-- ===== src/Operators/Ps.antt =====
-- Headers/AppKit/PSOperators.h: all operators, and their effect on the current context.
pub mod Color
pub mod Text
pub mod Gstate
pub mod Line
pub mod Matrix
pub mod Paint
pub mod Extension
pub mod Client
use libs_gui.Base.{refl, Option, none}
use libs_gui.Operators.Values.{Value, no_value, Effect}
use libs_gui.Operators.Context.{Context}
use libs_gui.Operators.Dps.{Operator}
use libs_gui.Operators.Ps.Color.{PsColorOperator, perform_ps_color, as_color_operator}
use libs_gui.Operators.Ps.Text.{PsTextOperator, perform_ps_text, as_text_operator}
use libs_gui.Operators.Ps.Gstate.{PsGstateOperator, perform_ps_gstate, as_gstate_operator}
use libs_gui.Operators.Ps.Line.{PsLineOperator, perform_ps_line, as_line_operator}
use libs_gui.Operators.Ps.Matrix.{PsMatrixOperator, perform_ps_matrix, as_matrix_operator}
use libs_gui.Operators.Ps.Paint.{PsPaintOperator, perform_ps_paint, as_paint_operator}
use libs_gui.Operators.Ps.Extension.{
  PsExtensionOperator, perform_ps_extension, as_extension_operator,
}
use libs_gui.Operators.Ps.Client.{PsClientOperator, perform_ps_client, as_client_operator}

pub data PsOperator (F : Type 0) : Type 0 where
  color : PsColorOperator F → PsOperator F
  text : PsTextOperator F → PsOperator F
  gstate : PsGstateOperator F → PsOperator F
  line : PsLineOperator F → PsOperator F
  matrix : PsMatrixOperator F → PsOperator F
  paint : PsPaintOperator F → PsOperator F
  extension : PsExtensionOperator F → PsOperator F
  client : PsClientOperator F → PsOperator F

unfoldable pub perform_ps : {F S : Type 0} → (S → Option (Context F S)) → PsOperator F → Effect F S
perform_ps current_context (color o) = perform_ps_color current_context o
perform_ps current_context (text o) = perform_ps_text current_context o
perform_ps current_context (gstate o) = perform_ps_gstate current_context o
perform_ps current_context (line o) = perform_ps_line current_context o
perform_ps current_context (matrix o) = perform_ps_matrix current_context o
perform_ps current_context (paint o) = perform_ps_paint current_context o
perform_ps current_context (extension o) = perform_ps_extension current_context o
perform_ps current_context (client o) = perform_ps_client current_context o

unfoldable pub as_operator : {F : Type 0} → PsOperator F → Operator F
as_operator (color o) = Operator.color (as_color_operator o)
as_operator (text o) = Operator.text (as_text_operator o)
as_operator (gstate o) = Operator.gstate (as_gstate_operator o)
as_operator (line o) = Operator.line (as_line_operator o)
as_operator (matrix o) = Operator.matrix (as_matrix_operator o)
as_operator (paint o) = Operator.paint (as_paint_operator o)
as_operator (extension o) = Operator.extension (as_extension_operator o)
as_operator (client o) = Operator.client (as_client_operator o)
