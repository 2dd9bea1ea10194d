-- ===== src/Operators/Dps.antt =====
-- Headers/AppKit/DPSOperators.h: all operators. Either form of the macros, with the table or with a
-- message, gives an operator the same effect on a context.
pub mod Color
pub mod Text
pub mod Gstate
pub mod Line
pub mod Matrix
pub mod Paint
pub mod Window
pub mod Extension
pub mod Client
use libs_gui.Base.{ℕ, Bool, true, false, ◌≡◌, refl, Option, none, some, ◌==◌, Bool-cases, inl, inr}
use libs_gui.Operators.Values.{
  String, Value, of_pointer, no_value, zero_value, Effect, Method, Message, msg_send,
}
use libs_gui.Operators.Context.{Context, initialized}
use libs_gui.Operators.Dps.Color.{ColorOperator, perform_color, color_message}
use libs_gui.Operators.Dps.Color.Sent.{perform_color-sent}
use libs_gui.Operators.Dps.Text.{TextOperator, perform_text, text_message}
use libs_gui.Operators.Dps.Text.Sent.{perform_text-sent}
use libs_gui.Operators.Dps.Gstate.{
  GstateOperator, perform_gstate, gstate_message, perform_gstate-sent,
}
use libs_gui.Operators.Dps.Line.{LineOperator, perform_line, line_message}
use libs_gui.Operators.Dps.Line.Sent.{perform_line-sent}
use libs_gui.Operators.Dps.Matrix.{
  MatrixOperator, perform_matrix, matrix_message, perform_matrix-sent,
}
use libs_gui.Operators.Dps.Paint.{PaintOperator, perform_paint, paint_message}
use libs_gui.Operators.Dps.Paint.Sent.{perform_paint-sent}
use libs_gui.Operators.Dps.Window.{
  WindowOperator, perform_window, window_message, perform_window-sent,
}
use libs_gui.Operators.Dps.Extension.{
  ExtensionOperator, perform_extension, extension_message, perform_extension-sent,
}
use libs_gui.Operators.Dps.Client.{
  ClientOperator, perform_client, client_message, perform_client-sent, IsPrinted,
}

pub data Operator (F : Type 0) : Type 0 where
  color : ColorOperator F → Operator F
  text : TextOperator F → Operator F
  gstate : GstateOperator F → Operator F
  line : LineOperator F → Operator F
  matrix : MatrixOperator F → Operator F
  paint : PaintOperator F → Operator F
  window : WindowOperator F → Operator F
  extension : ExtensionOperator F → Operator F
  client : ClientOperator F → Operator F

unfoldable pub perform : {F S : Type 0} → Operator F → Option (Context F S) → Effect F S
perform (color o) = perform_color o
perform (text o) = perform_text o
perform (gstate o) = perform_gstate o
perform (line o) = perform_line o
perform (matrix o) = perform_matrix o
perform (paint o) = perform_paint o
perform (window o) = perform_window o
perform (extension o) = perform_extension o
perform (client o) = perform_client o

unfoldable pub operator_message : {F : Type 0} → Operator F → Message F
operator_message (color o) = color_message o
operator_message (text o) = text_message o
operator_message (gstate o) = gstate_message o
operator_message (line o) = line_message o
operator_message (matrix o) = matrix_message o
operator_message (paint o) = paint_message o
operator_message (window o) = window_message o
operator_message (extension o) = extension_message o
operator_message (client o) = client_message o

-- A print with the format NULL sends nothing.
abbrev pub IsSent : {F : Type 0} → Operator F → Type 0
IsSent (client o) = IsPrinted o
IsSent (color o) = Unit {0}
IsSent (text o) = Unit {0}
IsSent (gstate o) = Unit {0}
IsSent (line o) = Unit {0}
IsSent (matrix o) = Unit {0}
IsSent (paint o) = Unit {0}
IsSent (window o) = Unit {0}
IsSent (extension o) = Unit {0}

-- On a context with the table of its class, every operator has the effect of its message to the
-- context, with the same arguments in the same order: the macros with the table do what those with
-- messages do. The one that prints for PostScript clients has a format that is not NULL.
pub perform-sent :
    {F S : Type 0} (get_imp : ℕ → String → Method F S) (o : Operator F) (id class : ℕ) (state : S)
    → IsSent o
    → perform o (some (initialized get_imp id class)) state
      ≡ msg_send get_imp (some (id, class)) (operator_message o) state
unfolding perform operator_message
perform-sent get_imp (color o) id class state h = perform_color-sent get_imp o id class state
perform-sent get_imp (text o) id class state h = perform_text-sent get_imp o id class state
perform-sent get_imp (gstate o) id class state h = perform_gstate-sent get_imp o id class state
perform-sent get_imp (line o) id class state h = perform_line-sent get_imp o id class state
perform-sent get_imp (matrix o) id class state h = perform_matrix-sent get_imp o id class state
perform-sent get_imp (paint o) id class state h = perform_paint-sent get_imp o id class state
perform-sent get_imp (window o) id class state h = perform_window-sent get_imp o id class state
perform-sent get_imp (extension o) id class state h =
    perform_extension-sent get_imp o id class state
perform-sent get_imp (client o) id class state h = perform_client-sent get_imp o id class state h
