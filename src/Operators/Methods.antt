-- ===== src/Operators/Methods.antt =====
-- The table of the methods of a graphics context, and the context that has it.
pub mod Color
pub mod Text
pub mod Gstate
pub mod Line
pub mod Matrix
pub mod Paint
pub mod Window
pub mod Extension
pub mod Client
pub mod Other
use libs_gui.Base.{ℕ, Option, none, some}
use libs_gui.Operators.Values.{String, Value, no_value, Effect, Method, Message}
use libs_gui.Operators.Methods.Color.{ColorMethods, initialize_color}
use libs_gui.Operators.Methods.Text.{TextMethods, initialize_text}
use libs_gui.Operators.Methods.Gstate.{GstateMethods, initialize_gstate}
use libs_gui.Operators.Methods.Line.{LineMethods, initialize_line}
use libs_gui.Operators.Methods.Matrix.{MatrixMethods, initialize_matrix}
use libs_gui.Operators.Methods.Paint.{PaintMethods, initialize_paint}
use libs_gui.Operators.Methods.Window.{WindowMethods, initialize_window}
use libs_gui.Operators.Methods.Extension.{ExtensionMethods, initialize_extension}
use libs_gui.Operators.Methods.Client.{ClientMethods, initialize_client}
use libs_gui.Operators.Methods.Other.{OtherMethods, initialize_other}

pub record MethodTable (F S : Type 0) : Type 0 where
  pub color : ColorMethods F S
  pub text : TextMethods F S
  pub gstate : GstateMethods F S
  pub line : LineMethods F S
  pub matrix : MatrixMethods F S
  pub paint : PaintMethods F S
  pub window : WindowMethods F S
  pub extension : ExtensionMethods F S
  pub client : ClientMethods F S
  pub other : OtherMethods F S

-- `_initializeMethodTable` of a class.
unfoldable pub initialize_method_table : {F S : Type 0} → (String → Method F S) → MethodTable F S
initialize_method_table get_imp = record {
  color = initialize_color get_imp;
  text = initialize_text get_imp;
  gstate = initialize_gstate get_imp;
  line = initialize_line get_imp;
  matrix = initialize_matrix get_imp;
  paint = initialize_paint get_imp;
  window = initialize_window get_imp;
  extension = initialize_extension get_imp;
  client = initialize_client get_imp;
  other = initialize_other get_imp;
}
