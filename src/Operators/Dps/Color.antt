-- ===== src/Operators/Dps/Color.antt =====
-- Headers/AppKit/DPSOperators.h: the operators on colors. Each calls its function in the table of
-- the context.
pub mod Sent
use libs_gui.Base.{false, ℕ, [], ◌∷◌, Option, none, some, ◌≡◌, refl}
use libs_gui.Operators.Values.{
  String, of_float, of_pointer, of_object, Pointer, Object, Effect, Method, Message, msg_send,
}
use libs_gui.Operators.Methods.{initialize_method_table}
use libs_gui.Operators.Context.{Context, via, via_function, initialized}
use libs_gui.Operators.Methods.Color.{initialize_color}

-- The operators with their arguments.
pub data ColorOperator (F : Type 0) : Type 0 where
  currentalpha : Pointer → ColorOperator F
  currentcmykcolor : Pointer → Pointer → Pointer → Pointer → ColorOperator F
  currentgray : Pointer → ColorOperator F
  currenthsbcolor : Pointer → Pointer → Pointer → ColorOperator F
  currentrgbcolor : Pointer → Pointer → Pointer → ColorOperator F
  setalpha : F → ColorOperator F
  setcmykcolor : F → F → F → F → ColorOperator F
  setgray : F → ColorOperator F
  sethsbcolor : F → F → F → ColorOperator F
  setrgbcolor : F → F → F → ColorOperator F
  set_fill_colorspace : Object → ColorOperator F
  set_stroke_colorspace : Object → ColorOperator F
  set_fill_color : Pointer → ColorOperator F
  set_stroke_color : Pointer → ColorOperator F

module _ {F S : Type 0} where
  unfoldable pub dps_currentalpha : Option (Context F S) → Pointer → Effect F S
  dps_currentalpha ctxt a =
      via ctxt λ table self. table.color.dps_currentalpha self "DPScurrentalpha:" a

  unfoldable pub dps_currentcmykcolor :
      Option (Context F S) → Pointer → Pointer → Pointer → Pointer → Effect F S
  dps_currentcmykcolor ctxt c m y k =
      via ctxt λ table self. table.color.dps_currentcmykcolor self "DPScurrentcmykcolor::::" c m y k

  unfoldable pub dps_currentgray : Option (Context F S) → Pointer → Effect F S
  dps_currentgray ctxt gray =
      via ctxt λ table self. table.color.dps_currentgray self "DPScurrentgray:" gray

  unfoldable pub dps_currenthsbcolor :
      Option (Context F S) → Pointer → Pointer → Pointer → Effect F S
  dps_currenthsbcolor ctxt h s b =
      via ctxt λ table self. table.color.dps_currenthsbcolor self "DPScurrenthsbcolor:::" h s b

  unfoldable pub dps_currentrgbcolor :
      Option (Context F S) → Pointer → Pointer → Pointer → Effect F S
  dps_currentrgbcolor ctxt r g b =
      via ctxt λ table self. table.color.dps_currentrgbcolor self "DPScurrentrgbcolor:::" r g b

  unfoldable pub dps_setalpha : Option (Context F S) → F → Effect F S
  dps_setalpha ctxt a = via ctxt λ table self. table.color.dps_setalpha self "DPSsetalpha:" a

  unfoldable pub dps_setcmykcolor : Option (Context F S) → F → F → F → F → Effect F S
  dps_setcmykcolor ctxt c m y k =
      via ctxt λ table self. table.color.dps_setcmykcolor self "DPSsetcmykcolor::::" c m y k

  unfoldable pub dps_setgray : Option (Context F S) → F → Effect F S
  dps_setgray ctxt gray = via ctxt λ table self. table.color.dps_setgray self "DPSsetgray:" gray

  unfoldable pub dps_sethsbcolor : Option (Context F S) → F → F → F → Effect F S
  dps_sethsbcolor ctxt h s b =
      via ctxt λ table self. table.color.dps_sethsbcolor self "DPSsethsbcolor:::" h s b

  unfoldable pub dps_setrgbcolor : Option (Context F S) → F → F → F → Effect F S
  dps_setrgbcolor ctxt r g b =
      via ctxt λ table self. table.color.dps_setrgbcolor self "DPSsetrgbcolor:::" r g b

  unfoldable pub gs_set_fill_colorspace : Option (Context F S) → Object → Effect F S
  gs_set_fill_colorspace ctxt dict =
      via ctxt λ table self. table.color.gs_set_fill_colorspace self "GSSetFillColorspace:" dict

  unfoldable pub gs_set_stroke_colorspace : Option (Context F S) → Object → Effect F S
  gs_set_stroke_colorspace ctxt dict =
      via ctxt λ table self. table.color.gs_set_stroke_colorspace self "GSSetStrokeColorspace:" dict

  unfoldable pub gs_set_fill_color : Option (Context F S) → Pointer → Effect F S
  gs_set_fill_color ctxt values =
      via ctxt λ table self. table.color.gs_set_fill_color self "GSSetFillColor:" values

  unfoldable pub gs_set_stroke_color : Option (Context F S) → Pointer → Effect F S
  gs_set_stroke_color ctxt values =
      via ctxt λ table self. table.color.gs_set_stroke_color self "GSSetStrokeColor:" values

  -- The call of an operator.
  unfoldable pub perform_color : ColorOperator F → Option (Context F S) → Effect F S
  perform_color (currentalpha a) ctxt = dps_currentalpha ctxt a
  perform_color (currentcmykcolor c m y k) ctxt = dps_currentcmykcolor ctxt c m y k
  perform_color (currentgray gray) ctxt = dps_currentgray ctxt gray
  perform_color (currenthsbcolor h s b) ctxt = dps_currenthsbcolor ctxt h s b
  perform_color (currentrgbcolor r g b) ctxt = dps_currentrgbcolor ctxt r g b
  perform_color (setalpha a) ctxt = dps_setalpha ctxt a
  perform_color (setcmykcolor c m y k) ctxt = dps_setcmykcolor ctxt c m y k
  perform_color (setgray gray) ctxt = dps_setgray ctxt gray
  perform_color (sethsbcolor h s b) ctxt = dps_sethsbcolor ctxt h s b
  perform_color (setrgbcolor r g b) ctxt = dps_setrgbcolor ctxt r g b
  perform_color (set_fill_colorspace dict) ctxt = gs_set_fill_colorspace ctxt dict
  perform_color (set_stroke_colorspace dict) ctxt = gs_set_stroke_colorspace ctxt dict
  perform_color (set_fill_color values) ctxt = gs_set_fill_color ctxt values
  perform_color (set_stroke_color values) ctxt = gs_set_stroke_color ctxt values

-- The message that the operator stands for.
unfoldable pub color_message : {F : Type 0} → ColorOperator F → Message F
color_message (currentalpha a) = record {
  selector = "DPScurrentalpha:";
  arguments = of_pointer a ∷ [];
  is_function = false;
}
color_message (currentcmykcolor c m y k) = record {
  selector = "DPScurrentcmykcolor::::";
  arguments = of_pointer c ∷ of_pointer m ∷ of_pointer y ∷ of_pointer k ∷ [];
  is_function = false;
}
color_message (currentgray gray) = record {
  selector = "DPScurrentgray:";
  arguments = of_pointer gray ∷ [];
  is_function = false;
}
color_message (currenthsbcolor h s b) = record {
  selector = "DPScurrenthsbcolor:::";
  arguments = of_pointer h ∷ of_pointer s ∷ of_pointer b ∷ [];
  is_function = false;
}
color_message (currentrgbcolor r g b) = record {
  selector = "DPScurrentrgbcolor:::";
  arguments = of_pointer r ∷ of_pointer g ∷ of_pointer b ∷ [];
  is_function = false;
}
color_message (setalpha a) = record {
  selector = "DPSsetalpha:";
  arguments = of_float a ∷ [];
  is_function = false;
}
color_message (setcmykcolor c m y k) = record {
  selector = "DPSsetcmykcolor::::";
  arguments = of_float c ∷ of_float m ∷ of_float y ∷ of_float k ∷ [];
  is_function = false;
}
color_message (setgray gray) = record {
  selector = "DPSsetgray:";
  arguments = of_float gray ∷ [];
  is_function = false;
}
color_message (sethsbcolor h s b) = record {
  selector = "DPSsethsbcolor:::";
  arguments = of_float h ∷ of_float s ∷ of_float b ∷ [];
  is_function = false;
}
color_message (setrgbcolor r g b) = record {
  selector = "DPSsetrgbcolor:::";
  arguments = of_float r ∷ of_float g ∷ of_float b ∷ [];
  is_function = false;
}
color_message (set_fill_colorspace dict) = record {
  selector = "GSSetFillColorspace:";
  arguments = of_object dict ∷ [];
  is_function = false;
}
color_message (set_stroke_colorspace dict) = record {
  selector = "GSSetStrokeColorspace:";
  arguments = of_object dict ∷ [];
  is_function = false;
}
color_message (set_fill_color values) = record {
  selector = "GSSetFillColor:";
  arguments = of_pointer values ∷ [];
  is_function = false;
}
color_message (set_stroke_color values) = record {
  selector = "GSSetStrokeColor:";
  arguments = of_pointer values ∷ [];
  is_function = false;
}
