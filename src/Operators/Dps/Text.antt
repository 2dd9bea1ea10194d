-- ===== src/Operators/Dps/Text.antt =====
-- Headers/AppKit/DPSOperators.h: the operators on text. Each calls its function in the table of
-- the context.
pub mod Sent
use libs_gui.Base.{true, false, ℕ, ℤ, [], ◌∷◌, Option, none, some, ◌≡◌, refl}
use libs_gui.Operators.Values.{
  String, of_float, of_integer, of_count, of_pointer, of_object, of_point, Point, Pointer, Object,
  Effect, Method, Message, msg_send,
}
use libs_gui.Operators.Methods.{initialize_method_table}
use libs_gui.Operators.Context.{Context, via, via_function, initialized}
use libs_gui.Operators.Methods.Text.{initialize_text}

-- The operators with their arguments.
pub data TextOperator (F : Type 0) : Type 0 where
  ashow : F → F → Pointer → TextOperator F
  awidthshow : F → F → ℤ → F → F → Pointer → TextOperator F
  charpath : Pointer → ℤ → TextOperator F
  show : Pointer → TextOperator F
  widthshow : F → F → ℤ → Pointer → TextOperator F
  xshow : Pointer → Pointer → ℤ → TextOperator F
  xyshow : Pointer → Pointer → ℤ → TextOperator F
  yshow : Pointer → Pointer → ℤ → TextOperator F
  set_character_spacing : F → TextOperator F
  set_font : Object → TextOperator F
  set_font_size : F → TextOperator F
  get_text_ctm : TextOperator F
  get_text_position : TextOperator F
  set_text_ctm : Object → TextOperator F
  set_text_drawing_mode : ℤ → TextOperator F
  set_text_position : Point F → TextOperator F
  show_text : Pointer → ℕ → TextOperator F
  show_glyphs : Pointer → ℕ → TextOperator F
  show_glyphs_with_advances : Pointer → Pointer → ℕ → TextOperator F

module _ {F S : Type 0} where
  unfoldable pub dps_ashow : Option (Context F S) → F → F → Pointer → Effect F S
  dps_ashow ctxt x y s = via ctxt λ table self. table.text.dps_ashow self "DPSashow:::" x y s

  unfoldable pub dps_awidthshow : Option (Context F S) → F → F → ℤ → F → F → Pointer → Effect F S
  dps_awidthshow ctxt cx cy c ax ay s =
      via ctxt λ table self. table.text.dps_awidthshow self "DPSawidthshow::::::" cx cy c ax ay s

  unfoldable pub dps_charpath : Option (Context F S) → Pointer → ℤ → Effect F S
  dps_charpath ctxt s b = via ctxt λ table self. table.text.dps_charpath self "DPScharpath::" s b

  unfoldable pub dps_show : Option (Context F S) → Pointer → Effect F S
  dps_show ctxt s = via ctxt λ table self. table.text.dps_show self "DPSshow:" s

  unfoldable pub dps_widthshow : Option (Context F S) → F → F → ℤ → Pointer → Effect F S
  dps_widthshow ctxt x y c s =
      via ctxt λ table self. table.text.dps_widthshow self "DPSwidthshow::::" x y c s

  unfoldable pub dps_xshow : Option (Context F S) → Pointer → Pointer → ℤ → Effect F S
  dps_xshow ctxt s numarray size =
      via ctxt λ table self. table.text.dps_xshow self "DPSxshow:::" s numarray size

  unfoldable pub dps_xyshow : Option (Context F S) → Pointer → Pointer → ℤ → Effect F S
  dps_xyshow ctxt s numarray size =
      via ctxt λ table self. table.text.dps_xyshow self "DPSxyshow:::" s numarray size

  unfoldable pub dps_yshow : Option (Context F S) → Pointer → Pointer → ℤ → Effect F S
  dps_yshow ctxt s numarray size =
      via ctxt λ table self. table.text.dps_yshow self "DPSyshow:::" s numarray size

  unfoldable pub gs_set_character_spacing : Option (Context F S) → F → Effect F S
  gs_set_character_spacing ctxt extra =
      via ctxt λ table self. table.text.gs_set_character_spacing self "GSSetCharacterSpacing:" extra

  unfoldable pub gs_set_font : Option (Context F S) → Object → Effect F S
  gs_set_font ctxt font = via ctxt λ table self. table.text.gs_set_font self "GSSetFont:" font

  unfoldable pub gs_set_font_size : Option (Context F S) → F → Effect F S
  gs_set_font_size ctxt size =
      via ctxt λ table self. table.text.gs_set_font_size self "GSSetFontSize:" size

  unfoldable pub gs_get_text_ctm : Option (Context F S) → Effect F S
  gs_get_text_ctm ctxt =
      via_function ctxt λ table self. table.text.gs_get_text_ctm self "GSGetTextCTM"

  unfoldable pub gs_get_text_position : Option (Context F S) → Effect F S
  gs_get_text_position ctxt =
      via_function ctxt λ table self. table.text.gs_get_text_position self "GSGetTextPosition"

  unfoldable pub gs_set_text_ctm : Option (Context F S) → Object → Effect F S
  gs_set_text_ctm ctxt ctm =
      via ctxt λ table self. table.text.gs_set_text_ctm self "GSSetTextCTM:" ctm

  unfoldable pub gs_set_text_drawing_mode : Option (Context F S) → ℤ → Effect F S
  gs_set_text_drawing_mode ctxt mode =
      via ctxt λ table self. table.text.gs_set_text_drawing_mode self "GSSetTextDrawingMode:" mode

  unfoldable pub gs_set_text_position : Option (Context F S) → Point F → Effect F S
  gs_set_text_position ctxt loc =
      via ctxt λ table self. table.text.gs_set_text_position self "GSSetTextPosition:" loc

  unfoldable pub gs_show_text : Option (Context F S) → Pointer → ℕ → Effect F S
  gs_show_text ctxt string length =
      via ctxt λ table self. table.text.gs_show_text self "GSShowText::" string length

  unfoldable pub gs_show_glyphs : Option (Context F S) → Pointer → ℕ → Effect F S
  gs_show_glyphs ctxt glyphs length =
      via ctxt λ table self. table.text.gs_show_glyphs self "GSShowGlyphs::" glyphs length

  unfoldable pub gs_show_glyphs_with_advances :
      Option (Context F S) → Pointer → Pointer → ℕ → Effect F S
  gs_show_glyphs_with_advances ctxt glyphs advances length = via ctxt λ table self.
      table.text.gs_show_glyphs_with_advances self "GSShowGlyphsWithAdvances:::" glyphs advances
        length

  -- The call of an operator.
  unfoldable pub perform_text : TextOperator F → Option (Context F S) → Effect F S
  perform_text (ashow x y s) ctxt = dps_ashow ctxt x y s
  perform_text (awidthshow cx cy c ax ay s) ctxt = dps_awidthshow ctxt cx cy c ax ay s
  perform_text (charpath s b) ctxt = dps_charpath ctxt s b
  perform_text (show s) ctxt = dps_show ctxt s
  perform_text (widthshow x y c s) ctxt = dps_widthshow ctxt x y c s
  perform_text (xshow s numarray size) ctxt = dps_xshow ctxt s numarray size
  perform_text (xyshow s numarray size) ctxt = dps_xyshow ctxt s numarray size
  perform_text (yshow s numarray size) ctxt = dps_yshow ctxt s numarray size
  perform_text (set_character_spacing extra) ctxt = gs_set_character_spacing ctxt extra
  perform_text (set_font font) ctxt = gs_set_font ctxt font
  perform_text (set_font_size size) ctxt = gs_set_font_size ctxt size
  perform_text get_text_ctm ctxt = gs_get_text_ctm ctxt
  perform_text get_text_position ctxt = gs_get_text_position ctxt
  perform_text (set_text_ctm ctm) ctxt = gs_set_text_ctm ctxt ctm
  perform_text (set_text_drawing_mode mode) ctxt = gs_set_text_drawing_mode ctxt mode
  perform_text (set_text_position loc) ctxt = gs_set_text_position ctxt loc
  perform_text (show_text string length) ctxt = gs_show_text ctxt string length
  perform_text (show_glyphs glyphs length) ctxt = gs_show_glyphs ctxt glyphs length
  perform_text (show_glyphs_with_advances glyphs advances length) ctxt =
      gs_show_glyphs_with_advances ctxt glyphs advances length

-- The message that the operator stands for.
unfoldable pub text_message : {F : Type 0} → TextOperator F → Message F
text_message (ashow x y s) = record {
  selector = "DPSashow:::";
  arguments = of_float x ∷ of_float y ∷ of_pointer s ∷ [];
  is_function = false;
}
text_message (awidthshow cx cy c ax ay s) = record {
  selector = "DPSawidthshow::::::";
  arguments =
      of_float cx ∷ of_float cy ∷ of_integer c ∷ of_float ax ∷ of_float ay ∷ of_pointer s ∷ [];
  is_function = false;
}
text_message (charpath s b) = record {
  selector = "DPScharpath::";
  arguments = of_pointer s ∷ of_integer b ∷ [];
  is_function = false;
}
text_message (show s) = record {
  selector = "DPSshow:";
  arguments = of_pointer s ∷ [];
  is_function = false;
}
text_message (widthshow x y c s) = record {
  selector = "DPSwidthshow::::";
  arguments = of_float x ∷ of_float y ∷ of_integer c ∷ of_pointer s ∷ [];
  is_function = false;
}
text_message (xshow s numarray size) = record {
  selector = "DPSxshow:::";
  arguments = of_pointer s ∷ of_pointer numarray ∷ of_integer size ∷ [];
  is_function = false;
}
text_message (xyshow s numarray size) = record {
  selector = "DPSxyshow:::";
  arguments = of_pointer s ∷ of_pointer numarray ∷ of_integer size ∷ [];
  is_function = false;
}
text_message (yshow s numarray size) = record {
  selector = "DPSyshow:::";
  arguments = of_pointer s ∷ of_pointer numarray ∷ of_integer size ∷ [];
  is_function = false;
}
text_message (set_character_spacing extra) = record {
  selector = "GSSetCharacterSpacing:";
  arguments = of_float extra ∷ [];
  is_function = false;
}
text_message (set_font font) = record {
  selector = "GSSetFont:";
  arguments = of_object font ∷ [];
  is_function = false;
}
text_message (set_font_size size) = record {
  selector = "GSSetFontSize:";
  arguments = of_float size ∷ [];
  is_function = false;
}
text_message get_text_ctm = record { selector = "GSGetTextCTM"; arguments = []; is_function = true }
text_message get_text_position = record {
  selector = "GSGetTextPosition";
  arguments = [];
  is_function = true;
}
text_message (set_text_ctm ctm) = record {
  selector = "GSSetTextCTM:";
  arguments = of_object ctm ∷ [];
  is_function = false;
}
text_message (set_text_drawing_mode mode) = record {
  selector = "GSSetTextDrawingMode:";
  arguments = of_integer mode ∷ [];
  is_function = false;
}
text_message (set_text_position loc) = record {
  selector = "GSSetTextPosition:";
  arguments = of_point loc ∷ [];
  is_function = false;
}
text_message (show_text string length) = record {
  selector = "GSShowText::";
  arguments = of_pointer string ∷ of_count length ∷ [];
  is_function = false;
}
text_message (show_glyphs glyphs length) = record {
  selector = "GSShowGlyphs::";
  arguments = of_pointer glyphs ∷ of_count length ∷ [];
  is_function = false;
}
text_message (show_glyphs_with_advances glyphs advances length) = record {
  selector = "GSShowGlyphsWithAdvances:::";
  arguments = of_pointer glyphs ∷ of_pointer advances ∷ of_count length ∷ [];
  is_function = false;
}
