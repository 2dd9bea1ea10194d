-- ===== src/Operators/Dps/Text/Sent.antt =====
-- Headers/AppKit/DPSOperators.h: the operators of the parent module and their messages.
use libs_gui.Base.{ℕ, some, ◌≡◌, refl}
use libs_gui.Operators.Values.{String, Method, msg_send}
use libs_gui.Operators.Methods.{initialize_method_table}
use libs_gui.Operators.Context.{via, via_function, initialized}
use libs_gui.Operators.Methods.Text.{initialize_text}
use libs_gui.Operators.Dps.Text.{
  TextOperator, ashow, awidthshow, charpath, show, widthshow, xshow, xyshow, yshow,
  set_character_spacing, set_font, set_font_size, get_text_ctm, get_text_position, set_text_ctm,
  set_text_drawing_mode, set_text_position, show_text, show_glyphs, show_glyphs_with_advances,
  dps_ashow, dps_awidthshow, dps_charpath, dps_show, dps_widthshow, dps_xshow, dps_xyshow,
  dps_yshow, gs_set_character_spacing, gs_set_font, gs_set_font_size, gs_get_text_ctm,
  gs_get_text_position, gs_set_text_ctm, gs_set_text_drawing_mode, gs_set_text_position,
  gs_show_text, gs_show_glyphs, gs_show_glyphs_with_advances, perform_text, text_message,
}

pub perform_text-sent :
    {F S : Type 0} (get_imp : ℕ → String → Method F S) (o : TextOperator F) (id class : ℕ)
    (state : S)
    → perform_text o (some (initialized get_imp id class)) state
      ≡ msg_send get_imp (some (id, class)) (text_message o) state
unfolding perform_text text_message initialized msg_send initialize_method_table initialize_text
    dps_ashow dps_awidthshow dps_charpath dps_show dps_widthshow dps_xshow dps_xyshow dps_yshow
    gs_set_character_spacing gs_set_font gs_set_font_size gs_get_text_ctm gs_get_text_position
    gs_set_text_ctm gs_set_text_drawing_mode gs_set_text_position gs_show_text gs_show_glyphs
    gs_show_glyphs_with_advances via via_function
perform_text-sent get_imp (ashow x y s) id class state = refl
perform_text-sent get_imp (awidthshow cx cy c ax ay s) id class state = refl
perform_text-sent get_imp (charpath s b) id class state = refl
perform_text-sent get_imp (show s) id class state = refl
perform_text-sent get_imp (widthshow x y c s) id class state = refl
perform_text-sent get_imp (xshow s numarray size) id class state = refl
perform_text-sent get_imp (xyshow s numarray size) id class state = refl
perform_text-sent get_imp (yshow s numarray size) id class state = refl
perform_text-sent get_imp (set_character_spacing extra) id class state = refl
perform_text-sent get_imp (set_font font) id class state = refl
perform_text-sent get_imp (set_font_size size) id class state = refl
perform_text-sent get_imp get_text_ctm id class state = refl
perform_text-sent get_imp get_text_position id class state = refl
perform_text-sent get_imp (set_text_ctm ctm) id class state = refl
perform_text-sent get_imp (set_text_drawing_mode mode) id class state = refl
perform_text-sent get_imp (set_text_position loc) id class state = refl
perform_text-sent get_imp (show_text string length) id class state = refl
perform_text-sent get_imp (show_glyphs glyphs length) id class state = refl
perform_text-sent get_imp (show_glyphs_with_advances glyphs advances length) id class state = refl
