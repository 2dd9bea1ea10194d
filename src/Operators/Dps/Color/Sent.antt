-- ===== src/Operators/Dps/Color/Sent.antt =====
-- Headers/AppKit/DPSOperators.h: the operators of the parent module and their messages.
use libs_gui.Base.{ℕ, some, ◌≡◌, refl}
use libs_gui.Operators.Values.{String, Method, msg_send}
use libs_gui.Operators.Methods.{initialize_method_table}
use libs_gui.Operators.Context.{via, via_function, initialized}
use libs_gui.Operators.Methods.Color.{initialize_color}
use libs_gui.Operators.Dps.Color.{
  ColorOperator, currentalpha, currentcmykcolor, currentgray, currenthsbcolor, currentrgbcolor,
  setalpha, setcmykcolor, setgray, sethsbcolor, setrgbcolor, set_fill_colorspace,
  set_stroke_colorspace, set_fill_color, set_stroke_color, dps_currentalpha, dps_currentcmykcolor,
  dps_currentgray, dps_currenthsbcolor, dps_currentrgbcolor, dps_setalpha, dps_setcmykcolor,
  dps_setgray, dps_sethsbcolor, dps_setrgbcolor, gs_set_fill_colorspace, gs_set_stroke_colorspace,
  gs_set_fill_color, gs_set_stroke_color, perform_color, color_message,
}

pub perform_color-sent :
    {F S : Type 0} (get_imp : ℕ → String → Method F S) (o : ColorOperator F) (id class : ℕ)
    (state : S)
    → perform_color o (some (initialized get_imp id class)) state
      ≡ msg_send get_imp (some (id, class)) (color_message o) state
unfolding perform_color color_message initialized msg_send initialize_method_table initialize_color
    dps_currentalpha dps_currentcmykcolor dps_currentgray dps_currenthsbcolor dps_currentrgbcolor
    dps_setalpha dps_setcmykcolor dps_setgray dps_sethsbcolor dps_setrgbcolor gs_set_fill_colorspace
    gs_set_stroke_colorspace gs_set_fill_color gs_set_stroke_color via via_function
perform_color-sent get_imp (currentalpha a) id class state = refl
perform_color-sent get_imp (currentcmykcolor c m y k) id class state = refl
perform_color-sent get_imp (currentgray gray) id class state = refl
perform_color-sent get_imp (currenthsbcolor h s b) id class state = refl
perform_color-sent get_imp (currentrgbcolor r g b) id class state = refl
perform_color-sent get_imp (setalpha a) id class state = refl
perform_color-sent get_imp (setcmykcolor c m y k) id class state = refl
perform_color-sent get_imp (setgray gray) id class state = refl
perform_color-sent get_imp (sethsbcolor h s b) id class state = refl
perform_color-sent get_imp (setrgbcolor r g b) id class state = refl
perform_color-sent get_imp (set_fill_colorspace dict) id class state = refl
perform_color-sent get_imp (set_stroke_colorspace dict) id class state = refl
perform_color-sent get_imp (set_fill_color values) id class state = refl
perform_color-sent get_imp (set_stroke_color values) id class state = refl
