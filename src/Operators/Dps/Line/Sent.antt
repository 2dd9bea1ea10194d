-- ===== src/Operators/Dps/Line/Sent.antt =====
-- Headers/AppKit/DPSOperators.h: the operators of the parent module and their messages.
use libs_gui.Base.{ℕ, some, ◌≡◌, refl}
use libs_gui.Operators.Values.{String, Method, msg_send}
use libs_gui.Operators.Methods.{initialize_method_table}
use libs_gui.Operators.Context.{via, via_function, initialized}
use libs_gui.Operators.Methods.Line.{initialize_line}
use libs_gui.Operators.Dps.Line.{
  LineOperator, currentflat, currentlinecap, currentlinejoin, currentlinewidth, currentmiterlimit,
  currentpoint, currentstrokeadjust, setdash, setflat, sethalftonephase, setlinecap, setlinejoin,
  setlinewidth, setmiterlimit, setstrokeadjust, dps_currentflat, dps_currentlinecap,
  dps_currentlinejoin, dps_currentlinewidth, dps_currentmiterlimit, dps_currentpoint,
  dps_currentstrokeadjust, dps_setdash, dps_setflat, dps_sethalftonephase, dps_setlinecap,
  dps_setlinejoin, dps_setlinewidth, dps_setmiterlimit, dps_setstrokeadjust, perform_line,
  line_message,
}

pub perform_line-sent :
    {F S : Type 0} (get_imp : ℕ → String → Method F S) (o : LineOperator F) (id class : ℕ)
    (state : S)
    → perform_line o (some (initialized get_imp id class)) state
      ≡ msg_send get_imp (some (id, class)) (line_message o) state
unfolding perform_line line_message initialized msg_send initialize_method_table initialize_line
    dps_currentflat dps_currentlinecap dps_currentlinejoin dps_currentlinewidth
    dps_currentmiterlimit dps_currentpoint dps_currentstrokeadjust dps_setdash dps_setflat
    dps_sethalftonephase dps_setlinecap dps_setlinejoin dps_setlinewidth dps_setmiterlimit
    dps_setstrokeadjust via via_function
perform_line-sent get_imp (currentflat flatness) id class state = refl
perform_line-sent get_imp (currentlinecap linecap) id class state = refl
perform_line-sent get_imp (currentlinejoin linejoin) id class state = refl
perform_line-sent get_imp (currentlinewidth width) id class state = refl
perform_line-sent get_imp (currentmiterlimit limit) id class state = refl
perform_line-sent get_imp (currentpoint x y) id class state = refl
perform_line-sent get_imp (currentstrokeadjust b) id class state = refl
perform_line-sent get_imp (setdash pat size offset) id class state = refl
perform_line-sent get_imp (setflat flatness) id class state = refl
perform_line-sent get_imp (sethalftonephase x y) id class state = refl
perform_line-sent get_imp (setlinecap linecap) id class state = refl
perform_line-sent get_imp (setlinejoin linejoin) id class state = refl
perform_line-sent get_imp (setlinewidth width) id class state = refl
perform_line-sent get_imp (setmiterlimit limit) id class state = refl
perform_line-sent get_imp (setstrokeadjust b) id class state = refl
