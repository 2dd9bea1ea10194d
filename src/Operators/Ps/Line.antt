-- ===== src/Operators/Ps/Line.antt =====
-- Headers/AppKit/PSOperators.h: the operators on the parameters of a graphics state, on the context that is current.
use libs_gui.Base.{ℤ, Option, ◌≡◌, refl}
use libs_gui.Operators.Values.{Pointer, Effect}
use libs_gui.Operators.Context.{Context}
use libs_gui.Operators.Dps.Line.{
  LineOperator, perform_line, dps_currentflat, dps_currentlinecap, dps_currentlinejoin,
  dps_currentlinewidth, dps_currentmiterlimit, dps_currentpoint, dps_currentstrokeadjust,
  dps_setdash, dps_setflat, dps_sethalftonephase, dps_setlinecap, dps_setlinejoin, dps_setlinewidth,
  dps_setmiterlimit, dps_setstrokeadjust,
}

pub data PsLineOperator (F : Type 0) : Type 0 where
  currentflat : Pointer → PsLineOperator F
  currentlinecap : Pointer → PsLineOperator F
  currentlinejoin : Pointer → PsLineOperator F
  currentlinewidth : Pointer → PsLineOperator F
  currentmiterlimit : Pointer → PsLineOperator F
  currentpoint : Pointer → Pointer → PsLineOperator F
  currentstrokeadjust : Pointer → PsLineOperator F
  setdash : Pointer → ℤ → F → PsLineOperator F
  setflat : F → PsLineOperator F
  sethalftonephase : F → F → PsLineOperator F
  setlinecap : ℤ → PsLineOperator F
  setlinejoin : ℤ → PsLineOperator F
  setlinewidth : F → PsLineOperator F
  setmiterlimit : F → PsLineOperator F
  setstrokeadjust : ℤ → PsLineOperator F

-- `DEFCTXT` is the current context of the state.
module _ {F S : Type 0} (current_context : S → Option (Context F S)) where
  unfoldable pub ps_currentflat : Pointer → Effect F S
  ps_currentflat flatness state = dps_currentflat (current_context state) flatness state

  unfoldable pub ps_currentlinecap : Pointer → Effect F S
  ps_currentlinecap linecap state = dps_currentlinecap (current_context state) linecap state

  unfoldable pub ps_currentlinejoin : Pointer → Effect F S
  ps_currentlinejoin linejoin state = dps_currentlinejoin (current_context state) linejoin state

  unfoldable pub ps_currentlinewidth : Pointer → Effect F S
  ps_currentlinewidth width state = dps_currentlinewidth (current_context state) width state

  unfoldable pub ps_currentmiterlimit : Pointer → Effect F S
  ps_currentmiterlimit limit state = dps_currentmiterlimit (current_context state) limit state

  unfoldable pub ps_currentpoint : Pointer → Pointer → Effect F S
  ps_currentpoint x y state = dps_currentpoint (current_context state) x y state

  unfoldable pub ps_currentstrokeadjust : Pointer → Effect F S
  ps_currentstrokeadjust b state = dps_currentstrokeadjust (current_context state) b state

  unfoldable pub ps_setdash : Pointer → ℤ → F → Effect F S
  ps_setdash pat size offset state = dps_setdash (current_context state) pat size offset state

  unfoldable pub ps_setflat : F → Effect F S
  ps_setflat flatness state = dps_setflat (current_context state) flatness state

  unfoldable pub ps_sethalftonephase : F → F → Effect F S
  ps_sethalftonephase x y state = dps_sethalftonephase (current_context state) x y state

  unfoldable pub ps_setlinecap : ℤ → Effect F S
  ps_setlinecap linecap state = dps_setlinecap (current_context state) linecap state

  unfoldable pub ps_setlinejoin : ℤ → Effect F S
  ps_setlinejoin linejoin state = dps_setlinejoin (current_context state) linejoin state

  unfoldable pub ps_setlinewidth : F → Effect F S
  ps_setlinewidth width state = dps_setlinewidth (current_context state) width state

  unfoldable pub ps_setmiterlimit : F → Effect F S
  ps_setmiterlimit limit state = dps_setmiterlimit (current_context state) limit state

  unfoldable pub ps_setstrokeadjust : ℤ → Effect F S
  ps_setstrokeadjust b state = dps_setstrokeadjust (current_context state) b state

  unfoldable pub perform_ps_line : PsLineOperator F → Effect F S
  perform_ps_line (currentflat flatness) = ps_currentflat flatness
  perform_ps_line (currentlinecap linecap) = ps_currentlinecap linecap
  perform_ps_line (currentlinejoin linejoin) = ps_currentlinejoin linejoin
  perform_ps_line (currentlinewidth width) = ps_currentlinewidth width
  perform_ps_line (currentmiterlimit limit) = ps_currentmiterlimit limit
  perform_ps_line (currentpoint x y) = ps_currentpoint x y
  perform_ps_line (currentstrokeadjust b) = ps_currentstrokeadjust b
  perform_ps_line (setdash pat size offset) = ps_setdash pat size offset
  perform_ps_line (setflat flatness) = ps_setflat flatness
  perform_ps_line (sethalftonephase x y) = ps_sethalftonephase x y
  perform_ps_line (setlinecap linecap) = ps_setlinecap linecap
  perform_ps_line (setlinejoin linejoin) = ps_setlinejoin linejoin
  perform_ps_line (setlinewidth width) = ps_setlinewidth width
  perform_ps_line (setmiterlimit limit) = ps_setmiterlimit limit
  perform_ps_line (setstrokeadjust b) = ps_setstrokeadjust b

-- The operator of DPSOperators.h with the same name and arguments.
unfoldable pub as_line_operator : {F : Type 0} → PsLineOperator F → LineOperator F
as_line_operator (currentflat flatness) = LineOperator.currentflat flatness
as_line_operator (currentlinecap linecap) = LineOperator.currentlinecap linecap
as_line_operator (currentlinejoin linejoin) = LineOperator.currentlinejoin linejoin
as_line_operator (currentlinewidth width) = LineOperator.currentlinewidth width
as_line_operator (currentmiterlimit limit) = LineOperator.currentmiterlimit limit
as_line_operator (currentpoint x y) = LineOperator.currentpoint x y
as_line_operator (currentstrokeadjust b) = LineOperator.currentstrokeadjust b
as_line_operator (setdash pat size offset) = LineOperator.setdash pat size offset
as_line_operator (setflat flatness) = LineOperator.setflat flatness
as_line_operator (sethalftonephase x y) = LineOperator.sethalftonephase x y
as_line_operator (setlinecap linecap) = LineOperator.setlinecap linecap
as_line_operator (setlinejoin linejoin) = LineOperator.setlinejoin linejoin
as_line_operator (setlinewidth width) = LineOperator.setlinewidth width
as_line_operator (setmiterlimit limit) = LineOperator.setmiterlimit limit
as_line_operator (setstrokeadjust b) = LineOperator.setstrokeadjust b

pub perform_ps_line_lem :
    {F S : Type 0} (current_context : S → Option (Context F S)) (o : PsLineOperator F) (state : S)
    → perform_ps_line current_context o state
      ≡ perform_line (as_line_operator o) (current_context state) state
unfolding perform_ps_line perform_line as_line_operator ps_currentflat ps_currentlinecap
    ps_currentlinejoin ps_currentlinewidth ps_currentmiterlimit ps_currentpoint
    ps_currentstrokeadjust ps_setdash ps_setflat ps_sethalftonephase ps_setlinecap ps_setlinejoin
    ps_setlinewidth ps_setmiterlimit ps_setstrokeadjust
perform_ps_line_lem current_context (currentflat flatness) state = refl
perform_ps_line_lem current_context (currentlinecap linecap) state = refl
perform_ps_line_lem current_context (currentlinejoin linejoin) state = refl
perform_ps_line_lem current_context (currentlinewidth width) state = refl
perform_ps_line_lem current_context (currentmiterlimit limit) state = refl
perform_ps_line_lem current_context (currentpoint x y) state = refl
perform_ps_line_lem current_context (currentstrokeadjust b) state = refl
perform_ps_line_lem current_context (setdash pat size offset) state = refl
perform_ps_line_lem current_context (setflat flatness) state = refl
perform_ps_line_lem current_context (sethalftonephase x y) state = refl
perform_ps_line_lem current_context (setlinecap linecap) state = refl
perform_ps_line_lem current_context (setlinejoin linejoin) state = refl
perform_ps_line_lem current_context (setlinewidth width) state = refl
perform_ps_line_lem current_context (setmiterlimit limit) state = refl
perform_ps_line_lem current_context (setstrokeadjust b) state = refl
