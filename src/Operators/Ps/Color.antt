-- ===== src/Operators/Ps/Color.antt =====
-- Headers/AppKit/PSOperators.h: the operators on colors, on the context that is current.
use libs_gui.Base.{ℤ, Option, some, ◌≡◌, refl}
use libs_gui.Operators.Values.{Pointer, Effect, no_value}
use libs_gui.Operators.Context.{Context}
use libs_gui.Operators.Dps.Color.{
  ColorOperator, perform_color, dps_currentalpha, dps_currentcmykcolor, dps_currentgray,
  dps_currenthsbcolor, dps_currentrgbcolor, dps_setalpha, dps_setcmykcolor, dps_setgray,
  dps_sethsbcolor, dps_setrgbcolor,
}

pub data PsColorOperator (F : Type 0) : Type 0 where
  currentalpha : Pointer → PsColorOperator F
  currentcmykcolor : Pointer → Pointer → Pointer → Pointer → PsColorOperator F
  currentgray : Pointer → PsColorOperator F
  currenthsbcolor : Pointer → Pointer → Pointer → PsColorOperator F
  currentrgbcolor : Pointer → Pointer → Pointer → PsColorOperator F
  setalpha : F → PsColorOperator F
  setcmykcolor : F → F → F → F → PsColorOperator F
  setgray : F → PsColorOperator F
  sethsbcolor : F → F → F → PsColorOperator F
  setrgbcolor : F → F → F → PsColorOperator F

-- `DEFCTXT` is the current context of the state.
module _ {F S : Type 0} (current_context : S → Option (Context F S)) where
  unfoldable pub ps_currentalpha : Pointer → Effect F S
  ps_currentalpha a state = dps_currentalpha (current_context state) a state

  unfoldable pub ps_currentcmykcolor : Pointer → Pointer → Pointer → Pointer → Effect F S
  ps_currentcmykcolor c m y k state = dps_currentcmykcolor (current_context state) c m y k state

  unfoldable pub ps_currentgray : Pointer → Effect F S
  ps_currentgray gray state = dps_currentgray (current_context state) gray state

  unfoldable pub ps_currenthsbcolor : Pointer → Pointer → Pointer → Effect F S
  ps_currenthsbcolor h s b state = dps_currenthsbcolor (current_context state) h s b state

  unfoldable pub ps_currentrgbcolor : Pointer → Pointer → Pointer → Effect F S
  ps_currentrgbcolor r g b state = dps_currentrgbcolor (current_context state) r g b state

  unfoldable pub ps_setalpha : F → Effect F S
  ps_setalpha a state = dps_setalpha (current_context state) a state

  unfoldable pub ps_setcmykcolor : F → F → F → F → Effect F S
  ps_setcmykcolor c m y k state = dps_setcmykcolor (current_context state) c m y k state

  unfoldable pub ps_setgray : F → Effect F S
  ps_setgray gray state = dps_setgray (current_context state) gray state

  unfoldable pub ps_sethsbcolor : F → F → F → Effect F S
  ps_sethsbcolor h s b state = dps_sethsbcolor (current_context state) h s b state

  unfoldable pub ps_setrgbcolor : F → F → F → Effect F S
  ps_setrgbcolor r g b state = dps_setrgbcolor (current_context state) r g b state

  -- The two that are not implemented.
  unfoldable pub ps_countwindowlist : ℤ → Pointer → Effect F S
  ps_countwindowlist d c state = some (no_value, state)

  unfoldable pub ps_windowlist : ℤ → ℤ → Pointer → Effect F S
  ps_windowlist d c array state = some (no_value, state)

  unfoldable pub perform_ps_color : PsColorOperator F → Effect F S
  perform_ps_color (currentalpha a) = ps_currentalpha a
  perform_ps_color (currentcmykcolor c m y k) = ps_currentcmykcolor c m y k
  perform_ps_color (currentgray gray) = ps_currentgray gray
  perform_ps_color (currenthsbcolor h s b) = ps_currenthsbcolor h s b
  perform_ps_color (currentrgbcolor r g b) = ps_currentrgbcolor r g b
  perform_ps_color (setalpha a) = ps_setalpha a
  perform_ps_color (setcmykcolor c m y k) = ps_setcmykcolor c m y k
  perform_ps_color (setgray gray) = ps_setgray gray
  perform_ps_color (sethsbcolor h s b) = ps_sethsbcolor h s b
  perform_ps_color (setrgbcolor r g b) = ps_setrgbcolor r g b

-- The operator of DPSOperators.h with the same name and arguments.
unfoldable pub as_color_operator : {F : Type 0} → PsColorOperator F → ColorOperator F
as_color_operator (currentalpha a) = ColorOperator.currentalpha a
as_color_operator (currentcmykcolor c m y k) = ColorOperator.currentcmykcolor c m y k
as_color_operator (currentgray gray) = ColorOperator.currentgray gray
as_color_operator (currenthsbcolor h s b) = ColorOperator.currenthsbcolor h s b
as_color_operator (currentrgbcolor r g b) = ColorOperator.currentrgbcolor r g b
as_color_operator (setalpha a) = ColorOperator.setalpha a
as_color_operator (setcmykcolor c m y k) = ColorOperator.setcmykcolor c m y k
as_color_operator (setgray gray) = ColorOperator.setgray gray
as_color_operator (sethsbcolor h s b) = ColorOperator.sethsbcolor h s b
as_color_operator (setrgbcolor r g b) = ColorOperator.setrgbcolor r g b

pub perform_ps_color_lem :
    {F S : Type 0} (current_context : S → Option (Context F S)) (o : PsColorOperator F) (state : S)
    → perform_ps_color current_context o state
      ≡ perform_color (as_color_operator o) (current_context state) state
unfolding perform_ps_color perform_color as_color_operator ps_currentalpha ps_currentcmykcolor
    ps_currentgray ps_currenthsbcolor ps_currentrgbcolor ps_setalpha ps_setcmykcolor ps_setgray
    ps_sethsbcolor ps_setrgbcolor
perform_ps_color_lem current_context (currentalpha a) state = refl
perform_ps_color_lem current_context (currentcmykcolor c m y k) state = refl
perform_ps_color_lem current_context (currentgray gray) state = refl
perform_ps_color_lem current_context (currenthsbcolor h s b) state = refl
perform_ps_color_lem current_context (currentrgbcolor r g b) state = refl
perform_ps_color_lem current_context (setalpha a) state = refl
perform_ps_color_lem current_context (setcmykcolor c m y k) state = refl
perform_ps_color_lem current_context (setgray gray) state = refl
perform_ps_color_lem current_context (sethsbcolor h s b) state = refl
perform_ps_color_lem current_context (setrgbcolor r g b) state = refl
