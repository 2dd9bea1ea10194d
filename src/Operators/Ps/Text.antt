-- ===== src/Operators/Ps/Text.antt =====
-- Headers/AppKit/PSOperators.h: the operators on text, on the context that is current.
use libs_gui.Base.{ℤ, Option, ◌≡◌, refl}
use libs_gui.Operators.Values.{Pointer, Effect}
use libs_gui.Operators.Context.{Context}
use libs_gui.Operators.Dps.Text.{
  TextOperator, perform_text, dps_ashow, dps_awidthshow, dps_charpath, dps_show, dps_widthshow,
  dps_xshow, dps_xyshow, dps_yshow,
}

pub data PsTextOperator (F : Type 0) : Type 0 where
  ashow : F → F → Pointer → PsTextOperator F
  awidthshow : F → F → ℤ → F → F → Pointer → PsTextOperator F
  charpath : Pointer → ℤ → PsTextOperator F
  show : Pointer → PsTextOperator F
  widthshow : F → F → ℤ → Pointer → PsTextOperator F
  xshow : Pointer → Pointer → ℤ → PsTextOperator F
  xyshow : Pointer → Pointer → ℤ → PsTextOperator F
  yshow : Pointer → Pointer → ℤ → PsTextOperator F

-- `DEFCTXT` is the current context of the state.
module _ {F S : Type 0} (current_context : S → Option (Context F S)) where
  unfoldable pub ps_ashow : F → F → Pointer → Effect F S
  ps_ashow x y s state = dps_ashow (current_context state) x y s state

  unfoldable pub ps_awidthshow : F → F → ℤ → F → F → Pointer → Effect F S
  ps_awidthshow cx cy c ax ay s state = dps_awidthshow (current_context state) cx cy c ax ay s state

  unfoldable pub ps_charpath : Pointer → ℤ → Effect F S
  ps_charpath s b state = dps_charpath (current_context state) s b state

  unfoldable pub ps_show : Pointer → Effect F S
  ps_show s state = dps_show (current_context state) s state

  unfoldable pub ps_widthshow : F → F → ℤ → Pointer → Effect F S
  ps_widthshow x y c s state = dps_widthshow (current_context state) x y c s state

  unfoldable pub ps_xshow : Pointer → Pointer → ℤ → Effect F S
  ps_xshow s numarray size state = dps_xshow (current_context state) s numarray size state

  unfoldable pub ps_xyshow : Pointer → Pointer → ℤ → Effect F S
  ps_xyshow s numarray size state = dps_xyshow (current_context state) s numarray size state

  unfoldable pub ps_yshow : Pointer → Pointer → ℤ → Effect F S
  ps_yshow s numarray size state = dps_yshow (current_context state) s numarray size state

  unfoldable pub perform_ps_text : PsTextOperator F → Effect F S
  perform_ps_text (ashow x y s) = ps_ashow x y s
  perform_ps_text (awidthshow cx cy c ax ay s) = ps_awidthshow cx cy c ax ay s
  perform_ps_text (charpath s b) = ps_charpath s b
  perform_ps_text (show s) = ps_show s
  perform_ps_text (widthshow x y c s) = ps_widthshow x y c s
  perform_ps_text (xshow s numarray size) = ps_xshow s numarray size
  perform_ps_text (xyshow s numarray size) = ps_xyshow s numarray size
  perform_ps_text (yshow s numarray size) = ps_yshow s numarray size

-- The operator of DPSOperators.h with the same name and arguments.
unfoldable pub as_text_operator : {F : Type 0} → PsTextOperator F → TextOperator F
as_text_operator (ashow x y s) = TextOperator.ashow x y s
as_text_operator (awidthshow cx cy c ax ay s) = TextOperator.awidthshow cx cy c ax ay s
as_text_operator (charpath s b) = TextOperator.charpath s b
as_text_operator (show s) = TextOperator.show s
as_text_operator (widthshow x y c s) = TextOperator.widthshow x y c s
as_text_operator (xshow s numarray size) = TextOperator.xshow s numarray size
as_text_operator (xyshow s numarray size) = TextOperator.xyshow s numarray size
as_text_operator (yshow s numarray size) = TextOperator.yshow s numarray size

pub perform_ps_text_lem :
    {F S : Type 0} (current_context : S → Option (Context F S)) (o : PsTextOperator F) (state : S)
    → perform_ps_text current_context o state
      ≡ perform_text (as_text_operator o) (current_context state) state
unfolding perform_ps_text perform_text as_text_operator ps_ashow ps_awidthshow ps_charpath ps_show
    ps_widthshow ps_xshow ps_xyshow ps_yshow
perform_ps_text_lem current_context (ashow x y s) state = refl
perform_ps_text_lem current_context (awidthshow cx cy c ax ay s) state = refl
perform_ps_text_lem current_context (charpath s b) state = refl
perform_ps_text_lem current_context (show s) state = refl
perform_ps_text_lem current_context (widthshow x y c s) state = refl
perform_ps_text_lem current_context (xshow s numarray size) state = refl
perform_ps_text_lem current_context (xyshow s numarray size) state = refl
perform_ps_text_lem current_context (yshow s numarray size) state = refl
