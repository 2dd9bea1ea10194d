-- ===== src/Operators/Ps/Gstate.antt =====
-- Headers/AppKit/PSOperators.h: the operators on graphics states, on the context that is current.
use libs_gui.Base.{ℤ, Option, ◌≡◌, refl}
use libs_gui.Operators.Values.{Effect}
use libs_gui.Operators.Context.{Context}
use libs_gui.Operators.Dps.Gstate.{
  GstateOperator, perform_gstate, dps_gsave, dps_grestore, dps_initgraphics, dps_setgstate,
}

pub data PsGstateOperator (F : Type 0) : Type 0 where
  gsave : PsGstateOperator F
  grestore : PsGstateOperator F
  initgraphics : PsGstateOperator F
  setgstate : ℤ → PsGstateOperator F

-- `DEFCTXT` is the current context of the state.
module _ {F S : Type 0} (current_context : S → Option (Context F S)) where
  unfoldable pub ps_gsave : Effect F S
  ps_gsave state = dps_gsave (current_context state) state

  unfoldable pub ps_grestore : Effect F S
  ps_grestore state = dps_grestore (current_context state) state

  unfoldable pub ps_initgraphics : Effect F S
  ps_initgraphics state = dps_initgraphics (current_context state) state

  unfoldable pub ps_setgstate : ℤ → Effect F S
  ps_setgstate gst state = dps_setgstate (current_context state) gst state

  unfoldable pub perform_ps_gstate : PsGstateOperator F → Effect F S
  perform_ps_gstate gsave = ps_gsave
  perform_ps_gstate grestore = ps_grestore
  perform_ps_gstate initgraphics = ps_initgraphics
  perform_ps_gstate (setgstate gst) = ps_setgstate gst

-- The operator of DPSOperators.h with the same name and arguments.
unfoldable pub as_gstate_operator : {F : Type 0} → PsGstateOperator F → GstateOperator F
as_gstate_operator gsave = GstateOperator.gsave
as_gstate_operator grestore = GstateOperator.grestore
as_gstate_operator initgraphics = GstateOperator.initgraphics
as_gstate_operator (setgstate gst) = GstateOperator.setgstate gst

pub perform_ps_gstate_lem :
    {F S : Type 0} (current_context : S → Option (Context F S)) (o : PsGstateOperator F) (state : S)
    → perform_ps_gstate current_context o state
      ≡ perform_gstate (as_gstate_operator o) (current_context state) state
unfolding perform_ps_gstate perform_gstate as_gstate_operator ps_gsave ps_grestore ps_initgraphics
    ps_setgstate
perform_ps_gstate_lem current_context gsave state = refl
perform_ps_gstate_lem current_context grestore state = refl
perform_ps_gstate_lem current_context initgraphics state = refl
perform_ps_gstate_lem current_context (setgstate gst) state = refl
