-- ===== src/Operators/Dps/Gstate.antt =====
-- Headers/AppKit/DPSOperators.h: the operators on graphics states. Each calls its function in the table of
-- the context.
use libs_gui.Base.{true, false, ℕ, ℤ, [], ◌∷◌, Option, some, ◌≡◌, refl}
use libs_gui.Operators.Values.{String, of_integer, Effect, Method, Message, msg_send}
use libs_gui.Operators.Methods.{initialize_method_table}
use libs_gui.Operators.Context.{Context, via, via_function, initialized}
use libs_gui.Operators.Methods.Gstate.{initialize_gstate}

-- The operators with their arguments.
pub data GstateOperator (F : Type 0) : Type 0 where
  grestore : GstateOperator F
  gsave : GstateOperator F
  initgraphics : GstateOperator F
  setgstate : ℤ → GstateOperator F
  define_g_state : GstateOperator F
  undefine_g_state : ℤ → GstateOperator F
  replace_g_state : ℤ → GstateOperator F

module _ {F S : Type 0} where
  unfoldable pub dps_grestore : Option (Context F S) → Effect F S
  dps_grestore ctxt = via ctxt λ table self. table.gstate.dps_grestore self "DPSgrestore"

  unfoldable pub dps_gsave : Option (Context F S) → Effect F S
  dps_gsave ctxt = via ctxt λ table self. table.gstate.dps_gsave self "DPSgsave"

  unfoldable pub dps_initgraphics : Option (Context F S) → Effect F S
  dps_initgraphics ctxt =
      via ctxt λ table self. table.gstate.dps_initgraphics self "DPSinitgraphics"

  unfoldable pub dps_setgstate : Option (Context F S) → ℤ → Effect F S
  dps_setgstate ctxt gst =
      via ctxt λ table self. table.gstate.dps_setgstate self "DPSsetgstate:" gst

  unfoldable pub gs_define_g_state : Option (Context F S) → Effect F S
  gs_define_g_state ctxt =
      via_function ctxt λ table self. table.gstate.gs_define_g_state self "GSDefineGState"

  unfoldable pub gs_undefine_g_state : Option (Context F S) → ℤ → Effect F S
  gs_undefine_g_state ctxt gst =
      via ctxt λ table self. table.gstate.gs_undefine_g_state self "GSUndefineGState:" gst

  unfoldable pub gs_replace_g_state : Option (Context F S) → ℤ → Effect F S
  gs_replace_g_state ctxt gst =
      via ctxt λ table self. table.gstate.gs_replace_g_state self "GSReplaceGState:" gst

  -- The call of an operator.
  unfoldable pub perform_gstate : GstateOperator F → Option (Context F S) → Effect F S
  perform_gstate grestore ctxt = dps_grestore ctxt
  perform_gstate gsave ctxt = dps_gsave ctxt
  perform_gstate initgraphics ctxt = dps_initgraphics ctxt
  perform_gstate (setgstate gst) ctxt = dps_setgstate ctxt gst
  perform_gstate define_g_state ctxt = gs_define_g_state ctxt
  perform_gstate (undefine_g_state gst) ctxt = gs_undefine_g_state ctxt gst
  perform_gstate (replace_g_state gst) ctxt = gs_replace_g_state ctxt gst

-- The message that the operator stands for.
unfoldable pub gstate_message : {F : Type 0} → GstateOperator F → Message F
gstate_message grestore = record { selector = "DPSgrestore"; arguments = []; is_function = false }
gstate_message gsave = record { selector = "DPSgsave"; arguments = []; is_function = false }
gstate_message initgraphics = record {
  selector = "DPSinitgraphics";
  arguments = [];
  is_function = false;
}
gstate_message (setgstate gst) = record {
  selector = "DPSsetgstate:";
  arguments = of_integer gst ∷ [];
  is_function = false;
}
gstate_message define_g_state = record {
  selector = "GSDefineGState";
  arguments = [];
  is_function = true;
}
gstate_message (undefine_g_state gst) = record {
  selector = "GSUndefineGState:";
  arguments = of_integer gst ∷ [];
  is_function = false;
}
gstate_message (replace_g_state gst) = record {
  selector = "GSReplaceGState:";
  arguments = of_integer gst ∷ [];
  is_function = false;
}

pub perform_gstate-sent :
    {F S : Type 0} (get_imp : ℕ → String → Method F S) (o : GstateOperator F) (id class : ℕ)
    (state : S)
    → perform_gstate o (some (initialized get_imp id class)) state
      ≡ msg_send get_imp (some (id, class)) (gstate_message o) state
unfolding perform_gstate gstate_message initialized msg_send initialize_method_table
    initialize_gstate dps_grestore dps_gsave dps_initgraphics dps_setgstate gs_define_g_state
    gs_undefine_g_state gs_replace_g_state via via_function
perform_gstate-sent get_imp grestore id class state = refl
perform_gstate-sent get_imp gsave id class state = refl
perform_gstate-sent get_imp initgraphics id class state = refl
perform_gstate-sent get_imp (setgstate gst) id class state = refl
perform_gstate-sent get_imp define_g_state id class state = refl
perform_gstate-sent get_imp (undefine_g_state gst) id class state = refl
perform_gstate-sent get_imp (replace_g_state gst) id class state = refl
