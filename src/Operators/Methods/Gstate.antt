-- ===== src/Operators/Methods/Gstate.antt =====
-- Headers/Additions/GNUstepGUI/GSMethodTable.h: the functions of the table for graphics states; and how
-- Source/NSGraphicsContext.m fills them in.
use libs_gui.Base.{ℤ, [], ◌∷◌}
use libs_gui.Operators.Values.{String, Value, of_integer, Method, Slot}

pub record GstateMethods (F S : Type 0) : Type 0 where
  pub dps_grestore : Slot (S → Value F × S)
  pub dps_gsave : Slot (S → Value F × S)
  pub dps_initgraphics : Slot (S → Value F × S)
  pub dps_setgstate : Slot (ℤ → S → Value F × S)
  pub gs_define_g_state : Slot (S → Value F × S)
  pub gs_undefine_g_state : Slot (ℤ → S → Value F × S)
  pub gs_replace_g_state : Slot (ℤ → S → Value F × S)

-- `GET_IMP` gives the method of the class for a selector.
unfoldable pub initialize_gstate : {F S : Type 0} → (String → Method F S) → GstateMethods F S
initialize_gstate get_imp = record {
  dps_grestore = λ self cmd. get_imp "DPSgrestore" self cmd ([]);
  dps_gsave = λ self cmd. get_imp "DPSgsave" self cmd ([]);
  dps_initgraphics = λ self cmd. get_imp "DPSinitgraphics" self cmd ([]);
  dps_setgstate = λ self cmd a0. get_imp "DPSsetgstate:" self cmd (of_integer a0 ∷ []);
  gs_define_g_state = λ self cmd. get_imp "GSDefineGState" self cmd ([]);
  gs_undefine_g_state = λ self cmd a0. get_imp "GSUndefineGState:" self cmd (of_integer a0 ∷ []);
  gs_replace_g_state = λ self cmd a0. get_imp "GSReplaceGState:" self cmd (of_integer a0 ∷ []);
}
