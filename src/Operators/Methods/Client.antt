-- ===== src/Operators/Methods/Client.antt =====
-- Headers/Additions/GNUstepGUI/GSMethodTable.h: the functions of the table for PostScript clients; and how
-- Source/NSGraphicsContext.m fills them in.
use libs_gui.Base.{ℕ, List, [], ◌∷◌}
use libs_gui.Operators.Values.{String, Value, of_count, of_pointer, Pointer, Method, Slot}

pub record ClientMethods (F S : Type 0) : Type 0 where
  pub dps_printf : Slot (Pointer → List (Value F) → S → Value F × S)
  pub dps_write_data : Slot (Pointer → ℕ → S → Value F × S)

-- `GET_IMP` gives the method of the class for a selector.
unfoldable pub initialize_client : {F S : Type 0} → (String → Method F S) → ClientMethods F S
initialize_client get_imp = record {
  dps_printf = λ self cmd a0 a1. get_imp "DPSPrintf::" self cmd (of_pointer a0 ∷ a1);
  dps_write_data =
      λ self cmd a0 a1. get_imp "DPSWriteData::" self cmd (of_pointer a0 ∷ of_count a1 ∷ []);
}
