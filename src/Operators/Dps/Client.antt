-- ===== src/Operators/Dps/Client.antt =====
-- Headers/AppKit/DPSOperators.h: the operators on PostScript clients. Each calls its function in the table of
-- the context.
use libs_gui.Base.{false, ℕ, List, [], ◌∷◌, Option, some, ◌≡◌, refl, ◌==◌, if◌then◌else◌}
use libs_gui.Operators.Values.{
  String, Value, of_count, of_pointer, Pointer, Effect, Method, Message, no_value, msg_send,
}
use libs_gui.Operators.Methods.{initialize_method_table}
use libs_gui.Operators.Context.{Context, via, via_function, initialized}
use libs_gui.Operators.Methods.Client.{initialize_client}

-- The operators with their arguments.
pub data ClientOperator (F : Type 0) : Type 0 where
  printf : Pointer → List (Value F) → ClientOperator F
  write_data : Pointer → ℕ → ClientOperator F

module _ {F S : Type 0} where
  unfoldable pub dps_printf : Option (Context F S) → Pointer → List (Value F) → Effect F S
  dps_printf ctxt fmt ap s =
      let call = via ctxt (λ table self. table.client.dps_printf self "DPSPrintf::" fmt ap) s in
      if fmt == 0 then some (no_value, s) else call

  unfoldable pub dps_write_data : Option (Context F S) → Pointer → ℕ → Effect F S
  dps_write_data ctxt buf count =
      via ctxt λ table self. table.client.dps_write_data self "DPSWriteData::" buf count

  -- The call of an operator.
  unfoldable pub perform_client : ClientOperator F → Option (Context F S) → Effect F S
  perform_client (printf fmt ap) ctxt = dps_printf ctxt fmt ap
  perform_client (write_data buf count) ctxt = dps_write_data ctxt buf count

-- The message that the operator stands for.
unfoldable pub client_message : {F : Type 0} → ClientOperator F → Message F
client_message (printf fmt ap) = record {
  selector = "DPSPrintf::";
  arguments = of_pointer fmt ∷ ap;
  is_function = false;
}
client_message (write_data buf count) = record {
  selector = "DPSWriteData::";
  arguments = of_pointer buf ∷ of_count count ∷ [];
  is_function = false;
}

-- The format of a print is not NULL.
abbrev pub IsPrinted : {F : Type 0} → ClientOperator F → Type 0
IsPrinted (printf fmt ap) = (fmt == 0) ≡ false
IsPrinted (write_data buf count) = Unit {0}

pub perform_client-sent :
    {F S : Type 0} (get_imp : ℕ → String → Method F S) (o : ClientOperator F) (id class : ℕ)
    (state : S)
    → IsPrinted o
    → perform_client o (some (initialized get_imp id class)) state
      ≡ msg_send get_imp (some (id, class)) (client_message o) state
unfolding perform_client client_message initialized msg_send initialize_method_table
    initialize_client dps_printf dps_write_data via via_function
perform_client-sent get_imp (printf fmt ap) id class state h = rw h refl
perform_client-sent get_imp (write_data buf count) id class state h = refl
