-- ===== src/Operators/Ps/Client.antt =====
-- Headers/AppKit/PSOperators.h: the operators on PostScript clients, on the context that is current.
use libs_gui.Base.{ℕ, [], ◌∷◌, Option, some, ◌≡◌, refl}
use libs_gui.Operators.Values.{of_pointer, Pointer, Effect, no_value}
use libs_gui.Operators.Context.{Context}
use libs_gui.Operators.Dps.Client.{ClientOperator, perform_client, dps_printf, dps_write_data}

pub data PsClientOperator (F : Type 0) : Type 0 where
  printf : Pointer → Pointer → PsClientOperator F
  write_data : Pointer → ℕ → PsClientOperator F

-- `DEFCTXT` is the current context of the state.
module _ {F S : Type 0} (current_context : S → Option (Context F S)) where
  unfoldable pub ps_printf : Pointer → Pointer → Effect F S
  ps_printf fmt args state = dps_printf (current_context state) fmt (of_pointer args ∷ []) state

  unfoldable pub ps_write_data : Pointer → ℕ → Effect F S
  ps_write_data buf count state = dps_write_data (current_context state) buf count state

  unfoldable pub ps_wait : Effect F S
  ps_wait state = some (no_value, state)

  unfoldable pub perform_ps_client : PsClientOperator F → Effect F S
  perform_ps_client (printf fmt args) = ps_printf fmt args
  perform_ps_client (write_data buf count) = ps_write_data buf count

-- The operator of DPSOperators.h with the same name and arguments. A va_list is one argument there.
unfoldable pub as_client_operator : {F : Type 0} → PsClientOperator F → ClientOperator F
as_client_operator (printf fmt args) = ClientOperator.printf fmt (of_pointer args ∷ [])
as_client_operator (write_data buf count) = ClientOperator.write_data buf count

pub perform_ps_client_lem :
    {F S : Type 0} (current_context : S → Option (Context F S)) (o : PsClientOperator F) (state : S)
    → perform_ps_client current_context o state
      ≡ perform_client (as_client_operator o) (current_context state) state
unfolding perform_ps_client perform_client as_client_operator ps_printf ps_write_data
perform_ps_client_lem current_context (printf fmt args) state = refl
perform_ps_client_lem current_context (write_data buf count) state = refl
