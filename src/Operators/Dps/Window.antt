-- ===== src/Operators/Dps/Window.antt =====
-- Headers/AppKit/DPSOperators.h: the operators on devices and offsets. Each calls its function in the table of
-- the context.
use libs_gui.Base.{false, ℕ, ℤ, [], ◌∷◌, Option, some, ◌≡◌, refl}
use libs_gui.Operators.Values.{
  String, of_integer, of_pointer, Pointer, Effect, Method, Message, msg_send,
}
use libs_gui.Operators.Methods.{initialize_method_table}
use libs_gui.Operators.Context.{Context, via, via_function, initialized}
use libs_gui.Operators.Methods.Window.{initialize_window}

-- The operators with their arguments.
pub data WindowOperator (F : Type 0) : Type 0 where
  current_device : Pointer → Pointer → Pointer → WindowOperator F
  currentoffset : Pointer → Pointer → WindowOperator F
  set_device : Pointer → ℤ → ℤ → WindowOperator F
  setoffset : ℤ → ℤ → WindowOperator F

module _ {F S : Type 0} where
  unfoldable pub gs_current_device : Option (Context F S) → Pointer → Pointer → Pointer → Effect F S
  gs_current_device ctxt device x y =
      via ctxt λ table self. table.window.gs_current_device self "GSCurrentDevice:::" device x y

  unfoldable pub dps_currentoffset : Option (Context F S) → Pointer → Pointer → Effect F S
  dps_currentoffset ctxt x y =
      via ctxt λ table self. table.window.dps_currentoffset self "DPScurrentoffset::" x y

  unfoldable pub gs_set_device : Option (Context F S) → Pointer → ℤ → ℤ → Effect F S
  gs_set_device ctxt device x y =
      via ctxt λ table self. table.window.gs_set_device self "GSSetDevice:::" device x y

  unfoldable pub dps_setoffset : Option (Context F S) → ℤ → ℤ → Effect F S
  dps_setoffset ctxt x y =
      via ctxt λ table self. table.window.dps_setoffset self "DPSsetoffset::" x y

  -- The call of an operator.
  unfoldable pub perform_window : WindowOperator F → Option (Context F S) → Effect F S
  perform_window (current_device device x y) ctxt = gs_current_device ctxt device x y
  perform_window (currentoffset x y) ctxt = dps_currentoffset ctxt x y
  perform_window (set_device device x y) ctxt = gs_set_device ctxt device x y
  perform_window (setoffset x y) ctxt = dps_setoffset ctxt x y

-- The message that the operator stands for.
unfoldable pub window_message : {F : Type 0} → WindowOperator F → Message F
window_message (current_device device x y) = record {
  selector = "GSCurrentDevice:::";
  arguments = of_pointer device ∷ of_pointer x ∷ of_pointer y ∷ [];
  is_function = false;
}
window_message (currentoffset x y) = record {
  selector = "DPScurrentoffset::";
  arguments = of_pointer x ∷ of_pointer y ∷ [];
  is_function = false;
}
window_message (set_device device x y) = record {
  selector = "GSSetDevice:::";
  arguments = of_pointer device ∷ of_integer x ∷ of_integer y ∷ [];
  is_function = false;
}
window_message (setoffset x y) = record {
  selector = "DPSsetoffset::";
  arguments = of_integer x ∷ of_integer y ∷ [];
  is_function = false;
}

pub perform_window-sent :
    {F S : Type 0} (get_imp : ℕ → String → Method F S) (o : WindowOperator F) (id class : ℕ)
    (state : S)
    → perform_window o (some (initialized get_imp id class)) state
      ≡ msg_send get_imp (some (id, class)) (window_message o) state
unfolding perform_window window_message initialized msg_send initialize_method_table
    initialize_window gs_current_device dps_currentoffset gs_set_device dps_setoffset via
    via_function
perform_window-sent get_imp (current_device device x y) id class state = refl
perform_window-sent get_imp (currentoffset x y) id class state = refl
perform_window-sent get_imp (set_device device x y) id class state = refl
perform_window-sent get_imp (setoffset x y) id class state = refl
