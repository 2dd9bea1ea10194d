-- ===== src/Operators/Ps/Extension.antt =====
-- Headers/AppKit/PSOperators.h: the operators on compositing, on the context that is current.
use libs_gui.Base.{ℤ, Option, ◌≡◌, refl}
use libs_gui.Operators.Values.{Effect}
use libs_gui.Operators.Context.{Context}
use libs_gui.Operators.Dps.Extension.{
  ExtensionOperator, perform_extension, dps_composite, dps_compositerect, dps_dissolve,
}

pub data PsExtensionOperator (F : Type 0) : Type 0 where
  composite : F → F → F → F → ℤ → F → F → ℤ → PsExtensionOperator F
  compositerect : F → F → F → F → ℤ → PsExtensionOperator F
  dissolve : F → F → F → F → ℤ → F → F → F → PsExtensionOperator F

-- `DEFCTXT` is the current context of the state.
module _ {F S : Type 0} (current_context : S → Option (Context F S)) where
  unfoldable pub ps_composite : F → F → F → F → ℤ → F → F → ℤ → Effect F S
  ps_composite x y w h gstate_num dx dy op state =
      dps_composite (current_context state) x y w h gstate_num dx dy op state

  unfoldable pub ps_compositerect : F → F → F → F → ℤ → Effect F S
  ps_compositerect x y w h op state = dps_compositerect (current_context state) x y w h op state

  unfoldable pub ps_dissolve : F → F → F → F → ℤ → F → F → F → Effect F S
  ps_dissolve x y w h gstate_num dx dy delta state =
      dps_dissolve (current_context state) x y w h gstate_num dx dy delta state

  unfoldable pub perform_ps_extension : PsExtensionOperator F → Effect F S
  perform_ps_extension (composite x y w h gstate_num dx dy op) =
      ps_composite x y w h gstate_num dx dy op
  perform_ps_extension (compositerect x y w h op) = ps_compositerect x y w h op
  perform_ps_extension (dissolve x y w h gstate_num dx dy delta) =
      ps_dissolve x y w h gstate_num dx dy delta

-- The operator of DPSOperators.h with the same name and arguments.
unfoldable pub as_extension_operator : {F : Type 0} → PsExtensionOperator F → ExtensionOperator F
as_extension_operator (composite x y w h gstate_num dx dy op) =
    ExtensionOperator.composite x y w h gstate_num dx dy op
as_extension_operator (compositerect x y w h op) = ExtensionOperator.compositerect x y w h op
as_extension_operator (dissolve x y w h gstate_num dx dy delta) =
    ExtensionOperator.dissolve x y w h gstate_num dx dy delta

pub perform_ps_extension_lem :
    {F S : Type 0} (current_context : S → Option (Context F S)) (o : PsExtensionOperator F)
    (state : S)
    → perform_ps_extension current_context o state
      ≡ perform_extension (as_extension_operator o) (current_context state) state
unfolding perform_ps_extension perform_extension as_extension_operator ps_composite ps_compositerect
    ps_dissolve
perform_ps_extension_lem current_context (composite x y w h gstate_num dx dy op) state = refl
perform_ps_extension_lem current_context (compositerect x y w h op) state = refl
perform_ps_extension_lem current_context (dissolve x y w h gstate_num dx dy delta) state = refl
