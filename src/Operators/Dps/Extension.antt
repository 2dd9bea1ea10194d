-- ===== src/Operators/Dps/Extension.antt =====
-- Headers/AppKit/DPSOperators.h: the operators on compositing. Each calls its function in the table of
-- the context.
use libs_gui.Base.{false, ℕ, ℤ, [], ◌∷◌, Option, some, ◌≡◌, refl}
use libs_gui.Operators.Values.{
  String, of_float, of_integer, of_pointer, of_rect, Rect, Pointer, Effect, Method, Message,
  msg_send,
}
use libs_gui.Operators.Methods.{initialize_method_table}
use libs_gui.Operators.Context.{Context, via, via_function, initialized}
use libs_gui.Operators.Methods.Extension.{initialize_extension}

-- The operators with their arguments.
pub data ExtensionOperator (F : Type 0) : Type 0 where
  composite : F → F → F → F → ℤ → F → F → ℤ → ExtensionOperator F
  compositerect : F → F → F → F → ℤ → ExtensionOperator F
  dissolve : F → F → F → F → ℤ → F → F → F → ExtensionOperator F
  draw_image : Rect F → Pointer → ExtensionOperator F

module _ {F S : Type 0} where
  unfoldable pub dps_composite : Option (Context F S) → F → F → F → F → ℤ → F → F → ℤ → Effect F S
  dps_composite ctxt x y w h gstate_num dx dy op = via ctxt λ table self.
      table.extension.dps_composite self "DPScomposite::::::::" x y w h gstate_num dx dy op

  unfoldable pub dps_compositerect : Option (Context F S) → F → F → F → F → ℤ → Effect F S
  dps_compositerect ctxt x y w h op =
      via ctxt
        λ table self. table.extension.dps_compositerect self "DPScompositerect:::::" x y w h op

  unfoldable pub dps_dissolve : Option (Context F S) → F → F → F → F → ℤ → F → F → F → Effect F S
  dps_dissolve ctxt x y w h gstate_num dx dy delta = via ctxt λ table self.
      table.extension.dps_dissolve self "DPSdissolve::::::::" x y w h gstate_num dx dy delta

  unfoldable pub gs_draw_image : Option (Context F S) → Rect F → Pointer → Effect F S
  gs_draw_image ctxt rect imageref =
      via ctxt λ table self. table.extension.gs_draw_image self "GSDrawImage::" rect imageref

  -- The call of an operator.
  unfoldable pub perform_extension : ExtensionOperator F → Option (Context F S) → Effect F S
  perform_extension (composite x y w h gstate_num dx dy op) ctxt =
      dps_composite ctxt x y w h gstate_num dx dy op
  perform_extension (compositerect x y w h op) ctxt = dps_compositerect ctxt x y w h op
  perform_extension (dissolve x y w h gstate_num dx dy delta) ctxt =
      dps_dissolve ctxt x y w h gstate_num dx dy delta
  perform_extension (draw_image rect imageref) ctxt = gs_draw_image ctxt rect imageref

-- The message that the operator stands for.
unfoldable pub extension_message : {F : Type 0} → ExtensionOperator F → Message F
extension_message (composite x y w h gstate_num dx dy op) = record {
  selector = "DPScomposite::::::::";
  arguments =
      of_float x
      ∷ of_float y
      ∷ of_float w
      ∷ of_float h
      ∷ of_integer gstate_num
      ∷ of_float dx
      ∷ of_float dy
      ∷ of_integer op
      ∷ [];
  is_function = false;
}
extension_message (compositerect x y w h op) = record {
  selector = "DPScompositerect:::::";
  arguments = of_float x ∷ of_float y ∷ of_float w ∷ of_float h ∷ of_integer op ∷ [];
  is_function = false;
}
extension_message (dissolve x y w h gstate_num dx dy delta) = record {
  selector = "DPSdissolve::::::::";
  arguments =
      of_float x
      ∷ of_float y
      ∷ of_float w
      ∷ of_float h
      ∷ of_integer gstate_num
      ∷ of_float dx
      ∷ of_float dy
      ∷ of_float delta
      ∷ [];
  is_function = false;
}
extension_message (draw_image rect imageref) = record {
  selector = "GSDrawImage::";
  arguments = of_rect rect ∷ of_pointer imageref ∷ [];
  is_function = false;
}

pub perform_extension-sent :
    {F S : Type 0} (get_imp : ℕ → String → Method F S) (o : ExtensionOperator F) (id class : ℕ)
    (state : S)
    → perform_extension o (some (initialized get_imp id class)) state
      ≡ msg_send get_imp (some (id, class)) (extension_message o) state
unfolding perform_extension extension_message initialized msg_send initialize_method_table
    initialize_extension dps_composite dps_compositerect dps_dissolve gs_draw_image via via_function
perform_extension-sent get_imp (composite x y w h gstate_num dx dy op) id class state = refl
perform_extension-sent get_imp (compositerect x y w h op) id class state = refl
perform_extension-sent get_imp (dissolve x y w h gstate_num dx dy delta) id class state = refl
perform_extension-sent get_imp (draw_image rect imageref) id class state = refl
