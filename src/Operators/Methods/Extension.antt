-- ===== src/Operators/Methods/Extension.antt =====
-- Headers/Additions/GNUstepGUI/GSMethodTable.h: the functions of the table for compositing; and how
-- Source/NSGraphicsContext.m fills them in.
use libs_gui.Base.{ℤ, [], ◌∷◌}
use libs_gui.Operators.Values.{
  String, Value, of_float, of_integer, of_pointer, of_rect, Rect, Pointer, Method, Slot,
}

pub record ExtensionMethods (F S : Type 0) : Type 0 where
  pub dps_composite : Slot (F → F → F → F → ℤ → F → F → ℤ → S → Value F × S)
  pub dps_compositerect : Slot (F → F → F → F → ℤ → S → Value F × S)
  pub dps_dissolve : Slot (F → F → F → F → ℤ → F → F → F → S → Value F × S)
  pub gs_draw_image : Slot (Rect F → Pointer → S → Value F × S)

-- `GET_IMP` gives the method of the class for a selector.
unfoldable pub initialize_extension : {F S : Type 0} → (String → Method F S) → ExtensionMethods F S
initialize_extension get_imp = record {
  dps_composite = λ self cmd a0 a1 a2 a3 a4 a5 a6 a7. get_imp "DPScomposite::::::::" self cmd (
      of_float a0
      ∷ of_float a1
      ∷ of_float a2
      ∷ of_float a3
      ∷ of_integer a4
      ∷ of_float a5
      ∷ of_float a6
      ∷ of_integer a7
      ∷ []);
  dps_compositerect = λ self cmd a0 a1 a2 a3 a4.
      get_imp "DPScompositerect:::::" self cmd
        (of_float a0 ∷ of_float a1 ∷ of_float a2 ∷ of_float a3 ∷ of_integer a4 ∷ []);
  dps_dissolve = λ self cmd a0 a1 a2 a3 a4 a5 a6 a7. get_imp "DPSdissolve::::::::" self cmd (
      of_float a0
      ∷ of_float a1
      ∷ of_float a2
      ∷ of_float a3
      ∷ of_integer a4
      ∷ of_float a5
      ∷ of_float a6
      ∷ of_float a7
      ∷ []);
  gs_draw_image =
      λ self cmd a0 a1. get_imp "GSDrawImage::" self cmd (of_rect a0 ∷ of_pointer a1 ∷ []);
}
