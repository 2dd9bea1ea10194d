-- ===== src/Operators/Methods/Other.antt =====
-- Headers/Additions/GNUstepGUI/GSMethodTable.h: the functions of the table for the rest of the table; and how
-- Source/NSGraphicsContext.m fills them in.
use libs_gui.Base.{ℤ, Bool, [], ◌∷◌}
use libs_gui.Operators.Values.{
  String, Value, of_integer, of_pointer, of_object, of_rect, of_flag, Rect, Pointer, Object, Method,
  Slot,
}

pub record OtherMethods (F S : Type 0) : Type 0 where
  pub gs_read_rect : Slot (Rect F → S → Value F × S)
  pub ns_beep : Slot (S → Value F × S)
  pub gsw_set_view_is_flipped : Slot (Bool → S → Value F × S)
  pub gsw_view_is_flipped : Slot (S → Value F × S)
  pub ns_draw_bitmap :
      Slot (Rect F → ℤ → ℤ → ℤ → ℤ → ℤ → ℤ → Bool → Bool → Object → Pointer → S → Value F × S)
  pub dps_shfill : Slot (Object → S → Value F × S)

-- `GET_IMP` gives the method of the class for a selector.
unfoldable pub initialize_other : {F S : Type 0} → (String → Method F S) → OtherMethods F S
initialize_other get_imp = record {
  gs_read_rect = λ self cmd a0. get_imp "GSReadRect:" self cmd (of_rect a0 ∷ []);
  ns_beep = λ self cmd. get_imp "NSBeep" self cmd ([]);
  gsw_set_view_is_flipped =
      λ self cmd a0. get_imp "GSWSetViewIsFlipped:" self cmd (of_flag a0 ∷ []);
  gsw_view_is_flipped = λ self cmd. get_imp "GSWViewIsFlipped" self cmd ([]);
  ns_draw_bitmap = λ self cmd a0 a1 a2 a3 a4 a5 a6 a7 a8 a9 a10.
      get_imp "NSDrawBitmap:::::::::::" self cmd (
        of_rect a0
        ∷ of_integer a1
        ∷ of_integer a2
        ∷ of_integer a3
        ∷ of_integer a4
        ∷ of_integer a5
        ∷ of_integer a6
        ∷ of_flag a7
        ∷ of_flag a8
        ∷ of_object a9
        ∷ of_pointer a10
        ∷ []);
  dps_shfill = λ self cmd a0. get_imp "DPSshfill:" self cmd (of_object a0 ∷ []);
}
