-- ===== src/Operators/Dps/Line.antt =====
-- Headers/AppKit/DPSOperators.h: the operators on the parameters of a graphics state. Each calls its function in the table of
-- the context.
pub mod Sent
use libs_gui.Base.{false, ℕ, ℤ, [], ◌∷◌, Option, none, some, ◌≡◌, refl}
use libs_gui.Operators.Values.{
  String, of_float, of_integer, of_pointer, Pointer, Effect, Method, Message, msg_send,
}
use libs_gui.Operators.Methods.{initialize_method_table}
use libs_gui.Operators.Context.{Context, via, via_function, initialized}
use libs_gui.Operators.Methods.Line.{initialize_line}

-- The operators with their arguments.
pub data LineOperator (F : Type 0) : Type 0 where
  currentflat : Pointer → LineOperator F
  currentlinecap : Pointer → LineOperator F
  currentlinejoin : Pointer → LineOperator F
  currentlinewidth : Pointer → LineOperator F
  currentmiterlimit : Pointer → LineOperator F
  currentpoint : Pointer → Pointer → LineOperator F
  currentstrokeadjust : Pointer → LineOperator F
  setdash : Pointer → ℤ → F → LineOperator F
  setflat : F → LineOperator F
  sethalftonephase : F → F → LineOperator F
  setlinecap : ℤ → LineOperator F
  setlinejoin : ℤ → LineOperator F
  setlinewidth : F → LineOperator F
  setmiterlimit : F → LineOperator F
  setstrokeadjust : ℤ → LineOperator F

module _ {F S : Type 0} where
  unfoldable pub dps_currentflat : Option (Context F S) → Pointer → Effect F S
  dps_currentflat ctxt flatness =
      via ctxt λ table self. table.line.dps_currentflat self "DPScurrentflat:" flatness

  unfoldable pub dps_currentlinecap : Option (Context F S) → Pointer → Effect F S
  dps_currentlinecap ctxt linecap =
      via ctxt λ table self. table.line.dps_currentlinecap self "DPScurrentlinecap:" linecap

  unfoldable pub dps_currentlinejoin : Option (Context F S) → Pointer → Effect F S
  dps_currentlinejoin ctxt linejoin =
      via ctxt λ table self. table.line.dps_currentlinejoin self "DPScurrentlinejoin:" linejoin

  unfoldable pub dps_currentlinewidth : Option (Context F S) → Pointer → Effect F S
  dps_currentlinewidth ctxt width =
      via ctxt λ table self. table.line.dps_currentlinewidth self "DPScurrentlinewidth:" width

  unfoldable pub dps_currentmiterlimit : Option (Context F S) → Pointer → Effect F S
  dps_currentmiterlimit ctxt limit =
      via ctxt λ table self. table.line.dps_currentmiterlimit self "DPScurrentmiterlimit:" limit

  unfoldable pub dps_currentpoint : Option (Context F S) → Pointer → Pointer → Effect F S
  dps_currentpoint ctxt x y =
      via ctxt λ table self. table.line.dps_currentpoint self "DPScurrentpoint::" x y

  unfoldable pub dps_currentstrokeadjust : Option (Context F S) → Pointer → Effect F S
  dps_currentstrokeadjust ctxt b =
      via ctxt λ table self. table.line.dps_currentstrokeadjust self "DPScurrentstrokeadjust:" b

  unfoldable pub dps_setdash : Option (Context F S) → Pointer → ℤ → F → Effect F S
  dps_setdash ctxt pat size offset =
      via ctxt λ table self. table.line.dps_setdash self "DPSsetdash:::" pat size offset

  unfoldable pub dps_setflat : Option (Context F S) → F → Effect F S
  dps_setflat ctxt flatness =
      via ctxt λ table self. table.line.dps_setflat self "DPSsetflat:" flatness

  unfoldable pub dps_sethalftonephase : Option (Context F S) → F → F → Effect F S
  dps_sethalftonephase ctxt x y =
      via ctxt λ table self. table.line.dps_sethalftonephase self "DPSsethalftonephase::" x y

  unfoldable pub dps_setlinecap : Option (Context F S) → ℤ → Effect F S
  dps_setlinecap ctxt linecap =
      via ctxt λ table self. table.line.dps_setlinecap self "DPSsetlinecap:" linecap

  unfoldable pub dps_setlinejoin : Option (Context F S) → ℤ → Effect F S
  dps_setlinejoin ctxt linejoin =
      via ctxt λ table self. table.line.dps_setlinejoin self "DPSsetlinejoin:" linejoin

  unfoldable pub dps_setlinewidth : Option (Context F S) → F → Effect F S
  dps_setlinewidth ctxt width =
      via ctxt λ table self. table.line.dps_setlinewidth self "DPSsetlinewidth:" width

  unfoldable pub dps_setmiterlimit : Option (Context F S) → F → Effect F S
  dps_setmiterlimit ctxt limit =
      via ctxt λ table self. table.line.dps_setmiterlimit self "DPSsetmiterlimit:" limit

  unfoldable pub dps_setstrokeadjust : Option (Context F S) → ℤ → Effect F S
  dps_setstrokeadjust ctxt b =
      via ctxt λ table self. table.line.dps_setstrokeadjust self "DPSsetstrokeadjust:" b

  -- The call of an operator.
  unfoldable pub perform_line : LineOperator F → Option (Context F S) → Effect F S
  perform_line (currentflat flatness) ctxt = dps_currentflat ctxt flatness
  perform_line (currentlinecap linecap) ctxt = dps_currentlinecap ctxt linecap
  perform_line (currentlinejoin linejoin) ctxt = dps_currentlinejoin ctxt linejoin
  perform_line (currentlinewidth width) ctxt = dps_currentlinewidth ctxt width
  perform_line (currentmiterlimit limit) ctxt = dps_currentmiterlimit ctxt limit
  perform_line (currentpoint x y) ctxt = dps_currentpoint ctxt x y
  perform_line (currentstrokeadjust b) ctxt = dps_currentstrokeadjust ctxt b
  perform_line (setdash pat size offset) ctxt = dps_setdash ctxt pat size offset
  perform_line (setflat flatness) ctxt = dps_setflat ctxt flatness
  perform_line (sethalftonephase x y) ctxt = dps_sethalftonephase ctxt x y
  perform_line (setlinecap linecap) ctxt = dps_setlinecap ctxt linecap
  perform_line (setlinejoin linejoin) ctxt = dps_setlinejoin ctxt linejoin
  perform_line (setlinewidth width) ctxt = dps_setlinewidth ctxt width
  perform_line (setmiterlimit limit) ctxt = dps_setmiterlimit ctxt limit
  perform_line (setstrokeadjust b) ctxt = dps_setstrokeadjust ctxt b

-- The message that the operator stands for.
unfoldable pub line_message : {F : Type 0} → LineOperator F → Message F
line_message (currentflat flatness) = record {
  selector = "DPScurrentflat:";
  arguments = of_pointer flatness ∷ [];
  is_function = false;
}
line_message (currentlinecap linecap) = record {
  selector = "DPScurrentlinecap:";
  arguments = of_pointer linecap ∷ [];
  is_function = false;
}
line_message (currentlinejoin linejoin) = record {
  selector = "DPScurrentlinejoin:";
  arguments = of_pointer linejoin ∷ [];
  is_function = false;
}
line_message (currentlinewidth width) = record {
  selector = "DPScurrentlinewidth:";
  arguments = of_pointer width ∷ [];
  is_function = false;
}
line_message (currentmiterlimit limit) = record {
  selector = "DPScurrentmiterlimit:";
  arguments = of_pointer limit ∷ [];
  is_function = false;
}
line_message (currentpoint x y) = record {
  selector = "DPScurrentpoint::";
  arguments = of_pointer x ∷ of_pointer y ∷ [];
  is_function = false;
}
line_message (currentstrokeadjust b) = record {
  selector = "DPScurrentstrokeadjust:";
  arguments = of_pointer b ∷ [];
  is_function = false;
}
line_message (setdash pat size offset) = record {
  selector = "DPSsetdash:::";
  arguments = of_pointer pat ∷ of_integer size ∷ of_float offset ∷ [];
  is_function = false;
}
line_message (setflat flatness) = record {
  selector = "DPSsetflat:";
  arguments = of_float flatness ∷ [];
  is_function = false;
}
line_message (sethalftonephase x y) = record {
  selector = "DPSsethalftonephase::";
  arguments = of_float x ∷ of_float y ∷ [];
  is_function = false;
}
line_message (setlinecap linecap) = record {
  selector = "DPSsetlinecap:";
  arguments = of_integer linecap ∷ [];
  is_function = false;
}
line_message (setlinejoin linejoin) = record {
  selector = "DPSsetlinejoin:";
  arguments = of_integer linejoin ∷ [];
  is_function = false;
}
line_message (setlinewidth width) = record {
  selector = "DPSsetlinewidth:";
  arguments = of_float width ∷ [];
  is_function = false;
}
line_message (setmiterlimit limit) = record {
  selector = "DPSsetmiterlimit:";
  arguments = of_float limit ∷ [];
  is_function = false;
}
line_message (setstrokeadjust b) = record {
  selector = "DPSsetstrokeadjust:";
  arguments = of_integer b ∷ [];
  is_function = false;
}
