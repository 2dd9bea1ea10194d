-- ===== src/Operators/Values.antt =====
-- What the operators of Headers/AppKit/DPSOperators.h pass on: arguments, selectors and methods, with
-- the numbers of a type F for CGFloat, and the state of the program of a type S.
use libs_gui.Base.{ℕ, ℤ, Bool, true, false, List, Option, none, some}
pub use Prim.Native.String.{String}

-- An address, 0 for NULL, and an object, 0 for nil.
abbrev pub Pointer : Type 0
Pointer = ℕ

abbrev pub Object : Type 0
Object = ℕ

abbrev pub Point : Type 0 → Type 0
Point F = F × F

abbrev pub Rect : Type 0 → Type 0
Rect F = F × F × F × F

pub data Value (F : Type 0) : Type 0 where
  of_float : F → Value F
  of_integer : ℤ → Value F
  of_count of_pointer of_object : ℕ → Value F
  of_flag : Bool → Value F
  of_point : Point F → Value F
  of_rect : Rect F → Value F
  no_value zero_value : Value F

-- A call that may access memory through a null pointer, for which there is no result.
abbrev pub Effect : Type 0 → Type 0 → Type 0
Effect F S = S → Option (Value F × S)

-- An IMP, with the object, the selector, the arguments and the state.
abbrev pub Method : Type 0 → Type 0 → Type 0
Method F S = ℕ → String → List (Value F) → S → Value F × S

-- A typed function of the table, with the object and the selector.
abbrev pub Slot : Type 0 → Type 0
Slot A = ℕ → String → A

-- `[object selector: arguments]`, with whether its result is used.
pub record Message (F : Type 0) : Type 0 where
  pub selector : String
  pub arguments : List (Value F)
  pub is_function : Bool

-- What is left of a result in a function that returns none.
abbrev pub discard : {F S : Type 0} → Bool → Value F × S → Value F × S
discard true r = r
discard false r = (no_value, r.1)

-- The send of a message to an object and its class. The receiver nil has no effect, and returns zero.
unfoldable pub msg_send :
    {F S : Type 0} → (ℕ → String → Method F S) → Option (ℕ × ℕ) → Message F → Effect F S
msg_send method_for none m s = some (discard m.is_function (zero_value, s))
msg_send method_for (some (id, class)) m s =
    some (discard m.is_function (method_for class m.selector id m.selector m.arguments s))
