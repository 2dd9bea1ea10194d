-- ===== src/Operators/Context.antt =====
-- Headers/AppKit/DPSOperators.h: the macros DPS_METHOD and DPS_FUNCTION, which call a function in the
-- table of a context.
use libs_gui.Base.{ℕ, Option, none, some}
use libs_gui.Operators.Values.{String, Value, no_value, Effect, Method}
use libs_gui.Operators.Methods.{MethodTable, initialize_method_table}

pub record Context (F S : Type 0) : Type 0 where
  pub identity : ℕ
  pub isa : ℕ
  pub methods : MethodTable F S

module _ {F S : Type 0} where
  -- `(ctxt->methods->name)(ctxt, ...)`, without the result.
  unfoldable pub via : Option (Context F S) → (MethodTable F S → ℕ → S → Value F × S) → Effect F S
  via none call s = none
  via (some ctxt) call s = some (no_value, (call ctxt.methods ctxt.identity s).1)

  unfoldable pub via_function :
      Option (Context F S) → (MethodTable F S → ℕ → S → Value F × S) → Effect F S
  via_function none call s = none
  via_function (some ctxt) call s = some (call ctxt.methods ctxt.identity s)

  -- A context after `init`, with the table of its class.
  unfoldable pub initialized : (ℕ → String → Method F S) → ℕ → ℕ → Context F S
  initialized method_for id class = record {
    identity = id;
    isa = class;
    methods = initialize_method_table (method_for class);
  }
