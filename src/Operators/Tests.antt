-- ===== src/Operators/Tests.antt =====
-- The theorems on the operators of graphics contexts, where every method notes its object, its selector
-- and the number of its arguments.
use libs_gui.Base.{ℕ, ◌≡◌, List, [], ◌∷◌, map, Option, none, some}
use libs_gui.Operators.Values.{String, Value, of_float, no_value, Method, msg_send}
use libs_gui.Operators.Context.{Context, initialized}
use libs_gui.Operators.Creation.{init_contexts, init_contexts_lem}
use libs_gui.Operators.Dps.{Operator, perform, operator_message, perform-sent}
use libs_gui.Operators.Dps.Paint.{PaintOperator, paint_message}
use libs_gui.Operators.Ps.{PsOperator}
use libs_gui.Operators.Ps.Client.{PsClientOperator}

abbrev Log : Type 0
Log = List (ℕ × ℕ × String × List (Value ℕ))

abbrev noting : ℕ → String → Method ℕ Log
noting class selector self sel arguments log = (of_float 5, (class, self, sel, arguments) ∷ log)

abbrev moving : Operator ℕ
moving = Operator.paint (PaintOperator.moveto 3 4)

abbrev printing : PsOperator ℕ
printing = PsOperator.client (PsClientOperator.printf 9 20)

abbrev in_front : Log → Option (Context ℕ Log)
in_front log = some (initialized noting 7 1)

abbrev nothing_current : Log → Option (Context ℕ Log)
nothing_current log = none

perform-sent_example :
    perform moving (some (initialized noting 7 1)) []
    ≡ msg_send noting (some (7, 1)) (operator_message moving) []
perform-sent_example = perform-sent noting moving 7 1 [] tt

moved :
    perform moving (some (initialized noting 7 1)) []
    ≡ some (no_value, (1, 7, "DPSmoveto::", of_float 3 ∷ of_float 4 ∷ []) ∷ [])
unfolding msg_send operator_message paint_message
moved = perform-sent noting moving 7 1 [] tt

init_contexts_lem_example :
    init_contexts noting ((7, 1) ∷ (8, 2) ∷ (9, 1) ∷ []) []
    ≡ map
        (λ (request : ℕ × ℕ). initialized noting request.0 request.1)
        ((7, 1) ∷ (8, 2) ∷ (9, 1) ∷ [])
init_contexts_lem_example = init_contexts_lem noting ((7, 1) ∷ (8, 2) ∷ (9, 1) ∷ [])
