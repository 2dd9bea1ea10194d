-- ===== src/Operators/Creation.antt =====
-- Source/NSGraphicsContext.m: the creation of contexts, with one table of methods for each class in the
-- dictionary classMethodTable.
use libs_gui.Base.{
  ℕ, ◌≡◌, refl, List, [], ◌∷◌, map, Option, none, some, ◌==◌, if◌then◌else◌, Bool-cases, by_option,
  arith, subst, sym, inl, inr,
}
use libs_gui.Operators.Values.{String, Method}
use libs_gui.Operators.Methods.{MethodTable, initialize_method_table}
use libs_gui.Operators.Context.{Context, initialized}

module _ {F S : Type 0} where
  unfoldable pub table_for_class : ℕ → List (ℕ × MethodTable F S) → Option (MethodTable F S)
  table_for_class class [] = none
  table_for_class class ((key, table) ∷ rest) =
      let found = table_for_class class rest in if key == class then some table else found

  -- The dictionary after an initialization: the table of the class, made where there is none.
  unfoldable pub with_table :
      (ℕ → String → Method F S)
      → ℕ
      → List (ℕ × MethodTable F S)
      → MethodTable F S × List (ℕ × MethodTable F S)
  with_table method_for class class_method_table = elim (table_for_class class class_method_table) [
    | some table ↦ (table, class_method_table)
    | none ↦ (
      initialize_method_table (method_for class),
      (class, initialize_method_table (method_for class)) ∷ class_method_table,
    )
  ]

  -- `initWithContextInfo:` of an object of a class.
  unfoldable pub init_context :
      (ℕ → String → Method F S)
      → ℕ × ℕ
      → List (ℕ × MethodTable F S)
      → Context F S × List (ℕ × MethodTable F S)
  init_context method_for (id, class) class_method_table =
      let r = with_table method_for class class_method_table in
      (record { identity = id; isa = class; methods = r.0 }, r.1)

  -- Creations one after the other, as the lock orders them.
  unfoldable pub init_contexts :
      (ℕ → String → Method F S) → List (ℕ × ℕ) → List (ℕ × MethodTable F S) → List (Context F S)
  init_contexts method_for [] class_method_table = []
  init_contexts method_for (request ∷ rest) class_method_table =
      let r = init_context method_for request class_method_table in
      r.0 ∷ init_contexts method_for rest r.1

  -- Every table in the dictionary is that of its class.
  HasOwnTables : (ℕ → String → Method F S) → List (ℕ × MethodTable F S) → Type 0
  HasOwnTables method_for class_method_table =
      (class : ℕ) (table : MethodTable F S)
      → table_for_class class class_method_table ≡ some table
      → table ≡ initialize_method_table (method_for class)

  own-cons :
      (method_for : ℕ → String → Method F S) (class : ℕ) (tables : List (ℕ × MethodTable F S))
      → HasOwnTables method_for tables
      → HasOwnTables method_for ((class, initialize_method_table (method_for class)) ∷ tables)
  unfolding HasOwnTables table_for_class
  own-cons method_for class tables own other table found = elim (Bool-cases (class == other)) [
    | inl yes_it ↦
        let same : class ≡ other = ground arith in
        subst (λ c. table ≡ initialize_method_table (method_for c)) same (sym (ground arith))
    | inr no_it ↦ own other table (ground arith)
  ]

  with_table-own :
      (method_for : ℕ → String → Method F S) (class : ℕ) (tables : List (ℕ × MethodTable F S))
      → HasOwnTables method_for tables
      → ((with_table method_for class tables).0 ≡ initialize_method_table (method_for class))
        × HasOwnTables method_for (with_table method_for class tables).1
  unfolding with_table HasOwnTables
  with_table-own method_for class tables own =
      by_option
        (λ (r : MethodTable F S × List (ℕ × MethodTable F S)).
          (r.0 ≡ initialize_method_table (method_for class)) × HasOwnTables method_for r.1)
        (table_for_class class tables) _ _ (λ e. (refl, own-cons method_for class tables own))
        (λ table e. (own class table e, own))

  init_contexts-own :
      (method_for : ℕ → String → Method F S) (requests : List (ℕ × ℕ))
      (tables : List (ℕ × MethodTable F S))
      → HasOwnTables method_for tables
      → init_contexts method_for requests tables
        ≡ map (λ request. initialized method_for request.0 request.1) requests
  unfolding init_contexts init_context initialized
  init_contexts-own method_for [] tables own = refl
  init_contexts-own method_for (request ∷ rest) tables own =
      let step = with_table-own method_for request.1 tables own in
      let next =
        init_contexts-own method_for rest (with_table method_for request.1 tables).1 step.1 in
      rw (step.0, next) refl

-- Contexts created one after the other, of any classes and from an empty dictionary, each have the table
-- of their own class, whether it is made for them or found in the dictionary.
pub init_contexts_lem :
    {F S : Type 0} (method_for : ℕ → String → Method F S) (requests : List (ℕ × ℕ))
    → init_contexts method_for requests []
      ≡ map (λ request. initialized method_for request.0 request.1) requests
unfolding HasOwnTables table_for_class
init_contexts_lem method_for requests =
    init_contexts-own method_for requests [] (λ class table found. ground arith)
