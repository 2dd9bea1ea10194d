-- ===== src/TextStorage/Search.antt =====
-- Source/GSTextStorage.m, `_attributesAtIndexEffectiveRange`: the run that holds an index, by binary
-- search. Indices and positions are `unsigned`; the fuel of the loop is one more than the number
-- of runs.
pub mod Correct
use libs_gui.Base.{
  ℕ, zero, suc, ◌+◌, ◌-◌, ◌/◌, Bool, true, false, ◌||◌, ltb, leb, ◌==◌, if◌then◌else◌, u32, u32_mod,
  u32_pred, Range,
}
use libs_gui.TextStorage.Store.{
  TextInfo, TextStorage, M, and_then, ◌>>=◌, pure, raise, object_at, count_objects,
  internal_inconsistency, range_exception,
}

-- What the function returns: the index of the run, its effective range, and its attributes.
pub record Found (D : Type 0) : Type 0 where
  pub index : ℕ
  pub range : Range
  pub attrs : D

module _ {D : Type 0} where
  unfoldable pub found_run : ℕ → TextInfo D → ℕ → Found D
  found_run k x next = record {
    index = k;
    range = record { location = x.loc; length = u32 (next + u32_mod - x.loc) };
    attrs = x.attrs;
  }

  -- `nextLoc`
  unfoldable pub next_location : ℕ → ℕ → ℕ → M D ℕ
  next_location used len cnt =
      if leb (u32_pred used) cnt
      then pure len
      else (do inf ← object_at (u32 (suc cnt)); pure inf.loc)

  unfoldable pub search : ℕ → ℕ → ℕ → ℕ → ℕ → ℕ → M D (Found D)
  search zero index len used low high = raise internal_inconsistency
  search (suc fuel) index len used low high = elim (leb low high) [
    | false ↦ raise internal_inconsistency
    | true ↦
        let cnt = u32 (low + high) / 2 in
        do
          found ← object_at cnt
          elim (ltb index found.loc) [
            | true ↦ search fuel index len used low (u32_pred cnt)
            | false ↦ do
              next ← next_location used len cnt
              elim (found.loc == index || ltb index next) [
                | true ↦ pure (found_run cnt found next)
                | false ↦ search fuel index len used (u32 (suc cnt)) high
              ]
          ]
  ]

  -- The attributes just behind the last character are those of the last run.
  unfoldable pub attributes_at_index : ℕ → ℕ → M D (Found D)
  attributes_at_index index len s =
      let used = count_objects s in
      if used == 0
      then raise internal_inconsistency s
      else if ltb index len
      then search (suc used) index len used 0 (u32_pred used) s
      else if index == len
      then (do x ← object_at (u32_pred used); pure (found_run (u32_pred used) x len)) s
      else raise range_exception s
