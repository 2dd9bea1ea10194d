-- ===== src/TextStorage/SetAttributes.antt =====
-- Source/GSTextStorage.m, `setAttributes:range:`. The range that the method extends serves only as
-- `beginRangeLoc`, so the model keeps that position alone.
pub mod Purge
pub mod Split
pub mod Locate
pub mod Prepare
pub mod Correct
use libs_gui.Base.{
  ℕ, zero, suc, ◌<◌, Bool, true, false, Option, none, some, length, ltb, leb, ◌==◌, if◌then◌else◌,
  ite, u32, u32_pred, max_range, Range,
}
use libs_gui.TextStorage.Cache.{Foundation}
use libs_gui.TextStorage.Store.{
  TextInfo, TextStorage, M, ok, and_then, ◌>>=◌, ◌>>◌, pure, object_at, insert_object, set_object,
  count_objects, cached, un_cached, remove_at, range_check, edited, edited_attributes,
}
use libs_gui.TextStorage.Search.{Found, attributes_at_index}

module _ {D : Type 0} ⦃f : Foundation D⦄ where
  -- `attributes == nil ? blank : attributes`
  unfoldable pub or_blank : Option D → D
  or_blank none = f.blank
  or_blank (some d) = d

  -- What the run that holds the end of the range becomes: the begin of the range, extended over a
  -- run with the same attributes, and the index where the removal starts.
  pub split_end : D → ℕ → ℕ → Found D → M D (ℕ × ℕ)
  split_end a begin after r =
      ite (f.dec_eq r.attrs a)
        (pure (if ltb r.range.location begin then r.range.location else begin, r.index))
        (if ltb begin r.range.location
          then (do
            x ← object_at r.index
            set_object (record x { loc = after }) r.index
            pure (begin, u32_pred r.index))
          else if ltb after (max_range r.range)
          then (do
            cached r.attrs
            insert_object (record { loc = after; attrs = r.attrs }) (u32 (suc r.index))
            pure (begin, r.index))
          else pure (begin, r.index))

  pub locate_end : D → ℕ → ℕ → ℕ → M D (ℕ × ℕ)
  locate_end a begin after len s =
      if ltb after len
      then and_then (attributes_at_index after len s) (split_end a begin after)
      else pure (begin, u32_pred (count_objects s)) s

  -- `while (arrayIndex > 0)`: remove the runs that start within the range.
  pub purge : ℕ → ℕ → M D ℕ
  purge begin zero = pure zero
  purge begin (suc k) = do
    x ← object_at k
    elim (ltb x.loc begin) [ true ↦ pure (suc k) | false ↦ remove_at (suc k) >> purge begin k ]

  -- Use the run at the index if it starts within the range, else add one.
  pub settle : D → ℕ → ℕ → M D (Unit {0})
  settle a begin k = do
    x ← object_at k
    (if leb begin x.loc
        then (do
          set_object (record x { loc = begin }) k
          ite (f.dec_eq x.attrs a) (un_cached a)
              (do un_cached x.attrs; set_object (record { loc = begin; attrs = a }) k))
        else ite (f.dec_eq x.attrs a) (un_cached a)
            (insert_object (record { loc = begin; attrs = a }) (u32 (suc k))))

  pub rewrite_runs : D → ℕ → ℕ → ℕ → M D (Unit {0})
  rewrite_runs a begin after len = do
    (begin', k) ← locate_end a begin after len
    k' ← purge begin' k
    settle a begin' k'

  pub set_attributes : Option D → Range → M D (Unit {0})
  set_attributes attributes range s =
      let a = or_blank attributes in
      let len = u32 (length s.text_chars) in
      if range.length == 0
      then ok tt s
      else (do
        cached a
        range_check range len
        rewrite_runs a (u32 range.location) (u32 (max_range range)) len
        edited edited_attributes range 0)
          s
