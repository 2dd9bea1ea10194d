-- ===== src/TextStorage/Replace.antt =====
-- Source/GSTextStorage.m, `replaceCharactersInRange:withString:`. `moveLocations` is an `int`, kept as
-- its 32-bit pattern; a sum with an `NSUInteger` extends its sign.
pub mod Clip
pub mod Rest
pub mod Meaning
pub mod Steps
pub mod Runs
pub mod Correct
pub mod Text
use libs_gui.Base.{
  ℕ, zero, suc, ◌+◌, ◌-◌, ◌%◌, Bool, true, false, ◌&&◌, ◌||◌, not, Option, none, some, List, [],
  length, ltb, leb, ◌==◌, if◌then◌else◌, u32, u32_pred, u32_mod, u64_mod, max_range, Range,
}
use libs_gui.TextStorage.Cache.{Foundation}
use libs_gui.TextStorage.Store.{
  TextInfo, TextStorage, M, ok, and_then, ◌>>=◌, ◌>>◌, pure, object_at, set_object, count_objects,
  cached, un_cached, remove_at, range_check, replace_text, edited, edited_characters, when,
}
use libs_gui.TextStorage.Search.{Found, attributes_at_index}

-- `(int)([aString length] - range.length)`
unfoldable pub move_locations : ℕ → ℕ → ℕ
unfolding u32
move_locations n old = u32 (n + u64_mod - old)

-- The `int` with the given pattern, as an `NSUInteger`.
unfoldable pub extend_sign : ℕ → ℕ
extend_sign p = if ltb p 2147483648 then p else p + u64_mod - u32_mod

-- `changeInLength:`
unfoldable pub change_in_length : ℕ → ℕ → ℕ
change_in_length n old = (n + u64_mod - old) % u64_mod

-- `aString == nil ? @"" : aString`
unfoldable pub or_empty : Option (List ℕ) → List ℕ
or_empty none = []
or_empty (some t) = t

module _ {D : Type 0} ⦃f : Foundation D⦄ where
  -- The removal of the runs within the range, from `arrayIndex` and `arraySize` on: it returns
  -- `info`, and the new `arraySize`. The fuel is `arraySize`.
  pub remove_within : ℕ → ℕ → ℕ → ℕ → TextInfo D → M D (TextInfo D × ℕ)
  remove_within zero k after size info = pure (info, size)
  remove_within (suc fuel) k after size info = elim (ltb (suc k) size) [
    | false ↦ pure (info, size)
    | true ↦ do
      n ← object_at (suc k)
      elim (leb n.loc after) [
        | true ↦ remove_at k >> remove_within fuel k after (size - 1) n
        | false ↦ pure (info, size)
      ]
  ]

  -- The runs that start within the range go, and the one that extends beyond starts behind it. It
  -- returns the new `arraySize`.
  pub clip_runs : ℕ → ℕ → ℕ → M D ℕ
  clip_runs k after size = do
    info ← object_at k
    (info', size') ←
        (if ltb info.loc after then remove_within size k after size info else pure (info, size))
    λ s.
        (if ltb after (length s.text_chars)
            then set_object (record info' { loc = u32 after }) k >> pure size'
            else remove_at k >> pure (u32_pred size'))
          s

  -- With no new characters: a run that is replaced as a whole goes, unless it is the only one.
  -- It returns `arrayIndex` and `arraySize`.
  pub drop_empty : Range → ℕ → ℕ → ℕ → M D (ℕ × ℕ)
  drop_empty r start len size = do
    e ← attributes_at_index start len
    (if e.range.location == r.location && e.range.length == r.length
        then (if not (e.index == 0) || ltb 1 size
            then remove_at e.index >> pure (e.index, u32_pred size)
            else (do
              info ← object_at 0
              un_cached info.attrs
              cached f.blank
              set_object (record { loc = u32 (max_range r); attrs = f.blank }) 0
              pure (e.index, size)))
        else pure (suc e.index, size))

  -- `info->loc += moveLocations` for the runs from the index on; `rounds` is how many are left.
  pub move_runs : ℕ → ℕ → ℕ → M D (Unit {0})
  move_runs zero k move = pure tt
  move_runs (suc rounds) k move = do
    x ← object_at k
    set_object (record x { loc = u32 (x.loc + move) }) k
    move_runs rounds (suc k) move

  -- Where several runs are: the new characters take the attributes of the first one replaced, or
  -- of the character before them.
  pub replace_runs : Range → ℕ → ℕ → M D (Unit {0})
  replace_runs r n len s =
      let size = count_objects s in
      let start =
        u32 (if r.length == 0 && not (r.location == 0) then r.location - 1 else r.location) in
      let move = move_locations n r.length in
      (do
        e ← attributes_at_index start len
        size' ←
            (if ltb (max_range e.range) (max_range r)
              then clip_runs (suc e.index) (max_range r) size
              else pure size)
        (k, size'') ←
            (if (extend_sign move + r.length) % u64_mod == 0
              then drop_empty r start len size'
              else pure (suc e.index, size'))
        move_runs (size'' - k) k move)
        s

  pub replace_characters : Range → Option (List ℕ) → M D (Unit {0})
  replace_characters r string s =
      let str = or_empty string in
      let len = u32 (length s.text_chars) in
      (do
        range_check r len
        (if r.location == len
            then replace_text r str
            else if count_objects s == 1
            then replace_text r str
            else (do replace_runs r (length str) len; replace_text r str))
        edited edited_characters r (change_in_length (length str) r.length))
        s
