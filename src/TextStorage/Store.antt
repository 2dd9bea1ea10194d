-- ===== src/TextStorage/Store.antt =====
-- The object of Source/GSTextStorage.m, with the messages that its methods send: its text, the
-- `GSTextInfo` objects of `_infoArray`, the cache of attributes, and the calls of
-- `edited:range:changeInLength:`, newest first. An exception leaves the object as it is by then.
use libs_gui.Base.{
  ℕ, ◌+◌, List, ◌∷◌, Option, none, some, Bool, true, false, ◌++◌, if◌then◌else◌, take, drop, u32,
  get_elem?, set, erase_idx, insert_idx, length, Range,
}
use libs_gui.TextStorage.Cache.{Foundation, Cache, cache_attributes, un_cache_attributes}

pub record TextInfo (D : Type 0) : Type 0 where
  pub loc : ℕ
  pub attrs : D

pub data EditMask : Type 0 where
  edited_attributes edited_characters : EditMask

-- `delta` is an `NSInteger`, as its 64-bit pattern.
pub record Edit : Type 0 where
  pub mask : EditMask
  pub range : Range
  pub delta : ℕ

pub record TextStorage (D : Type 0) : Type 0 where
  pub text_chars : List ℕ
  pub info_array : List (TextInfo D)
  pub cache : Cache D
  pub edits : List Edit

pub data Exception : Type 0 where
  range_exception internal_inconsistency : Exception

pub data Outcome (D A : Type 0) : Type 0 where
  ok : A → TextStorage D → Outcome D A
  raised : Exception → TextStorage D → Outcome D A

abbrev pub M : Type 0 → Type 0 → Type 0
M D A = TextStorage D → Outcome D A

module _ {D : Type 0} where
  abbrev pub and_then : {A B : Type 0} → Outcome D A → (A → M D B) → Outcome D B
  and_then (ok a s) k = k a s
  and_then (raised e s) k = raised e s

  infixl 5 ◌>>=◌ ◌>>◌
  abbrev pub ◌>>=◌ : {A B : Type 0} → M D A → (A → M D B) → M D B
  ◌>>=◌ m k s = and_then (m s) k

  abbrev pub ◌>>◌ : {B : Type 0} → M D (Unit {0}) → M D B → M D B
  ◌>>◌ m k s = and_then (m s) (λ _. k)

  abbrev pub pure : {A : Type 0} → A → M D A
  pure a s = ok a s

  abbrev pub raise : {A : Type 0} → Exception → M D A
  raise e s = raised e s

  abbrev pub or_raise : {A : Type 0} → Option A → M D A
  or_raise none s = raised range_exception s
  or_raise (some a) s = ok a s

  abbrev pub when : Bool → M D (Unit {0}) → M D (Unit {0})
  when true m = m
  when false m = pure tt

  -- The macros OBJECTAT and INSOBJECT, and an assignment to the object at an index.
  unfoldable pub object_at : ℕ → M D (TextInfo D)
  object_at i s = or_raise (get_elem? s.info_array i) s

  unfoldable pub insert_object : TextInfo D → ℕ → M D (Unit {0})
  insert_object x i s = ok tt (record s { info_array = insert_idx s.info_array i x })

  unfoldable pub set_object : TextInfo D → ℕ → M D (Unit {0})
  set_object x i s = ok tt (record s { info_array = set s.info_array i x })

  -- The number of objects, as an `unsigned`.
  unfoldable pub count_objects : TextStorage D → ℕ
  count_objects s = u32 (length s.info_array)

  unfoldable pub replace_text : Range → List ℕ → M D (Unit {0})
  replace_text r str s = ok tt (record s {
    text_chars = take r.location s.text_chars ++ (str ++ drop (r.location + r.length) s.text_chars);
  })

  unfoldable pub edited : EditMask → Range → ℕ → M D (Unit {0})
  edited m r n s = ok tt (record s { edits = record { mask = m; range = r; delta = n } ∷ s.edits })

module _ {D : Type 0} ⦃f : Foundation D⦄ where
  unfoldable pub cached : D → M D (Unit {0})
  cached d s = ok tt (record s { cache = cache_attributes d s.cache })

  unfoldable pub un_cached : D → M D (Unit {0})
  un_cached d s = ok tt (record s { cache = un_cache_attributes d s.cache })

  -- REMOVEAT: the array releases the object, which takes its attributes from the cache.
  unfoldable pub remove_at : ℕ → M D (Unit {0})
  unfolding object_at un_cached
  remove_at i = do
    x ← object_at i
    λ s. ok tt (record s { info_array = erase_idx s.info_array i })
    un_cached x.attrs

  unfoldable pub range_check : Range → ℕ → M D (Unit {0})
  range_check r n = if f.range_ok r n then pure tt else raise range_exception
