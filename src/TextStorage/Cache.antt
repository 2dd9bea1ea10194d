-- ===== src/TextStorage/Cache.antt =====
-- The cache of attribute dictionaries of Source/GSTextStorage.m: `attrMap`, `cacheAttributes`,
-- `unCacheAttributes`. A dictionary stands for its contents, which nothing changes while it is
-- cached; so the cached object that `cacheAttributes` returns is the dictionary itself, and two
-- cached dictionaries are identical when they are equal. A count is the number of live references.
use libs_gui.Base.{
  ℕ, ◌+◌, ◌-◌, ◌≤◌, ◌<◌, ◌≡◌, refl, ◌↔◌, Bool, true, false, List, [], ◌∷◌, ite, arith, ◌==◌,
  if◌then◌else◌, Range,
}

-- What the file takes from GNUstep Base: the empty dictionary, `isEqualToDictionary:`, and the test
-- of the macro GS_RANGE_CHECK, which passes the ranges that lie within a length.
pub record Foundation (D : Type 0) : Type 0 where
  pub blank : D
  pub dec_eq : (a b : D) → Dec (a ≡ b)
  pub range_ok : Range → ℕ → Bool
  pub range_ok_iff : (r : Range) (n : ℕ) → (range_ok r n ≡ true) ↔ (r.location + r.length ≤ n)

module _ {D : Type 0} (f : Foundation D) (r : Range) (n : ℕ) where
  pub range_fails : n < r.location + r.length → f.range_ok r n ≡ false
  range_fails h = ground (arith, f.range_ok_iff r n)

  pub range_passes : r.location + r.length ≤ n → f.range_ok r n ≡ true
  range_passes h = (f.range_ok_iff r n).1 h

abbrev pub Cache : Type 0 → Type 0
Cache D = List (D × ℕ)

module _ {D : Type 0} ⦃f : Foundation D⦄ where
  unfoldable pub cache_attributes : D → Cache D → Cache D
  cache_attributes d [] = (d, 1) ∷ []
  cache_attributes d ((k, n) ∷ c) =
      ite (f.dec_eq k d) ((k, n + 1) ∷ c) ((k, n) ∷ cache_attributes d c)

  unfoldable pub un_cache_attributes : D → Cache D → Cache D
  un_cache_attributes d [] = []
  un_cache_attributes d ((k, n) ∷ c) =
      ite (f.dec_eq k d) (if n - 1 == 0 then c else (k, n - 1) ∷ c)
        ((k, n) ∷ un_cache_attributes d c)

  -- The count of a dictionary, 0 if it is not cached.
  unfoldable pub count : D → Cache D → ℕ
  count d [] = 0
  count d ((k, n) ∷ c) = ite (f.dec_eq k d) n (count d c)

  -- One node for each dictionary, with a count that is not 0.
  abbrev pub IsProper : Cache D → Type 0
  IsProper [] = Unit {0}
  IsProper ((k, n) ∷ c) = (0 < n) × (count k c ≡ 0) × IsProper c

  abbrev pub one : D → D → ℕ
  one d e = ite (f.dec_eq d e) 1 0

  pub count-cache_attributes :
      (d e : D) (c : Cache D) → count e (cache_attributes d c) ≡ count e c + one d e
  unfolding count cache_attributes
  count-cache_attributes d e [] = ground arith
  count-cache_attributes d e ((k, n) ∷ c) = ground (arith, count-cache_attributes d e c)

  pub cache_attributes-IsProper :
      (d : D) (c : Cache D) → IsProper c → IsProper (cache_attributes d c)
  unfolding cache_attributes count
  cache_attributes-IsProper d [] w = ground arith
  cache_attributes-IsProper d ((k, n) ∷ c) w =
      ground (arith, cache_attributes-IsProper d c, count-cache_attributes d k c)

  pub count-un_cache_attributes :
      (d e : D) (c : Cache D)
      → IsProper c
      → 0 < count d c
      → count e (un_cache_attributes d c) + one d e ≡ count e c
  unfolding count un_cache_attributes
  count-un_cache_attributes d e [] w h = ground arith
  count-un_cache_attributes d e ((k, n) ∷ c) w h = ground (arith, count-un_cache_attributes d e c)

  count-un_cache_attributes_zero :
      (d e : D) (c : Cache D) → IsProper c → count e c ≡ 0 → count e (un_cache_attributes d c) ≡ 0
  unfolding count un_cache_attributes
  count-un_cache_attributes_zero d e [] w h = refl
  count-un_cache_attributes_zero d e ((k, n) ∷ c) w h =
      ground (arith, count-un_cache_attributes_zero d e c)

  pub un_cache_attributes-IsProper :
      (d : D) (c : Cache D) → IsProper c → IsProper (un_cache_attributes d c)
  unfolding un_cache_attributes count
  un_cache_attributes-IsProper d [] w = tt
  un_cache_attributes-IsProper d ((k, n) ∷ c) w =
      ground (arith, un_cache_attributes-IsProper d c, count-un_cache_attributes_zero d k c)
