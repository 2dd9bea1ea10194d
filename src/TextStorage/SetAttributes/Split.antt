-- ===== src/TextStorage/SetAttributes/Split.antt =====
-- Source/GSTextStorage.m, `setAttributes:range:`: what the run at the end of the range becomes, and
-- the meaning of the runs before it.
use libs_gui.Base.{ℕ, ◌≤◌, ◌<◌, ◌≡◌, List, [], ◌∷◌, arith, leb, rev_onto, if◌then◌else◌}
use libs_gui.TextStorage.Cache.{Foundation}
use libs_gui.TextStorage.Store.{TextInfo}
use libs_gui.TextStorage.Runs.{
  Descending, Ascending, IsSane, value, value_before, value_skip, put_together,
}
use libs_gui.TextStorage.Lookup.{start_of}
use libs_gui.TextStorage.SetAttributes.Purge.{kept_before, kept_run, settled}

module _ {D : Type 0} where
  pub Ascending-raise :
      (p i len : ℕ) (l : List (TextInfo D))
      → Ascending p len l
      → i < start_of l len
      → Ascending i len l
  Ascending-raise p i len [] a h = tt
  Ascending-raise p i len (x ∷ l) a h = (h, a.1, a.2)

  -- Before the first of the runs, the attributes are those given.
  pub value_first :
      (p len : ℕ) (d : D) (l : List (TextInfo D)) (i : ℕ)
      → Ascending p len l
      → i < start_of l len
      → value d l i ≡ d
  value_first p len d l i a h = value_skip i len d l i (Ascending-raise p i len l a h) (omega arith)

  pub start_of-le : (p len : ℕ) (l : List (TextInfo D)) → Ascending p len l → start_of l len ≤ len
  start_of-le p len [] a = omega arith
  start_of-le p len (x ∷ l) a = omega arith

  -- Runs that lead up to a position.
  abbrev pub UpTo : ℕ → List (TextInfo D) → Type 0
  UpTo b [] = ⊥
  UpTo b (y ∷ rp) = (y.loc ≤ b) × Descending rp y.loc

  pub UpTo-IsSane :
      (b len : ℕ) (rp l : List (TextInfo D))
      → UpTo b rp
      → b < len
      → Ascending b len l
      → IsSane (rev_onto rp l) len
  UpTo-IsSane b len [] l u h a = absurd u
  UpTo-IsSane b len (y ∷ rp) l u h a =
      put_together len rp y l
        (record { before = u.1; inside = omega (arith, u.0); after = lower l a })
    where
      lower : (l : List (TextInfo D)) → Ascending b len l → Ascending y.loc len l
      lower [] a = tt
      lower (x ∷ l) a = (omega (arith, u.0), a.1, a.2)

module _ {D : Type 0} ⦃f : Foundation D⦄ where
  settled-value :
      (d a : D) (b : ℕ) (rp : List (TextInfo D)) (x : TextInfo D) (i : ℕ)
      → value_before d (settled a b rp x) i ≡ (if leb b i then a else value_before d (x ∷ rp) i)
  settled-value d a b rp x i = ground arith

  -- The runs up to the range give the new attributes from its begin on, and the old ones before it.
  pub kept-value :
      (d a : D) (b : ℕ) (rp : List (TextInfo D)) (x : TextInfo D) (i : ℕ)
      → Descending rp x.loc
      → value_before d (settled a b (kept_before b rp) (kept_run b rp x)) i
        ≡ (if leb b i then a else value_before d (x ∷ rp) i)
  kept-value d a b [] x i h = settled-value d a b [] x i
  kept-value d a b (c ∷ rp) x i h =
      ground (arith, settled-value d a b (c ∷ rp) x i, kept-value d a b rp c i)

  pub kept-UpTo :
      (a : D) (b : ℕ) (rp : List (TextInfo D)) (x : TextInfo D)
      → Descending rp x.loc
      → UpTo b (settled a b (kept_before b rp) (kept_run b rp x))
  kept-UpTo a b [] x h = ground arith
  kept-UpTo a b (c ∷ rp) x h = ground (arith, kept-UpTo a b rp c)
