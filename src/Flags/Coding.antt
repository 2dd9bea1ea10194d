-- ===== src/Flags/Coding.antt =====
-- Source/GSCodingFlags.h: the unions of a structure of bit-fields with a word of 32 bits.
use libs_gui.Base.{ℕ, ◌<◌, ◌^◌, ◌≡◌, ap, ◌∙◌, sym, subst, Bool, true, false, List, if◌then◌else◌}
use libs_gui.Flags.Layout.{
  Layout, width, reversed, pack_from_low, pack_from_high, unpack_from_low, unpack_from_high, Fits,
  members, pack_from_low-bound, pack_from_high-bound, reversed-Fits, pack_from_high-reversed,
  unpack-pack_from_low, unpack-pack_from_high,
}

-- The order of the fields on either kind of machine, and the structure that has the values given in
-- that order.
pub record Coding (S : Type 0) : Type 0 where
  pub big_endian : Layout S
  pub little_endian : Layout S
  pub of_big : List ℕ → S
  pub of_little : List ℕ → S

module _ {S : Type 0} where
  -- The word of a structure, and the structure of a word, on a machine with or without big-endian words.
  unfoldable pub value_of : Coding S → Bool → S → ℕ
  value_of c big s =
      if big then pack_from_high 32 c.big_endian s else pack_from_low c.little_endian s

  unfoldable pub flags_of : Coding S → Bool → ℕ → S
  flags_of c big value =
      if big
      then c.of_big (unpack_from_high 32 c.big_endian value)
      else c.of_little (unpack_from_low c.little_endian value)

-- The fields of either order fill a word, are those of the other from behind, and are each read into
-- the member that they hold.
pub record IsSound {S : Type 0} (c : Coding S) : Type 0 where
  pub width_big : width c.big_endian ≡ 32
  pub width_little : width c.little_endian ≡ 32
  pub reversed_big : reversed c.big_endian ≡ c.little_endian
  pub of_big_members : (s : S) → c.of_big (members c.big_endian s) ≡ s
  pub of_little_members : (s : S) → c.of_little (members c.little_endian s) ≡ s

module _ {S : Type 0} (c : Coding S) (sound : IsSound c) where
  pub value_of-endian : (s : S) → value_of c true s ≡ value_of c false s
  unfolding value_of
  value_of-endian s =
      subst (λ n. pack_from_high n c.big_endian s ≡ pack_from_low (reversed c.big_endian) s)
        sound.width_big (pack_from_high-reversed c.big_endian s)
      ∙ ap (λ l. pack_from_low l s) sound.reversed_big

  pub value_of-bound : (big : Bool) (s : S) → value_of c big s < 2 ^ 32
  unfolding value_of
  value_of-bound false s =
      subst (λ n. pack_from_low c.little_endian s < 2 ^ n) sound.width_little
        (pack_from_low-bound c.little_endian s)
  value_of-bound true s =
      subst (λ n. pack_from_high n c.big_endian s < 2 ^ n) sound.width_big
        (pack_from_high-bound c.big_endian s)

  Fits-big : (s : S) → Fits c.little_endian s → Fits c.big_endian s
  Fits-big s h = reversed-Fits c.big_endian s (subst (λ l. Fits l s) (sym sound.reversed_big) h)

  own_order : (big : Bool) (s : S) → Fits c.little_endian s → flags_of c big (value_of c big s) ≡ s
  unfolding value_of flags_of
  own_order false s h =
      ap c.of_little (unpack-pack_from_low c.little_endian s h) ∙ sound.of_little_members s
  own_order true s h =
      ap c.of_big (
        subst
          (λ n.
            unpack_from_high n c.big_endian (pack_from_high n c.big_endian s)
            ≡ members c.big_endian s)
          sound.width_big (unpack-pack_from_high c.big_endian s (Fits-big s h)))
      ∙ sound.of_big_members s

  -- The machine that reads need not have the order of the one that writes.
  pub flags_of-value_of :
      (reader writer : Bool) (s : S)
      → Fits c.little_endian s
      → flags_of c reader (value_of c writer s) ≡ s
  flags_of-value_of true true s h = own_order true s h
  flags_of-value_of false false s h = own_order false s h
  flags_of-value_of true false s h =
      ap (flags_of c true) (sym (value_of-endian s)) ∙ own_order true s h
  flags_of-value_of false true s h = ap (flags_of c false) (value_of-endian s) ∙ own_order false s h
