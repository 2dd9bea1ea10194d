-- ===== src/Flags/Layout.antt =====
-- The bit-fields of Source/GSCodingFlags.h in a word: the first field is at the low end on machines with
-- little-endian words, and at the high end on those with big-endian words.
use libs_gui.Base.{
  ℕ, zero, suc, ◌+◌, ◌-◌, ◌*◌, ◌/◌, ◌%◌, ◌^◌, ◌<◌, ◌≡◌, refl, List, [], ◌∷◌, ◌++◌, arith, subst,
}

-- The width of each field, and the member of the structure that it holds.
abbrev pub Layout : Type 0 → Type 0
Layout S = List (ℕ × (S → ℕ))

module _ {S : Type 0} where
  unfoldable pub width : Layout S → ℕ
  width [] = 0
  width ((w, member) ∷ rest) = w + width rest

  unfoldable pub reversed : Layout S → Layout S
  reversed [] = []
  reversed (field ∷ rest) = reversed rest ++ field ∷ []

  -- An assignment to a field keeps its low bits.
  unfoldable pub pack_from_low : Layout S → S → ℕ
  pack_from_low [] s = 0
  pack_from_low ((w, member) ∷ rest) s = member s % 2 ^ w + 2 ^ w * pack_from_low rest s

  -- The fields fill the given number of low bits, from the high end on.
  unfoldable pub pack_from_high : ℕ → Layout S → S → ℕ
  pack_from_high n [] s = 0
  pack_from_high n ((w, member) ∷ rest) s =
      member s % 2 ^ w * 2 ^ (n - w) + pack_from_high (n - w) rest s

  unfoldable pub unpack_from_low : Layout S → ℕ → List ℕ
  unpack_from_low [] x = []
  unpack_from_low ((w, member) ∷ rest) x = x % 2 ^ w ∷ unpack_from_low rest (x / 2 ^ w)

  unfoldable pub unpack_from_high : ℕ → Layout S → ℕ → List ℕ
  unpack_from_high n [] x = []
  unpack_from_high n ((w, member) ∷ rest) x =
      x / 2 ^ (n - w) % 2 ^ w ∷ unpack_from_high (n - w) rest x

  -- Every member fits into its field.
  unfoldable pub Fits : Layout S → S → Type 0
  Fits [] s = Unit {0}
  Fits ((w, member) ∷ rest) s = (member s < 2 ^ w) × Fits rest s

  -- The members in the order of the fields.
  abbrev pub members : Layout S → S → List ℕ
  members [] s = []
  members ((w, member) ∷ rest) s = member s ∷ members rest s

-- The value of the field with the given number.
unfoldable pub field_at : ℕ → List ℕ → ℕ
field_at n [] = 0
field_at zero (x ∷ rest) = x
field_at (suc n) (x ∷ rest) = field_at n rest

pub pow_pos : (n : ℕ) → 0 < 2 ^ n
pow_pos zero = omega arith
pow_pos (suc n) = omega (arith, pow_pos n)

pow_suc : (n : ℕ) → 2 ^ suc n ≡ 2 * 2 ^ n
pow_suc n = omega arith

pub pow_add : (m n : ℕ) → 2 ^ (m + n) ≡ 2 ^ m * 2 ^ n
pow_add zero n = let left : 0 + n ≡ n = omega arith in rw left (omega arith)
pow_add (suc m) n =
    let sum : suc m + n ≡ suc (m + n) = omega arith in
    rw (sum, pow_suc (m + n), pow_suc m) (grind (arith, pow_add m n))

mod_bound : (x p : ℕ) → 0 < p → x % p < p
mod_bound x p h = omega arith

word_bound : (p q x y : ℕ) → 0 < p → y < q → x % p + p * y < p * q
word_bound p q x y h b = grind (arith, mod_bound x p h)

high_bound : (p q x y : ℕ) → 0 < p → y < q → x % p * q + y < p * q
high_bound p q x y h b = grind (arith, mod_bound x p h)

upper_part : (q y k : ℕ) → y < q → (y + q * k) / q ≡ k
upper_part q y k h = grind arith

high_part : (p x y : ℕ) → x < p → (x % p + p * y) / p ≡ y
high_part p x y h = grind arith

low_part : (p x y : ℕ) → x < p → (x % p + p * y) % p ≡ x
low_part p x y h = grind (arith, high_part p x y h)

module _ {S : Type 0} where
  pub pack_from_low-bound : (l : Layout S) (s : S) → pack_from_low l s < 2 ^ width l
  unfolding pack_from_low width
  pack_from_low-bound [] s = omega arith
  pack_from_low-bound ((w, member) ∷ rest) s = rw (pow_add w (width rest)) (
      word_bound (2 ^ w) (2 ^ width rest) (member s) (pack_from_low rest s) (pow_pos w)
        (pack_from_low-bound rest s))

  pub unpack-pack_from_low :
      (l : Layout S) (s : S) → Fits l s → unpack_from_low l (pack_from_low l s) ≡ members l s
  unfolding pack_from_low unpack_from_low Fits
  unpack-pack_from_low [] s h = refl
  unpack-pack_from_low ((w, member) ∷ rest) s (now, later) =
      rw
        (
          low_part (2 ^ w) (member s) (pack_from_low rest s) now,
          high_part (2 ^ w) (member s) (pack_from_low rest s) now,
          unpack-pack_from_low rest s later,
        )
        refl

  pack_from_low-snoc :
      (l : Layout S) (w : ℕ) (member : S → ℕ) (s : S)
      → pack_from_low (l ++ (w, member) ∷ []) s
        ≡ pack_from_low l s + 2 ^ width l * (member s % 2 ^ w)
  unfolding pack_from_low width
  pack_from_low-snoc [] w member s = omega arith
  pack_from_low-snoc ((v, first) ∷ rest) w member s =
      rw (pack_from_low-snoc rest w member s, pow_add v (width rest)) (grind arith)

  width-snoc : (l : Layout S) (w : ℕ) (member : S → ℕ) → width (l ++ (w, member) ∷ []) ≡ width l + w
  unfolding width
  width-snoc [] w member = omega arith
  width-snoc ((v, first) ∷ rest) w member = omega (arith, width-snoc rest w member)

  pub width-reversed : (l : Layout S) → width (reversed l) ≡ width l
  unfolding width reversed
  width-reversed [] = refl
  width-reversed ((w, member) ∷ rest) =
      omega (arith, width-snoc (reversed rest) w member, width-reversed rest)

  pub pack_from_high-reversed :
      (l : Layout S) (s : S) → pack_from_high (width l) l s ≡ pack_from_low (reversed l) s
  unfolding pack_from_high width reversed pack_from_low
  pack_from_high-reversed [] s = refl
  pack_from_high-reversed ((w, member) ∷ rest) s =
      let left : w + width rest - w ≡ width rest = omega arith in
      rw
        (
          left,
          pack_from_high-reversed rest s,
          pack_from_low-snoc (reversed rest) w member s,
          width-reversed rest,
        )
        (grind arith)

  pub pack_from_high-bound : (l : Layout S) (s : S) → pack_from_high (width l) l s < 2 ^ width l
  unfolding pack_from_high width
  pack_from_high-bound [] s = omega arith
  pack_from_high-bound ((w, member) ∷ rest) s =
      let left : w + width rest - w ≡ width rest = omega arith in
      rw (left, pow_add w (width rest))
        (high_bound (2 ^ w) (2 ^ width rest) (member s) (pack_from_high (width rest) rest s)
          (pow_pos w) (pack_from_high-bound rest s))

  -- The bits above the fields, in z, do not matter.
  unpack-pack_from_high_above :
      (l : Layout S) (s : S) (z : ℕ)
      → Fits l s
      → unpack_from_high (width l) l (pack_from_high (width l) l s + 2 ^ width l * z) ≡ members l s
  unfolding pack_from_high unpack_from_high width Fits
  unpack-pack_from_high_above [] s z h = refl
  unpack-pack_from_high_above ((w, member) ∷ rest) s z (now, later) =
      let left : w + width rest - w ≡ width rest = omega arith in
      let rearranged : member s % 2 ^ w * 2 ^ width rest
            + pack_from_high (width rest) rest s
            + 2 ^ (w + width rest) * z
          ≡ pack_from_high (width rest) rest s + 2 ^ width rest * (member s % 2 ^ w + 2 ^ w * z) =
        rw (pow_add w (width rest)) (grind arith) in
      rw
        (
          left,
          rearranged,
          upper_part (2 ^ width rest) (pack_from_high (width rest) rest s)
              (member s % 2 ^ w + 2 ^ w * z) (pack_from_high-bound rest s),
          low_part (2 ^ w) (member s) z now,
          unpack-pack_from_high_above rest s (member s % 2 ^ w + 2 ^ w * z) later,
        )
        refl

  pub unpack-pack_from_high :
      (l : Layout S) (s : S)
      → Fits l s
      → unpack_from_high (width l) l (pack_from_high (width l) l s) ≡ members l s
  unpack-pack_from_high l s h =
      let none_above : pack_from_high (width l) l s + 2 ^ width l * 0
          ≡ pack_from_high (width l) l s =
        omega arith in
      subst (λ x. unpack_from_high (width l) l x ≡ members l s) none_above
        (unpack-pack_from_high_above l s 0 h)

  Fits-snoc :
      (l : Layout S) (w : ℕ) (member : S → ℕ) (s : S)
      → Fits (l ++ (w, member) ∷ []) s
      → Fits l s × (member s < 2 ^ w)
  unfolding Fits
  Fits-snoc [] w member s (now, later) = (later, now)
  Fits-snoc ((v, first) ∷ rest) w member s (now, later) =
      let split = Fits-snoc rest w member s later in ((now, split.0), split.1)

  pub reversed-Fits : (l : Layout S) (s : S) → Fits (reversed l) s → Fits l s
  unfolding Fits reversed
  reversed-Fits [] s h = tt
  reversed-Fits ((w, member) ∷ rest) s h =
      let split = Fits-snoc (reversed rest) w member s h in (split.1, reversed-Fits rest s split.0)
