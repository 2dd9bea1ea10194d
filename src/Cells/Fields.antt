-- ===== src/Cells/Fields.antt =====
-- Words put together by `|` from fields in ascending places, with gaps between them.
use Prim.Native.Nat.{bit_or}
use native.Mathlib.Nat.{div-div-eq-div-mul}
use libs_gui.Base.{
  ℕ, suc, ◌+◌, ◌*◌, ◌/◌, ◌%◌, ◌^◌, ◌<◌, ◌≡◌, refl, sym, subst, Bool, true, false, not, List, [],
  ◌∷◌, ◌++◌, if◌then◌else◌, take, drop, arith,
}
use libs_gui.Flags.Layout.{pow_pos, pow_add}
use libs_gui.Cells.Bits.{bit_or-above}

abbrev pub bit : Bool → ℕ
bit true = 1
bit false = 0

-- The width of the gap before a field, the width of the field, and its value.
abbrev pub Fields : Type 0
Fields = List (ℕ × ℕ × ℕ)

unfoldable pub span : Fields → ℕ
span [] = 0
span ((gap, w, v) ∷ rest) = gap + w + span rest

unfoldable pub AllFit : Fields → Type 0
AllFit [] = Unit {0}
AllFit ((gap, w, v) ∷ rest) = (v < 2 ^ w) × AllFit rest

unfoldable pub or_fields : ℕ → ℕ → Fields → ℕ
or_fields acc place [] = acc
or_fields acc place ((gap, w, v) ∷ rest) =
    or_fields (bit_or acc (v * 2 ^ (place + gap))) (place + gap + w) rest

unfoldable pub joined : Fields → ℕ
joined [] = 0
joined ((gap, w, v) ∷ rest) = 2 ^ gap * (v + 2 ^ w * joined rest)

next_bound : (p g q acc v : ℕ) → 0 < g → acc < p → v < q → acc + v * (p * g) < p * g * q
next_bound p g q acc v hg ha hv = grind arith

pub or_fields_lem :
    (acc place : ℕ) (l : Fields)
    → acc < 2 ^ place
    → AllFit l
    → or_fields acc place l ≡ acc + 2 ^ place * joined l
unfolding or_fields joined AllFit
or_fields_lem acc place [] h fit = omega arith
or_fields_lem acc place ((gap, w, v) ∷ rest) h (now, later) =
    let place_of : 2 ^ (place + gap) ≡ 2 ^ place * 2 ^ gap = pow_add place gap in
    let small : acc < 2 ^ (place + gap) = rw place_of (grind (arith, pow_pos gap)) in
    let next : 2 ^ (place + gap + w) ≡ 2 ^ place * 2 ^ gap * 2 ^ w =
      rw (pow_add (place + gap) w, place_of) refl in
    let bound : acc + v * 2 ^ (place + gap) < 2 ^ (place + gap + w) =
      rw (next, place_of) (next_bound (2 ^ place) (2 ^ gap) (2 ^ w) acc v (pow_pos gap) h now) in
    rw
      (
        bit_or-above (place + gap) acc v small,
        or_fields_lem (acc + v * 2 ^ (place + gap)) (place + gap + w) rest bound later,
        next,
        place_of,
      )
      (grind arith)

field_value : (p x y : ℕ) → x < p → (x + p * y) % p ≡ x
field_value p x y h = let q : (x + p * y) / p ≡ y = grind arith in grind (arith, q)

cancel : (p y : ℕ) → 0 < p → p * y / p ≡ y
cancel p y h = grind arith

-- A quotient by a power of two drops what is below it first.
above : (p k n x y : ℕ) → x < p → p ≡ 2 ^ k → (x + p * y) / 2 ^ (k + n) ≡ y / 2 ^ n
above p k n x y h e =
    let quotient : (x + p * y) / p ≡ y = grind arith in
    rw (pow_add k n, sym e, sym (div-div-eq-div-mul (x + p * y) p (2 ^ n)), quotient) refl

above_gap : (k n y : ℕ) → 2 ^ k * y / 2 ^ (k + n) ≡ y / 2 ^ n
above_gap k n y =
    let no_low : 0 + 2 ^ k * y ≡ 2 ^ k * y = omega arith in
    subst (λ z. z / 2 ^ (k + n) ≡ y / 2 ^ n) no_low (above (2 ^ k) k n 0 y (pow_pos k) refl)

pub joined_at :
    (before : Fields) (gap w v : ℕ) (after : Fields)
    → AllFit (before ++ (gap, w, v) ∷ after)
    → joined (before ++ (gap, w, v) ∷ after) / 2 ^ (span before + gap) % 2 ^ w ≡ v
unfolding joined AllFit span
joined_at [] gap w v after (now, later) =
    let place : 0 + gap ≡ gap = omega arith in
    let q : 2 ^ gap * (v + 2 ^ w * joined after) / 2 ^ gap ≡ v + 2 ^ w * joined after =
      cancel (2 ^ gap) _ (pow_pos gap) in
    rw (place, q) (field_value (2 ^ w) v (joined after) now)
joined_at ((g, u, x) ∷ before) gap w v after (now, later) =
    let place : g + u + span before + gap ≡ g + (u + (span before + gap)) = omega arith in
    rw
      (
        place,
        above_gap g (u + (span before + gap)) (x + 2 ^ u * joined (before ++ (gap, w, v) ∷ after)),
      )
      (rw (above (2 ^ u) u (span before + gap) x _ now refl) (joined_at before gap w v after later))

-- The value of a field, read from its place in the word.
pub or_fields_at :
    (acc start : ℕ) (before : Fields) (gap w v : ℕ) (after : Fields)
    → acc < 2 ^ start
    → AllFit (before ++ (gap, w, v) ∷ after)
    → or_fields acc start (before ++ (gap, w, v) ∷ after)
        / 2 ^ (start + (span before + gap))
        % 2 ^ w
      ≡ v
or_fields_at acc start before gap w v after small fit =
    rw
      (
        or_fields_lem acc start (before ++ (gap, w, v) ∷ after) small fit,
        above (2 ^ start) start (span before + gap) acc (joined (before ++ (gap, w, v) ∷ after))
            small refl,
      )
      (joined_at before gap w v after fit)

pub or_fields_nth :
    (acc start : ℕ) (l : Fields) (n k gap w v : ℕ)
    → acc < 2 ^ start
    → AllFit l
    → l ≡ take n l ++ (gap, w, v) ∷ drop (suc n) l
    → start + (span (take n l) + gap) ≡ k
    → or_fields acc start l / 2 ^ k % 2 ^ w ≡ v
or_fields_nth acc start l n k gap w v small fit whole place =
    subst (λ (f : Fields). or_fields acc start f / 2 ^ k % 2 ^ w ≡ v) (sym whole)
      (subst
        (λ j. or_fields acc start (take n l ++ (gap, w, v) ∷ drop (suc n) l) / 2 ^ j % 2 ^ w ≡ v)
        place
        (or_fields_at acc start (take n l) gap w v (drop (suc n) l) small (subst AllFit whole fit)))

pub or_fields-acc :
    (acc start : ℕ) (l : Fields)
    → acc < 2 ^ start
    → AllFit l
    → or_fields acc start l % 2 ^ start ≡ acc
or_fields-acc acc start l small fit =
    rw (or_fields_lem acc start l small fit) (field_value (2 ^ start) acc (joined l) small)

pub flag_lem : (k m : ℕ) (b : Bool) → m ≡ 2 ^ k → (if b then m else 0) ≡ bit b * 2 ^ k
flag_lem k m true h = omega (arith, h)
flag_lem k m false h = omega arith

pub flag_not_lem : (k m : ℕ) (b : Bool) → m ≡ 2 ^ k → (if b then 0 else m) ≡ bit (not b) * 2 ^ k
flag_not_lem k m true h = omega arith
flag_not_lem k m false h = omega (arith, h)

pub bit-bound : (b : Bool) → bit b < 2
bit-bound true = omega arith
bit-bound false = omega arith
