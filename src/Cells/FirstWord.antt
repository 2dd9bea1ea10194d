-- ===== src/Cells/FirstWord.antt =====
-- The words of Source/NSCell.m as fields, and what the masks of initWithCoder: read from them.
use Prim.Native.Nat.{bit_and}
use libs_gui.Base.{
  ℕ, suc, ◌+◌, ◌*◌, ◌/◌, ◌%◌, ◌^◌, ◌<◌, ◌≡◌, refl, sym, subst, Bool, true, false, not, ◌||◌, [],
  ◌∷◌, ◌++◌, take, drop, arith,
}
use libs_gui.Flags.Layout.{pow_pos}
use libs_gui.Cells.Cell.{Cell, type_of, wraps}
use libs_gui.Cells.Coding.{acts_on, is_on, has, first_word}
use libs_gui.Cells.Bits.{bit_and-above, bit_and-one, bit_and-three}
use libs_gui.Cells.Fields.{
  bit, Fields, span, AllFit, or_fields, or_fields_nth, or_fields-acc, flag_lem, flag_not_lem,
  bit-bound,
}

-- The numbers are within the bit-fields of the structure in Headers/AppKit/NSCell.h.
pub record IsInRange (c : Cell) : Type 0 where
  pub focus_range : c.focus_ring_type < 4
  pub type_range : c.type < 4
  pub tint_range : c.control_tint < 8
  pub mode_range : c.line_break_mode < 8
  pub size_range : c.control_size < 4
  pub align_range : c.text_align < 8

unfoldable pub first_fields : Cell → Fields
first_fields c =
    (0, 1, bit c.shows_first_responder)
    ∷ (2, 1, bit (not (acts_on 4 c)))
    ∷ (0, 1, bit (wraps c))
    ∷ (1, 1, bit (acts_on 64 c))
    ∷ (9, 1, bit (acts_on 2 c))
    ∷ (0, 1, bit (acts_on 65536 c))
    ∷ (0, 1, bit c.is_scrollable)
    ∷ (0, 1, bit (c.is_selectable || c.is_editable))
    ∷ (0, 1, bit c.is_bezeled)
    ∷ (0, 1, bit c.is_bordered)
    ∷ (2, 2, type_of c)
    ∷ (0, 1, bit c.is_editable)
    ∷ (0, 1, bit c.is_disabled)
    ∷ (0, 1, bit c.is_highlighted)
    ∷ (0, 1, bit (is_on c.state))
    ∷ []

pub first_word_lem : (c : Cell) → first_word c ≡ or_fields c.focus_ring_type 2 (first_fields c)
unfolding first_word or_fields first_fields
first_word_lem c =
    rw
      (
        flag_lem 2 0x4 c.shows_first_responder refl,
        flag_not_lem 5 0x20 (acts_on 4 c) refl,
        flag_lem 6 0x40 (wraps c) refl,
        flag_lem 8 0x100 (acts_on 64 c) refl,
        flag_lem 18 0x40000 (acts_on 2 c) refl,
        flag_lem 19 0x80000 (acts_on 65536 c) refl,
        flag_lem 20 0x100000 c.is_scrollable refl,
        flag_lem 21 0x200000 (c.is_selectable || c.is_editable) refl,
        flag_lem 22 0x400000 c.is_bezeled refl,
        flag_lem 23 0x800000 c.is_bordered refl,
        flag_lem 28 0x10000000 c.is_editable refl,
        flag_lem 29 0x20000000 c.is_disabled refl,
        flag_lem 30 0x40000000 c.is_highlighted refl,
        flag_lem 31 0x80000000 (is_on c.state) refl,
      )
      refl

pub type_of-bound : (c : Cell) → c.type < 4 → type_of c < 4
unfolding type_of
type_of-bound c h = ground (arith, h)

pub first_fields-AllFit : (c : Cell) → IsInRange c → AllFit (first_fields c)
unfolding first_fields AllFit
first_fields-AllFit c r =
    let b : (x : Bool) → bit x < 2 = bit-bound in
    (
      b _,
      (
        b _,
        (
          b _,
          (
            b _,
            (
              b _,
              (
                b _,
                (
                  b _,
                  (
                    b _,
                    (b _, (b _, (type_of-bound c r.type_range, (b _, (b _, (b _, (b _, tt))))))),
                  ),
                ),
              ),
            ),
          ),
        ),
      ),
    )

pub masked : (k m w : ℕ) → m ≡ 2 ^ k → bit_and w m ≡ w / 2 ^ k % 2 * 2 ^ k
masked k m w e =
    let one : m ≡ 1 * 2 ^ k = omega (arith, e) in
    rw (one, bit_and-above k w 1, bit_and-one (w / 2 ^ k)) refl

pub has_lem : (k m w : ℕ) (b : Bool) → m ≡ 2 ^ k → w / 2 ^ k % 2 ≡ bit b → has w m ≡ b
has_lem k m w true e h =
    let same : bit_and w m ≡ m = omega (arith, masked k m w e, h, rw h at (masked k m w e)) in
    ground (arith, same)
has_lem k m w false e h =
    let none_set : bit_and w m ≡ 0 = omega (arith, rw h at (masked k m w e)) in
    ground (arith, none_set, pow_pos k)

-- The field with the given number, at its place.
first_at :
    (c : Cell)
    → IsInRange c
    → (n k gap w v : ℕ)
    → first_fields c ≡ take n (first_fields c) ++ (gap, w, v) ∷ drop (suc n) (first_fields c)
    → 2 + (span (take n (first_fields c)) + gap) ≡ k
    → first_word c / 2 ^ k % 2 ^ w ≡ v
first_at c r n k gap w v e place =
    subst (λ x. x / 2 ^ k % 2 ^ w ≡ v) (sym (first_word_lem c))
      (or_fields_nth c.focus_ring_type 2 (first_fields c) n k gap w v r.focus_range
        (first_fields-AllFit c r) e place)

first_has :
    (c : Cell)
    → IsInRange c
    → (n k m gap : ℕ) (b : Bool)
    → first_fields c ≡ take n (first_fields c) ++ (gap, 1, bit b) ∷ drop (suc n) (first_fields c)
    → 2 + (span (take n (first_fields c)) + gap) ≡ k
    → m ≡ 2 ^ k
    → has (first_word c) m ≡ b
first_has c r n k m gap b e place power =
    has_lem k m (first_word c) b power (first_at c r n k gap 1 (bit b) e place)

first_focus : (c : Cell) → IsInRange c → first_word c % 4 ≡ c.focus_ring_type
first_focus c r =
    subst (λ x. x % 4 ≡ c.focus_ring_type) (sym (first_word_lem c))
      (or_fields-acc c.focus_ring_type 2 (first_fields c) r.focus_range (first_fields-AllFit c r))

-- What the masks read from the first word.
pub record FirstRead (c : Cell) : Type 0 where
  pub focus : bit_and (first_word c) 0x3 % 4 ≡ c.focus_ring_type
  pub cell_type : bit_and (first_word c) 0xc000000 / 2 ^ 26 % 4 ≡ type_of c
  pub shows : has (first_word c) 0x4 ≡ c.shows_first_responder
  pub no_up : has (first_word c) 0x20 ≡ not (acts_on 4 c)
  pub wrapping : has (first_word c) 0x40 ≡ wraps c
  pub dragged : has (first_word c) 0x100 ≡ acts_on 64 c
  pub down : has (first_word c) 0x40000 ≡ acts_on 2 c
  pub continuous : has (first_word c) 0x80000 ≡ acts_on 65536 c
  pub scrollable : has (first_word c) 0x100000 ≡ c.is_scrollable
  pub selectable : has (first_word c) 0x200000 ≡ (c.is_selectable || c.is_editable)
  pub bezeled : has (first_word c) 0x400000 ≡ c.is_bezeled
  pub bordered : has (first_word c) 0x800000 ≡ c.is_bordered
  pub editable : has (first_word c) 0x10000000 ≡ c.is_editable
  pub disabled : has (first_word c) 0x20000000 ≡ c.is_disabled
  pub highlighted : has (first_word c) 0x40000000 ≡ c.is_highlighted
  pub turned_on : has (first_word c) 0x80000000 ≡ is_on c.state

pub first_read : (c : Cell) → IsInRange c → FirstRead c
unfolding first_fields span
first_read c r = record {
  focus = omega (arith, bit_and-three (first_word c), first_focus c r);
  cell_type = omega (
    arith,
    bit_and-above 26 (first_word c) 3,
    bit_and-three (first_word c / 2 ^ 26),
    first_at c r 10 26 2 2 (type_of c) refl refl,
  );
  shows = first_has c r 0 2 0x4 0 (c.shows_first_responder) refl refl refl;
  no_up = first_has c r 1 5 0x20 2 (not (acts_on 4 c)) refl refl refl;
  wrapping = first_has c r 2 6 0x40 0 (wraps c) refl refl refl;
  dragged = first_has c r 3 8 0x100 1 (acts_on 64 c) refl refl refl;
  down = first_has c r 4 18 0x40000 9 (acts_on 2 c) refl refl refl;
  continuous = first_has c r 5 19 0x80000 0 (acts_on 65536 c) refl refl refl;
  scrollable = first_has c r 6 20 0x100000 0 (c.is_scrollable) refl refl refl;
  selectable = first_has c r 7 21 0x200000 0 (c.is_selectable || c.is_editable) refl refl refl;
  bezeled = first_has c r 8 22 0x400000 0 (c.is_bezeled) refl refl refl;
  bordered = first_has c r 9 23 0x800000 0 (c.is_bordered) refl refl refl;
  editable = first_has c r 11 28 0x10000000 0 (c.is_editable) refl refl refl;
  disabled = first_has c r 12 29 0x20000000 0 (c.is_disabled) refl refl refl;
  highlighted = first_has c r 13 30 0x40000000 0 (c.is_highlighted) refl refl refl;
  turned_on = first_has c r 14 31 0x80000000 0 (is_on c.state) refl refl refl;
}
