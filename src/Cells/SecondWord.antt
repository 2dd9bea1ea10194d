-- ===== src/Cells/SecondWord.antt =====
-- The second word of Source/NSCell.m as fields, and what the masks of initWithCoder: read from it.
use Prim.Native.Nat.{bit_and, bit_or}
use libs_gui.Base.{
  ℕ, suc, ◌+◌, ◌*◌, ◌/◌, ◌%◌, ◌^◌, ◌<◌, ◌≡◌, refl, sym, subst, Bool, true, false, not, [], ◌∷◌,
  ◌++◌, if◌then◌else◌, ◌==◌, ltb, take, drop, arith, all_below, all_below-use,
}
use libs_gui.Cells.Cell.{Cell}
use libs_gui.Cells.Coding.{has, second_word}
use libs_gui.Cells.Bits.{bit_and-above, bit_and-seven}
use libs_gui.Cells.Fields.{
  bit, Fields, span, AllFit, or_fields, or_fields_nth, or_fields-acc, flag_lem, bit-bound,
}
use libs_gui.Cells.FirstWord.{IsInRange, has_lem, masked}

-- The tint, with the flag for the mode of a single line in its second bit.
unfoldable pub shared_tint : Cell → ℕ
shared_tint c = bit_or c.control_tint (if c.uses_single_line_mode then 2 else 0)

low_word : Bool → Bool → ℕ → ℕ → ℕ
low_word single no_undo t m =
    bit_or
      (bit_or (bit_or (if single then 0x40 else 0) (if no_undo then 0x1000 else 0)) (t * 2 ^ 5))
      (m * 2 ^ 9)

low_sum : Bool → Bool → ℕ → ℕ → ℕ
low_sum single no_undo t m = bit_or t (if single then 2 else 0) * 32 + m * 512 + bit no_undo * 4096

low_test : Bool → Bool → ℕ → ℕ → Bool
low_test single no_undo t m = low_word single no_undo t m == low_sum single no_undo t m

low_table :
    (single no_undo : Bool) → all_below 8 (λ t. all_below 8 (low_test single no_undo t)) ≡ true
unfolding all_below low_test low_word low_sum
low_table true true = refl
low_table true false = refl
low_table false true = refl
low_table false false = refl

low_word_lem :
    (single no_undo : Bool) (t m : ℕ)
    → t < 8
    → m < 8
    → low_word single no_undo t m ≡ low_sum single no_undo t m
unfolding low_test
low_word_lem single no_undo t m ht hm =
    let row =
      all_below-use 8 (λ t. all_below 8 (low_test single no_undo t)) t (low_table single no_undo)
        ht in
    let found = all_below-use 8 (low_test single no_undo t) m row hm in ground (arith, found)

tint_table : (single : Bool) → all_below 8 (λ t. ltb (bit_or t (if single then 2 else 0)) 8) ≡ true
unfolding all_below
tint_table true = refl
tint_table false = refl

shared_tint-bound : (c : Cell) → IsInRange c → shared_tint c < 8
unfolding shared_tint
shared_tint-bound c r =
    let found =
      all_below-use 8 (λ t. ltb (bit_or t (if c.uses_single_line_mode then 2 else 0)) 8)
        c.control_tint (tint_table c.uses_single_line_mode) r.tint_range in
    ground (arith, found)

low_of : Cell → ℕ
low_of c = shared_tint c * 32 + c.line_break_mode * 512 + bit (not c.allows_undo) * 4096

second_fields : Cell → Fields
second_fields c =
    (4, 2, c.control_size)
    ∷ (3, 1, bit c.sends_action_on_end_editing)
    ∷ (1, 1, bit c.allows_mixed_state)
    ∷ (0, 1, bit c.refuses_first_responder)
    ∷ (0, 3, c.text_align)
    ∷ (0, 1, bit c.imports_graphics)
    ∷ (0, 1, bit c.is_rich_text)
    ∷ []

second_word_lem :
    (c : Cell) → IsInRange c → second_word c ≡ or_fields (low_of c) 13 (second_fields c)
unfolding second_word or_fields second_fields low_word low_sum low_of shared_tint
second_word_lem c r =
    rw
      (
        low_word_lem c.uses_single_line_mode (not c.allows_undo) c.control_tint c.line_break_mode
            r.tint_range r.mode_range,
        flag_lem 22 0x400000 c.sends_action_on_end_editing refl,
        flag_lem 24 0x1000000 c.allows_mixed_state refl,
        flag_lem 25 0x2000000 c.refuses_first_responder refl,
        flag_lem 29 0x20000000 c.imports_graphics refl,
        flag_lem 30 0x40000000 c.is_rich_text refl,
      )
      refl

second_fields-AllFit : (c : Cell) → IsInRange c → AllFit (second_fields c)
unfolding second_fields AllFit
second_fields-AllFit c r =
    let b : (x : Bool) → bit x < 2 = bit-bound in
    (r.size_range, (b _, (b _, (b _, (r.align_range, (b _, (b _, tt)))))))

low_of-bound : (c : Cell) → IsInRange c → low_of c < 8192
unfolding low_of
low_of-bound c r = omega (arith, shared_tint-bound c r, r.mode_range, bit-bound (not c.allows_undo))

second_low : (c : Cell) → IsInRange c → second_word c % 8192 ≡ low_of c
second_low c r =
    subst (λ x. x % 8192 ≡ low_of c) (sym (second_word_lem c r))
      (or_fields-acc (low_of c) 13 (second_fields c) (low_of-bound c r) (second_fields-AllFit c r))

second_at :
    (c : Cell)
    → IsInRange c
    → (n k gap w v : ℕ)
    → second_fields c ≡ take n (second_fields c) ++ (gap, w, v) ∷ drop (suc n) (second_fields c)
    → 13 + (span (take n (second_fields c)) + gap) ≡ k
    → second_word c / 2 ^ k % 2 ^ w ≡ v
second_at c r n k gap w v e place =
    subst (λ x. x / 2 ^ k % 2 ^ w ≡ v) (sym (second_word_lem c r))
      (or_fields_nth (low_of c) 13 (second_fields c) n k gap w v (low_of-bound c r)
        (second_fields-AllFit c r) e place)

second_has :
    (c : Cell)
    → IsInRange c
    → (n k m gap : ℕ) (b : Bool)
    → second_fields c ≡ take n (second_fields c) ++ (gap, 1, bit b) ∷ drop (suc n) (second_fields c)
    → 13 + (span (take n (second_fields c)) + gap) ≡ k
    → m ≡ 2 ^ k
    → has (second_word c) m ≡ b
second_has c r n k m gap b e place power =
    has_lem k m (second_word c) b power (second_at c r n k gap 1 (bit b) e place)

-- What the masks read from the second word.
pub record SecondRead (c : Cell) : Type 0 where
  pub single_line : bit_and (second_word c) 0x40 ≡ shared_tint c / 2 % 2 * 64
  pub tint : bit_and (second_word c) 0xe0 / 2 ^ 5 % 8 ≡ shared_tint c
  pub mode : bit_and (second_word c) 0xe00 / 2 ^ 9 % 8 ≡ c.line_break_mode
  pub size : bit_and (second_word c) 0xe0000 / 2 ^ 17 % 4 ≡ c.control_size
  pub align : bit_and (second_word c) 0x1c000000 / 2 ^ 26 % 8 ≡ c.text_align
  pub sends_action : has (second_word c) 0x400000 ≡ c.sends_action_on_end_editing
  pub mixed_state : has (second_word c) 0x1000000 ≡ c.allows_mixed_state
  pub refuses : has (second_word c) 0x2000000 ≡ c.refuses_first_responder
  pub imports : has (second_word c) 0x20000000 ≡ c.imports_graphics
  pub rich_text : has (second_word c) 0x40000000 ≡ c.is_rich_text

pub second_read : (c : Cell) → IsInRange c → SecondRead c
unfolding second_fields span low_of
second_read c r =
    let low = second_low c r in
    let small = shared_tint-bound c r in
    let flag = bit-bound (not c.allows_undo) in
    record {
      single_line =
          omega (arith, masked 6 0x40 (second_word c) refl, low, small, flag, r.mode_range);
      tint = omega (
        arith,
        bit_and-above 5 (second_word c) 7,
        bit_and-seven (second_word c / 2 ^ 5),
        low,
        small,
        flag,
        r.mode_range,
      );
      mode = omega (
        arith,
        bit_and-above 9 (second_word c) 7,
        bit_and-seven (second_word c / 2 ^ 9),
        low,
        small,
        flag,
        r.mode_range,
      );
      size = omega (
        arith,
        bit_and-above 17 (second_word c) 7,
        bit_and-seven (second_word c / 2 ^ 17),
        second_at c r 0 17 4 2 c.control_size refl refl,
      );
      align = omega (
        arith,
        bit_and-above 26 (second_word c) 7,
        bit_and-seven (second_word c / 2 ^ 26),
        second_at c r 4 26 0 3 c.text_align refl refl,
      );
      sends_action = second_has c r 1 22 0x400000 3 c.sends_action_on_end_editing refl refl refl;
      mixed_state = second_has c r 2 24 0x1000000 1 c.allows_mixed_state refl refl refl;
      refuses = second_has c r 3 25 0x2000000 0 c.refuses_first_responder refl refl refl;
      imports = second_has c r 5 29 0x20000000 0 c.imports_graphics refl refl refl;
      rich_text = second_has c r 6 30 0x40000000 0 c.is_rich_text refl refl refl;
    }
