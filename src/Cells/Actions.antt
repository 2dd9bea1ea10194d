-- ===== src/Cells/Actions.antt =====
-- Source/NSCell.m: the four actions of the mask that the first word keeps.
use Prim.Native.Nat.{bit_and}
use libs_gui.Base.{ℕ, ◌+◌, ◌*◌, ◌/◌, ◌%◌, ◌^◌, min, ◌≡◌, refl, Bool, true, false, arith}
use libs_gui.Flags.Layout.{pow_pos}
use libs_gui.Cells.Cell.{Cell}
use libs_gui.Cells.Bits.{bit_and-above, bit_and-one, bit_and_step}
use libs_gui.Cells.Coding.{acts_on, actions}
use libs_gui.Cells.Fields.{bit}
use libs_gui.Cells.FirstWord.{masked}

-- The masks of the left button up and down, of its dragging, and of periodic events.
abbrev pub kept_actions : ℕ
kept_actions = 65606

actions_sum :
    (up dragged down periodic : Bool)
    → actions up dragged down periodic
      ≡ bit up * 4 + bit dragged * 64 + bit down * 2 + bit periodic * 65536
unfolding actions
actions_sum true true true true = refl
actions_sum true true true false = refl
actions_sum true true false true = refl
actions_sum true true false false = refl
actions_sum true false true true = refl
actions_sum true false true false = refl
actions_sum true false false true = refl
actions_sum true false false false = refl
actions_sum false true true true = refl
actions_sum false true true false = refl
actions_sum false true false true = refl
actions_sum false true false false = refl
actions_sum false false true true = refl
actions_sum false false true false = refl
actions_sum false false false true = refl
actions_sum false false false false = refl

bit_and-kept_actions :
    (w : ℕ)
    → bit_and w kept_actions
      ≡ w / 4 % 2 * 4 + w / 64 % 2 * 64 + w / 2 % 2 * 2 + w / 65536 % 2 * 65536
bit_and-kept_actions w =
    let q = w / 2 / 2 / 2 / 8 in
    let low : bit_and w 65606 ≡ bit_and (w / 2) 32803 * 2 = bit_and-above 1 w 32803 in
    let second : bit_and (w / 2) 32803 ≡ bit_and (w / 2 / 2) 16401 * 2 + min (w / 2 % 2) 1 =
      bit_and_step (w / 2) 32803 in
    let third : bit_and (w / 2 / 2) 16401
        ≡ bit_and (w / 2 / 2 / 2) 8200 * 2 + min (w / 2 / 2 % 2) 1 =
      bit_and_step (w / 2 / 2) 16401 in
    let gap : bit_and (w / 2 / 2 / 2) 8200 ≡ bit_and q 1025 * 8 =
      bit_and-above 3 (w / 2 / 2 / 2) 1025 in
    let seventh : bit_and q 1025 ≡ bit_and (q / 2) 512 * 2 + min (q % 2) 1 = bit_and_step q 1025 in
    let high : bit_and (q / 2) 512 ≡ bit_and (q / 2 / 512) 1 * 512 = bit_and-above 9 (q / 2) 1 in
    omega (arith, low, second, third, gap, seventh, high, bit_and-one (q / 2 / 512))

-- Whether the mask of a cell has one action.
bit-acts_on : (k m : ℕ) (c : Cell) → m ≡ 2 ^ k → bit (acts_on m c) ≡ c.action_mask / 2 ^ k % 2
bit-acts_on k m c e = rw (masked k m c.action_mask e) (ground (arith, pow_pos k))

-- The flags for the four actions lead to the mask of the cell, without all other actions.
pub actions_lem :
    (c : Cell)
    → actions (acts_on 4 c) (acts_on 64 c) (acts_on 2 c) (acts_on 65536 c)
      ≡ bit_and c.action_mask kept_actions
actions_lem c =
    rw
      (
        actions_sum (acts_on 4 c) (acts_on 64 c) (acts_on 2 c) (acts_on 65536 c),
        bit-acts_on 2 4 c refl,
        bit-acts_on 6 64 c refl,
        bit-acts_on 1 2 c refl,
        bit-acts_on 16 65536 c refl,
        bit_and-kept_actions c.action_mask,
      )
      refl
