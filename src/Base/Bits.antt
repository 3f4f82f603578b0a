-- ===== src/Base/Bits.antt =====
-- Facts on the bit operations over one byte, each checked by evaluating a table.
use Prim.Native.Nat.{ℕ, zero, suc, ◌+◌, ◌*◌, ◌/◌, ◌%◌, ◌<◌, bit_and, bit_or, bit_xor}
use mathlib.Core.Path.{◌≡◌, refl, subst, sym}
use mathlib.Core.Bool.{Bool, true, ◌&&◌}
use mathlib.Core.Logic.{inl, inr}
use native.Mathlib.Omega.{arith}
use mqtt_s_gateway.Base.Tests.{◌==◌, eqb→eq, Bool-cases}

-- Two functions on numbers have the same values below n.
unfoldable pub agree_below : ℕ → (ℕ → ℕ) → (ℕ → ℕ) → Bool
agree_below zero f g = true
agree_below (suc n) f g = (f n == g n) && agree_below n f g

last_agrees :
    (n : ℕ) (f g : ℕ → ℕ)
    → agree_below (suc n) f g ≡ true
    → (f n ≡ g n) × (agree_below n f g ≡ true)
unfolding agree_below
last_agrees n f g h = (eqb→eq (f n) (g n) (ground arith), ground arith)

-- What a table of n entries shows holds below n.
pub table : (n : ℕ) (f g : ℕ → ℕ) → agree_below n f g ≡ true → (x : ℕ) → x < n → f x ≡ g x
table zero f g h x lt = absurd (omega arith)
table (suc n) f g h x lt =
    let (here, before) = last_agrees n f g h in
    elim (Bool-cases (x == n)) [
      | inl same ↦ subst (λ y. f y ≡ g y) (sym (eqb→eq x n same)) here
      | inr other ↦ table n f g before x (ground arith)
    ]

pub low_seven : (b : ℕ) → b < 256 → bit_and b 0x7f ≡ b % 128
unfolding agree_below
low_seven = table 256 _ _ refl

pub top_bit : (b : ℕ) → b < 256 → bit_and b 0x80 ≡ b / 128 * 128
unfolding agree_below
top_bit = table 256 _ _ refl

pub set_top_bit : (b : ℕ) → b < 128 → bit_or b 0x80 ≡ b + 128
unfolding agree_below
set_top_bit = table 128 _ _ refl

pub toggle_twice : (b : ℕ) → b < 256 → bit_xor 0x20 (bit_xor b 0x20) ≡ b
unfolding agree_below
toggle_twice = table 256 _ _ refl
