-- ===== src/Prelude/Bits.antt =====
-- `&` with the masks of one byte, and `|` of fields that do not overlap, as arithmetic.
use Prim.Native.Nat.{
  ℕ, zero, suc, ◌+◌, ◌*◌, ◌/◌, ◌%◌, ◌^◌, ◌≤◌, ◌<◌, max, bit_and, bit_or, digits, bit_or-bitwise,
}
use mathlib.Core.Path.{◌≡◌, refl, ap}
use mathlib.Core.Bool.{Bool, true, ◌&&◌}
use native.Mathlib.Nat.{pow-suc}
use native.Mathlib.Omega.{arith}
use omnetpp_federate.Prelude.Tests.{◌==◌, ==_iff}

every : ℕ → (ℕ → Bool) → Bool
every zero p = true
every (suc n) p = p n && every n p

every-at : (n : ℕ) (p : ℕ → Bool) (x : ℕ) → every n p ≡ true → x < n → p x ≡ true
unfolding every
every-at zero p x h lt = absurd (omega arith)
every-at (suc n) p x h lt = ground (arith, every-at n p x)

every-low : every 256 (λ b. bit_and b 0x7f == b % 128) ≡ true
unfolding every
every-low = refl

every-top : every 256 (λ b. bit_and b 0x80 == b / 128 * 128) ≡ true
unfolding every
every-top = refl

pub low_seven : (b : ℕ) → b < 256 → bit_and b 0x7f ≡ b % 128
low_seven b h = (==_iff _ (b % 128)).0 (every-at 256 _ b every-low h)

pub top_one : (b : ℕ) → b < 256 → bit_and b 0x80 ≡ b / 128 * 128
top_one b h = (==_iff _ (b / 128 * 128)).0 (every-at 256 _ b every-top h)

abbrev or_rounds : ℕ → ℕ → ℕ → ℕ
or_rounds fuel a b = digits (λ rest. rest) max fuel a b

-- Any fuel from the first number on gives the same.
or_rounds_enough : (f a b : ℕ) → a ≤ f → or_rounds f a b ≡ or_rounds a a b
or_rounds_enough f a b h = more f a a b h (omega arith)
  where
    more : (f g a b : ℕ) → a ≤ f → a ≤ g → or_rounds f a b ≡ or_rounds g a b
    more zero zero a b p q = refl
    more zero (suc g) zero b p q = refl
    more zero (suc g) (suc a) b p q = absurd (omega arith)
    more (suc f) zero zero b p q = refl
    more (suc f) zero (suc a) b p q = absurd (omega arith)
    more (suc f) (suc g) zero b p q = refl
    more (suc f) (suc g) (suc a) b p q =
        omega (arith, more f g (suc a / 2) (b / 2) (omega arith) (omega arith))

zero-bit_or : (b : ℕ) → bit_or 0 b ≡ b
zero-bit_or b = bit_or-bitwise 0 b

bit_or-halves : (a b : ℕ) → bit_or a b ≡ bit_or (a / 2) (b / 2) * 2 + max (a % 2) (b % 2)
bit_or-halves zero b = omega (arith, zero-bit_or b, zero-bit_or (b / 2))
bit_or-halves (suc a) b = omega (
  arith,
  bit_or-bitwise (suc a) b,
  bit_or-bitwise (suc a / 2) (b / 2),
  or_rounds_enough a (suc a / 2) (b / 2) (omega arith),
)

-- A field of k bits below another one.
pub bit_or-add : (k low high : ℕ) → low < 2 ^ k → bit_or low (high * 2 ^ k) ≡ low + high * 2 ^ k
bit_or-add zero zero high h = omega (arith, zero-bit_or (high * 2 ^ 0))
bit_or-add zero (suc low) high h = absurd (omega arith)
bit_or-add (suc k) low high h = ground (
  arith,
  bit_or-halves low (high * 2 ^ suc k),
  ap (λ (t : ℕ). high * t) (pow-suc 2 k),
  pow-suc 2 k,
  bit_or-add k (low / 2) high,
)
