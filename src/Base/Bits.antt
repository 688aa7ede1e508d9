-- ===== src/Base/Bits.antt =====
-- The bit operations as arithmetic: the lowest digit split off, and what follows for bytes and words.
use Prim.Native.Nat.{ℕ, zero, suc, ◌+◌, ◌-◌, ◌*◌, ◌/◌, ◌%◌, ◌^◌, ◌≤◌, ◌<◌, min, max}
use Prim.Native.Nat.{bit_and, bit_or, bit_xor, digits, bitwise, differ}
use Prim.Native.Nat.{bit_and-bitwise, bit_or-bitwise, bit_xor-bitwise}
use mathlib.Core.Path.{◌≡◌, refl, sym, ap, ◌∙◌}
use mathlib.Core.Bool.{Bool, true, ◌&&◌}
use native.Mathlib.Omega.{arith}
use native.Mathlib.Nat.{pow-suc, le_refl, one-le-pow, div-add-mod, div-div-eq-div-mul}
use gzb.Base.Tests.{◌==◌, ==_iff}

-- Over a small range a law is checked at every value.
unfoldable pub all_below : ℕ → (ℕ → Bool) → Bool
all_below zero test = true
all_below (suc k) test = test k && all_below k test

pub all_below_sound :
    (k : ℕ) (test : ℕ → Bool) (m : ℕ) → all_below k test ≡ true → m < k → test m ≡ true
unfolding all_below
all_below_sound zero test m all below = absurd (omega arith)
all_below_sound (suc k) test m all below = ground (arith, all_below_sound k test m)

pub table_eq :
    (n : ℕ) (f g : ℕ → ℕ) (x : ℕ) → all_below n (λ y. f y == g y) ≡ true → x < n → f x ≡ g x
table_eq n f g x h lt = (==_iff (f x) (g x)).0 (all_below_sound n _ x h lt)

-- More fuel than the number has digits changes nothing.
module _ (pad : ℕ → ℕ) (op : ℕ → ℕ → ℕ) where
  enough_fuel : (j k x y : ℕ) → x ≤ j → x ≤ k → digits pad op j x y ≡ digits pad op k x y
  enough_fuel j k zero y h h' = both_zero j k y
    where
      both_zero : (j k y : ℕ) → digits pad op j 0 y ≡ digits pad op k 0 y
      both_zero zero zero y = refl
      both_zero zero (suc k) y = refl
      both_zero (suc j) zero y = refl
      both_zero (suc j) (suc k) y = refl
  enough_fuel zero k (suc x) y h h' = absurd (omega arith)
  enough_fuel (suc j) zero (suc x) y h h' = absurd (omega arith)
  enough_fuel (suc j) (suc k) (suc x) y h h' =
      rw (enough_fuel j k (suc x / 2) (y / 2) (omega arith) (omega arith))

  lowest_digit :
      (x y : ℕ)
      → bitwise pad op (suc x) y ≡ bitwise pad op (suc x / 2) (y / 2) * 2 + op (suc x % 2) (y % 2)
  lowest_digit x y =
      omega (arith, enough_fuel x (suc x / 2) (suc x / 2) (y / 2) (omega arith) (le_refl _))

pub bit_xor_step : (x y : ℕ) → bit_xor x y ≡ bit_xor (x / 2) (y / 2) * 2 + differ (x % 2) (y % 2)
bit_xor_step zero y = simp bit_xor-bitwise (omega arith)
bit_xor_step (suc x) y = simp bit_xor-bitwise (lowest_digit (λ d. d) differ x y)

pub bit_or_step : (x y : ℕ) → bit_or x y ≡ bit_or (x / 2) (y / 2) * 2 + max (x % 2) (y % 2)
bit_or_step zero y = simp bit_or-bitwise (omega arith)
bit_or_step (suc x) y = simp bit_or-bitwise (lowest_digit (λ d. d) max x y)

pub bit_and_step : (x y : ℕ) → bit_and x y ≡ bit_and (x / 2) (y / 2) * 2 + min (x % 2) (y % 2)
bit_and_step zero y = simp bit_and-bitwise (omega arith)
bit_and_step (suc x) y = simp bit_and-bitwise (lowest_digit (λ d. 0) min x y)

bit_or-zero : (k a : ℕ) → a < 2 ^ k → bit_or a 0 ≡ a
bit_or-zero zero a h = rw (a_zero) refl
  where
    a_zero : a ≡ 0
    a_zero = omega arith
bit_or-zero (suc k) a h =
    omega (arith, bit_or_step a 0, pow-suc 2 k, bit_or-zero k (a / 2) (omega (arith, pow-suc 2 k)))

bit_or_double : (t u r : ℕ) → u ≡ t * 2 → bit_or u r ≡ bit_or t (r / 2) * 2 + r % 2
bit_or_double t u r e =
    let half : u / 2 ≡ t = omega arith in
    let even : u % 2 ≡ 0 = omega arith in bit_or_step u r ∙ rw (half, even) (omega arith)

-- `q << k | r`, where `r` has at most `k` bits.
bit_or_shift : (k q r n : ℕ) → q < 2 ^ n → r < 2 ^ k → bit_or (q * 2 ^ k) r ≡ q * 2 ^ k + r
bit_or_shift zero q r n h h' = zeros r (q * 1) (omega arith) (omega arith)
  where
    zeros : (r t : ℕ) → r ≡ 0 → t ≡ q → bit_or t r ≡ t + r
    zeros r t e f = rw (e, f) (bit_or-zero n q h ∙ omega arith)
bit_or_shift (suc k) q r n h h' =
    let half : q * 2 ^ suc k ≡ q * 2 ^ k * 2 = omega (arith, ap (λ (t : ℕ). q * t) (pow-suc 2 k)) in
    bit_or_double (q * 2 ^ k) (q * 2 ^ suc k) r half
    ∙ rw (bit_or_shift k q (r / 2) n h (omega (arith, pow-suc 2 k))) (omega (arith, half))

pub bit_or_byte : (q r : ℕ) → q < 256 → r < 256 → bit_or (q * 256) r ≡ q * 256 + r
bit_or_byte q r hq hr = bit_or_shift 8 q r 8 hq hr

differ_digits : (x y : ℕ) → x < 2 → y < 2 → (differ x y < 2) × (differ (differ x y) y ≡ x)
differ_digits zero zero h k = (omega arith, refl)
differ_digits zero (suc zero) h k = (omega arith, refl)
differ_digits (suc zero) zero h k = (omega arith, refl)
differ_digits (suc zero) (suc zero) h k = (omega arith, refl)
differ_digits (suc (suc x)) y h k = absurd (omega arith)
differ_digits zero (suc (suc y)) h k = absurd (omega arith)
differ_digits (suc zero) (suc (suc y)) h k = absurd (omega arith)

differ_mods :
    (a b : ℕ) → (differ (a % 2) (b % 2) < 2) × (differ (differ (a % 2) (b % 2)) (b % 2) ≡ a % 2)
differ_mods a b = differ_digits (a % 2) (b % 2) (omega arith) (omega arith)

bit_xor-div : (a b : ℕ) → bit_xor a b / 2 ≡ bit_xor (a / 2) (b / 2)
bit_xor-div a b = omega (arith, bit_xor_step a b, (differ_mods a b).0)

pub bit_xor-mod : (a b : ℕ) → bit_xor a b % 2 ≡ differ (a % 2) (b % 2)
bit_xor-mod a b = omega (arith, bit_xor_step a b, (differ_mods a b).0)

-- The result is no wider than the operands.
pub bit_xor-lt : (k a b : ℕ) → a < 2 ^ k → b < 2 ^ k → bit_xor a b < 2 ^ k
bit_xor-lt zero a b h k' = zeros a b (omega arith) (omega arith)
  where
    zeros : (a b : ℕ) → a ≡ 0 → b ≡ 0 → bit_xor a b < 2 ^ 0
    zeros a b p q = rw (p, q) (omega arith)
bit_xor-lt (suc k) a b h h' = omega (
  arith,
  bit_xor_step a b,
  differ_mods a b,
  pow-suc 2 k,
  bit_xor-lt k (a / 2) (b / 2) (omega (arith, pow-suc 2 k)) (omega (arith, pow-suc 2 k)),
)

-- Flipping the same bits twice changes nothing.
pub bit_xor_cancel : (k a b : ℕ) → a < 2 ^ k → b < 2 ^ k → bit_xor (bit_xor a b) b ≡ a
bit_xor_cancel zero a b h k' = zeros a b (omega arith) (omega arith)
  where
    zeros : (a b : ℕ) → a ≡ 0 → b ≡ 0 → bit_xor (bit_xor a b) b ≡ a
    zeros a b p q = rw (p, q) refl
bit_xor_cancel (suc k) a b h h' =
    let smaller : bit_xor (bit_xor (a / 2) (b / 2)) (b / 2) ≡ a / 2 =
      bit_xor_cancel k (a / 2) (b / 2) (omega (arith, pow-suc 2 k)) (omega (arith, pow-suc 2 k)) in
    bit_xor_step (bit_xor a b) b
    ∙ rw (bit_xor-div a b, bit_xor-mod a b, smaller, (differ_mods a b).1) (omega arith)

pub bit_xor_byte_lt : (a b : ℕ) → a < 256 → b < 256 → bit_xor a b < 256
bit_xor_byte_lt a b h k = bit_xor-lt 8 a b h k

pub bit_xor_byte_cancel : (a b : ℕ) → a < 256 → b < 256 → bit_xor (bit_xor a b) b ≡ a
bit_xor_byte_cancel a b h k = bit_xor_cancel 8 a b h k

bit_and-zero : (k a : ℕ) → a < 2 ^ k → bit_and a 0 ≡ 0
bit_and-zero zero a h = zeros a (omega arith)
  where
    zeros : (a : ℕ) → a ≡ 0 → bit_and a 0 ≡ 0
    zeros a e = rw e refl
bit_and-zero (suc k) a h =
    omega (arith, bit_and_step a 0, bit_and-zero k (a / 2) (omega (arith, pow-suc 2 k)))

half_pow : (k a : ℕ) → a / 2 / 2 ^ k ≡ a / 2 ^ suc k
half_pow k a = div-div-eq-div-mul a 2 (2 ^ k) ∙ ap (λ (t : ℕ). a / t) (omega (arith, pow-suc 2 k))

-- A mask of one bit.
pub bit_and_bit : (k n a : ℕ) → a < 2 ^ n → bit_and a (2 ^ k) ≡ a / 2 ^ k % 2 * 2 ^ k
bit_and_bit zero n a h = omega (arith, bit_and_step a 1, bit_and-zero n (a / 2) (omega arith))
bit_and_bit (suc k) n a h =
    let half : 2 ^ suc k / 2 ≡ 2 ^ k = omega (arith, pow-suc 2 k) in
    let even : 2 ^ suc k % 2 ≡ 0 = omega (arith, pow-suc 2 k) in
    bit_and_step a (2 ^ suc k)
    ∙ rw (half, even, bit_and_bit k n (a / 2) (omega arith))
        (rw (half_pow k a) (omega (arith, ap (λ (t : ℕ). a / 2 ^ suc k % 2 * t) (pow-suc 2 k))))

-- A mask of the `k` lowest bits.
pub bit_and_mask : (k n a : ℕ) → a < 2 ^ n → bit_and a (2 ^ k - 1) ≡ a % 2 ^ k
bit_and_mask zero n a h = bit_and-zero n a h ∙ omega arith
bit_and_mask (suc k) n a h =
    let half : (2 ^ suc k - 1) / 2 ≡ 2 ^ k - 1 = omega (arith, pow-suc 2 k, one-le-pow k 2) in
    let odd : (2 ^ suc k - 1) % 2 ≡ 1 = omega (arith, pow-suc 2 k, one-le-pow k 2) in
    bit_and_step a (2 ^ suc k - 1)
    ∙ rw (half, odd, bit_and_mask k n (a / 2) (omega arith))
        (omega (
          arith,
          div-add-mod a (2 ^ suc k),
          div-add-mod (a / 2) (2 ^ k),
          half_pow k a,
          ap (λ (t : ℕ). a / 2 ^ suc k * t) (pow-suc 2 k),
          ap (λ (t : ℕ). 2 ^ k * t) (half_pow k a),
        ))

differ_comm : (x y : ℕ) → differ x y ≡ differ y x
differ_comm zero zero = refl
differ_comm zero (suc y) = refl
differ_comm (suc x) zero = refl
differ_comm (suc x) (suc y) = differ_comm x y

pub bit_xor_comm : (k a b : ℕ) → a < 2 ^ k → b < 2 ^ k → bit_xor a b ≡ bit_xor b a
bit_xor_comm zero a b h h' = zeros a b (omega arith) (omega arith)
  where
    zeros : (a b : ℕ) → a ≡ 0 → b ≡ 0 → bit_xor a b ≡ bit_xor b a
    zeros a b p q = rw (p, q) refl
bit_xor_comm (suc k) a b h h' = omega (
  arith,
  bit_xor_step a b,
  bit_xor_step b a,
  differ_comm (a % 2) (b % 2),
  bit_xor_comm k (a / 2) (b / 2) (omega (arith, pow-suc 2 k)) (omega (arith, pow-suc 2 k)),
)

pub bit_xor_left_injective :
    (k a b c : ℕ) → a < 2 ^ k → b < 2 ^ k → c < 2 ^ k → bit_xor c a ≡ bit_xor c b → a ≡ b
bit_xor_left_injective k a b c ha hb hc e =
    let flipped : bit_xor a c ≡ bit_xor b c =
      bit_xor_comm k a c ha hc ∙ e ∙ bit_xor_comm k c b hc hb in
    sym (bit_xor_cancel k a c ha hc)
    ∙ ap (λ (t : ℕ). bit_xor t c) flipped
    ∙ bit_xor_cancel k b c hb hc
