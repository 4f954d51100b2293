-- ===== src/Base/Bits.antt =====
-- Single bits of a word, and what `&`, `|` and `!` do to them.
use Prim.Native.Nat.{
  ℕ, zero, suc, ◌+◌, ◌-◌, ◌*◌, ◌/◌, ◌%◌, ◌^◌, ◌≤◌, ◌<◌, min, max, bit_and, bit_or, digits,
  bit_and-bitwise, bit_or-bitwise,
}
use mathlib.Core.Path.{◌≡◌, refl, ap, ◌∙◌}
use native.Mathlib.Nat.{pow-suc}
use native.Mathlib.Omega.{arith}
use fullerene.Base.Tests.{◌==◌, if◌then◌else◌}

-- Bit `k` of a word, 0 or 1.
abbrev pub bit : ℕ → ℕ → ℕ
bit w zero = w % 2
bit w (suc k) = bit (w / 2) k

-- The native operations recur on a count of digits; the count does not matter once it is enough.
digits_enough :
    (z : ℕ → ℕ) (f : ℕ → ℕ → ℕ) (n m a b : ℕ) → a ≤ n → a ≤ m → digits z f n a b ≡ digits z f m a b
digits_enough z f zero zero a b p q = refl
digits_enough z f zero (suc m) zero b p q = refl
digits_enough z f (suc n) zero zero b p q = refl
digits_enough z f (suc n) (suc m) zero b p q = refl
digits_enough z f zero m (suc a) b p q = absurd (omega arith)
digits_enough z f (suc n) zero (suc a) b p q = absurd (omega arith)
digits_enough z f (suc n) (suc m) (suc a) b p q =
    rw (digits_enough z f n m (suc a / 2) (b / 2) (omega arith) (omega arith))

pub bit_and_halves : (a b : ℕ) → bit_and a b ≡ bit_and (a / 2) (b / 2) * 2 + min (a % 2) (b % 2)
bit_and_halves zero b = omega (arith, bit_and-bitwise 0 b, bit_and-bitwise 0 (b / 2))
bit_and_halves (suc a) b = omega (
  arith,
  bit_and-bitwise (suc a) b,
  bit_and-bitwise (suc a / 2) (b / 2),
  digits_enough (λ _. 0) min a (suc a / 2) (suc a / 2) (b / 2) (omega arith) (omega arith),
)

pub bit_or_halves : (a b : ℕ) → bit_or a b ≡ bit_or (a / 2) (b / 2) * 2 + max (a % 2) (b % 2)
bit_or_halves zero b = omega (arith, bit_or-bitwise 0 b, bit_or-bitwise 0 (b / 2))
bit_or_halves (suc a) b = omega (
  arith,
  bit_or-bitwise (suc a) b,
  bit_or-bitwise (suc a / 2) (b / 2),
  digits_enough (λ y. y) max a (suc a / 2) (suc a / 2) (b / 2) (omega arith) (omega arith),
)

pub bit_le : (w k : ℕ) → bit w k ≤ 1
bit_le w zero = omega arith
bit_le w (suc k) = bit_le (w / 2) k

pub bit-bit_and : (a b k : ℕ) → bit (bit_and a b) k ≡ min (bit a k) (bit b k)
bit-bit_and a b zero = omega (arith, bit_and_halves a b)
bit-bit_and a b (suc k) = rw (half (bit_and_halves a b)) (bit-bit_and (a / 2) (b / 2) k)
  where
    half :
        bit_and a b ≡ bit_and (a / 2) (b / 2) * 2 + min (a % 2) (b % 2)
        → bit_and a b / 2 ≡ bit_and (a / 2) (b / 2)
    half e = omega arith

pub bit-bit_or : (a b k : ℕ) → bit (bit_or a b) k ≡ max (bit a k) (bit b k)
bit-bit_or a b zero = omega (arith, bit_or_halves a b)
bit-bit_or a b (suc k) = rw (half (bit_or_halves a b)) (bit-bit_or (a / 2) (b / 2) k)
  where
    half :
        bit_or a b ≡ bit_or (a / 2) (b / 2) * 2 + max (a % 2) (b % 2)
        → bit_or a b / 2 ≡ bit_or (a / 2) (b / 2)
    half e = omega arith

pub bit-zero : (k : ℕ) → bit 0 k ≡ 0
bit-zero zero = refl
bit-zero (suc k) = bit-zero k

-- `1 << b` has exactly the bit `b`.
pub bit-pow : (b k : ℕ) → bit (2 ^ b) k ≡ (if b == k then 1 else 0)
bit-pow zero zero = refl
bit-pow zero (suc k) = ground (arith, bit-zero k)
bit-pow (suc b) zero = grind (arith, pow-suc 2 b)
bit-pow (suc b) (suc k) = rw (half (pow-suc 2 b)) (bit-pow b k ∙ ground arith)
  where
    half : 2 ^ suc b ≡ 2 ^ b * 2 → 2 ^ suc b / 2 ≡ 2 ^ b
    half e = omega arith

bit_and-zero : (n v : ℕ) → v ≤ n → bit_and v 0 ≡ 0
bit_and-zero n zero h = refl
bit_and-zero zero (suc v) h = absurd (omega arith)
bit_and-zero (suc n) (suc v) h =
    omega (arith, bit_and_halves (suc v) 0, bit_and-zero n (suc v / 2) (omega arith))

pub bit_or-zero : (n v : ℕ) → v ≤ n → bit_or v 0 ≡ v
bit_or-zero n zero h = refl
bit_or-zero zero (suc v) h = absurd (omega arith)
bit_or-zero (suc n) (suc v) h =
    omega (arith, bit_or_halves (suc v) 0, bit_or-zero n (suc v / 2) (omega arith))

-- `!m` on `n` bits turns each bit round.
pub bit-complement : (n m k : ℕ) → m < 2 ^ n → k < n → bit (2 ^ n - 1 - m) k ≡ 1 - bit m k
bit-complement zero m k h q = absurd (omega arith)
bit-complement (suc n) m zero h q = omega (arith, pow-suc 2 n)
bit-complement (suc n) m (suc k) h q =
    rw (half (pow-suc 2 n)) (bit-complement n (m / 2) k (small (pow-suc 2 n)) (omega arith))
  where
    half : 2 ^ suc n ≡ 2 ^ n * 2 → (2 ^ suc n - 1 - m) / 2 ≡ 2 ^ n - 1 - m / 2
    half e = omega arith

    small : 2 ^ suc n ≡ 2 ^ n * 2 → m / 2 < 2 ^ n
    small e = omega arith

-- `w & (1 << b)` is the bit `b` in its place.
pub bit_and-pow : (w b : ℕ) → bit_and w (2 ^ b) ≡ bit w b * 2 ^ b
bit_and-pow w zero = omega (arith, bit_and_halves w 1, bit_and-zero (w / 2) (w / 2) (omega arith))
bit_and-pow w (suc b) = omega (
  arith,
  bit_and_halves w (2 ^ suc b),
  pow-suc 2 b,
  ap (λ (t : ℕ). bit_and (w / 2) t) (half (pow-suc 2 b)),
  bit_and-pow (w / 2) b,
  ap (λ (t : ℕ). bit (w / 2) b * t) (pow-suc 2 b),
)
  where
    half : 2 ^ suc b ≡ 2 ^ b * 2 → 2 ^ suc b / 2 ≡ 2 ^ b
    half e = omega arith

pub pow_pos : (n : ℕ) → 0 < 2 ^ n
pow_pos zero = omega arith
pow_pos (suc n) = omega (arith, pow-suc 2 n, pow_pos n)

pub pow_lt : (b n : ℕ) → b < n → 2 ^ b < 2 ^ n
pow_lt b zero h = absurd (omega arith)
pow_lt zero (suc n) h = omega (arith, pow-suc 2 n, pow_pos n)
pow_lt (suc b) (suc n) h = omega (arith, pow-suc 2 n, pow-suc 2 b, pow_lt b n (omega arith))

mul-pow-suc : (q k : ℕ) → q * 2 ^ suc k ≡ q * 2 ^ k * 2
mul-pow-suc q k = omega (arith, ap (λ (t : ℕ). q * t) (pow-suc 2 k))

-- `&` works on the digits above and below position `k` apart.
bit_and_split :
    (k q r c m : ℕ)
    → r < 2 ^ k
    → m < 2 ^ k
    → bit_and (q * 2 ^ k + r) (c * 2 ^ k + m) ≡ bit_and q c * 2 ^ k + bit_and r m
bit_and_split zero q r c m h p =
    let e : r ≡ 0 = omega arith in
    let d : m ≡ 0 = omega arith in
    let left : q * 2 ^ 0 + 0 ≡ q = omega arith in
    let right : c * 2 ^ 0 + 0 ≡ c = omega arith in
    rw (e, d) (rw (left, right) (omega (arith, bit_and-zero 0 0 (omega arith))))
bit_and_split (suc k) q r c m h p = ground (
  arith,
  bit_and_halves (q * 2 ^ suc k + r) (c * 2 ^ suc k + m),
  bit_and_halves r m,
  mul-pow-suc q k,
  mul-pow-suc c k,
  mul-pow-suc (bit_and q c) k,
  pow-suc 2 k,
  bit_and_split k q (r / 2) c (m / 2) (omega (arith, pow-suc 2 k)) (omega (arith, pow-suc 2 k)),
)

-- A mask of ones that covers the word leaves it.
pub bit_and_ones : (k w : ℕ) → w < 2 ^ k → bit_and w (2 ^ k - 1) ≡ w
bit_and_ones zero w h = let e : w ≡ 0 = omega arith in rw e (bit_and-zero 0 0 (omega arith))
bit_and_ones (suc k) w h = ground (
  arith,
  bit_and_halves w (2 ^ suc k - 1),
  pow-suc 2 k,
  pow_pos k,
  ap (bit_and (w / 2)) (half (pow-suc 2 k) (pow_pos k)),
  bit_and_ones k (w / 2) (omega (arith, pow-suc 2 k)),
)
  where
    half : 2 ^ suc k ≡ 2 ^ k * 2 → 0 < 2 ^ k → (2 ^ suc k - 1) / 2 ≡ 2 ^ k - 1
    half e p = omega arith

-- `w & (PAGE_SIZE - 1)` is the offset in the page.
pub bit_and_offset : (w : ℕ) → bit_and w 4095 ≡ w % 4096
bit_and_offset w =
    ap (λ (v : ℕ). bit_and v 4095) (omega arith)
    ∙ bit_and_split 12 (w / 4096) (w % 4096) 0 4095 (omega arith) (omega arith)
    ∙ omega (
      arith,
      bit_and-zero (w / 4096) (w / 4096) (omega arith),
      bit_and_ones 12 (w % 4096) (omega arith),
    )

-- `w & !(PAGE_SIZE - 1)` is the page's address.
pub bit_and_page : (w : ℕ) → w < 2 ^ 64 → bit_and w (2 ^ 64 - 1 - 4095) ≡ w - w % 4096
bit_and_page w h =
    ap (λ (v : ℕ). bit_and v (2 ^ 64 - 1 - 4095)) (omega arith)
    ∙ bit_and_split 12 (w / 4096) (w % 4096) (2 ^ 52 - 1) 0 (omega arith) (omega arith)
    ∙ omega (
      arith,
      bit_and-zero (w % 4096) (w % 4096) (omega arith),
      bit_and_ones 52 (w / 4096) (omega arith),
    )

-- `w & 3` is the two lowest bits.
pub bit_and_three : (w : ℕ) → bit_and w 3 ≡ w % 4
bit_and_three w =
    ap (λ (v : ℕ). bit_and v 3) (omega arith)
    ∙ bit_and_split 2 (w / 4) (w % 4) 0 3 (omega arith) (omega arith)
    ∙ omega
        (arith, bit_and-zero (w / 4) (w / 4) (omega arith), bit_and_ones 2 (w % 4) (omega arith))

-- `w & !7`, on 32 bits.
pub bit_and_above_seven : (w : ℕ) → w < 2 ^ 32 → bit_and w (2 ^ 32 - 1 - 7) ≡ w - w % 8
bit_and_above_seven w h =
    ap (λ (v : ℕ). bit_and v (2 ^ 32 - 1 - 7)) (omega arith)
    ∙ bit_and_split 3 (w / 8) (w % 8) (2 ^ 29 - 1) 0 (omega arith) (omega arith)
    ∙ omega
        (arith, bit_and-zero (w % 8) (w % 8) (omega arith), bit_and_ones 29 (w / 8) (omega arith))
