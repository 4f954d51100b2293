-- ===== src/Packets/Checksum.antt =====
-- The folded sum stands for the sum modulo 65535.
use fullerene.Base.{
  ℕ, zero, suc, ◌+◌, ◌*◌, ◌/◌, ◌%◌, ◌^◌, ◌≤◌, ◌<◌, ◌≡◌, ◌==◌, arith, Bool-cases, inl, inr,
}
use fullerene.Packets.{fold_carry}

-- `r` is `s` with the carries folded.
abbrev pub Folds : ℕ → ℕ → Type 0
Folds s r = (k : ℕ) × (s ≡ r + 65535 * k) × (0 < s → 0 < r)

fold_step : (s r : ℕ) → Folds (s % 65536 + s / 65536) r → Folds s r
fold_step s r (k, e, p) = (k + s / 65536, omega (arith, e), λ h. p (omega arith))

fold_carry-Folds : (fuel s : ℕ) → Folds s (fold_carry fuel s)
unfolding fold_carry
fold_carry-Folds zero s = (0, omega arith, λ h. h)
fold_carry-Folds (suc fuel) s = elim (Bool-cases (s / 65536 == 0)) [
  | inl small ↦ rw small (0, omega arith, λ h. h)
  | inr carry ↦ rw carry (
      fold_step s (fold_carry fuel (s % 65536 + s / 65536))
        (fold_carry-Folds fuel (s % 65536 + s / 65536)))
]

-- Three rounds fold any 32 bits to 16.
pub fold_carry_lem : (s : ℕ) → s < 2 ^ 32 → (fold_carry 3 s ≤ 65535) × Folds s (fold_carry 3 s)
unfolding fold_carry
fold_carry_lem s h = (ground arith, fold_carry-Folds 3 s)
