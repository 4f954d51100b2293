-- ===== src/Frames/Scan.antt =====
-- The search of `allocate` and `allocate_frame`: it finds the lowest available frame but frame 0.
use fullerene.Base.{
  ℕ, zero, suc, ◌+◌, ◌-◌, ◌*◌, ◌/◌, ◌%◌, ◌≤◌, ◌<◌, ◌≡◌, refl, true, false, arith, Option, none,
  some, if◌then◌else◌, leb, ◌==◌, length, get_or, inl, inr, min, dec_lt, Bool-cases, ==_iff, ◌∙◌,
  sym, ℕ_discrete, subst,
}
use mathlib.Core.Path.{subst₂}
use fullerene.Base.Bits.{bit, bit-complement, pow_pos, bit-zero}
use fullerene.Frames.{
  Bitmap, Outcome, found, stop, exhausted, bit_clear, is_frame_available, scan_bits, scan_words,
  u64_max,
}
use fullerene.Frames.Invariant.{IsValid, bit_clear-bit, is_frame_available_outside}

-- No available frame in `lo..hi`, frame 0 aside.
abbrev pub NoneIn : Bitmap → ℕ → ℕ → Type 0
NoneIn a lo hi = (g : ℕ) → lo ≤ g → g < hi → 0 < g → is_frame_available a g ≡ false

-- `f` is the lowest available frame from `lo` on, frame 0 aside.
abbrev pub IsLowest : Bitmap → ℕ → ℕ → Type 0
IsLowest a lo f =
    (lo ≤ f) × (0 < f) × (f < a.total_frames) × (is_frame_available a f ≡ true) × NoneIn a lo f

abbrev Scanned : Bitmap → ℕ → ℕ → Outcome → Type 0
Scanned a lo hi (found f) = IsLowest a lo f
Scanned a lo hi stop = NoneIn a lo a.total_frames
Scanned a lo hi exhausted = NoneIn a lo hi

bit_clear-is_frame_available :
    (a : Bitmap) (i j : ℕ)
    → j < 64
    → i * 64 + j < a.total_frames
    → is_frame_available a (i * 64 + j) ≡ bit_clear a i j
unfolding is_frame_available
bit_clear-is_frame_available a i j h p =
    let q : (i * 64 + j) / 64 ≡ i = omega arith in
    let r : (i * 64 + j) % 64 ≡ j = omega arith in rw (q, r) (ground arith)

NoneIn-extend :
    (a : Bitmap) (lo hi : ℕ)
    → (0 < lo → is_frame_available a lo ≡ false)
    → NoneIn a (lo + 1) hi
    → NoneIn a lo hi
NoneIn-extend a lo hi here rest g p q r = elim (ℕ_discrete g lo) [
  | yes e ↦ subst (λ k. is_frame_available a k ≡ false) (sym e) (here (omega arith))
  | no n ↦ rest g (omega arith) q r
]

Scanned-extend :
    (a : Bitmap) (lo hi : ℕ) (o : Outcome)
    → (0 < lo → is_frame_available a lo ≡ false)
    → Scanned a (lo + 1) hi o
    → Scanned a lo hi o
Scanned-extend a lo hi (found f) here (p, q, r, s, t) =
    (omega arith, q, r, s, NoneIn-extend a lo f here t)
Scanned-extend a lo hi stop here rest = NoneIn-extend a lo a.total_frames here rest
Scanned-extend a lo hi exhausted here rest = NoneIn-extend a lo hi here rest

-- One frame of the inner loop, given what the rest of the loop finds.
bit_step :
    (a : Bitmap) (i j : ℕ) (o : Outcome)
    → j < 64
    → Scanned a (i * 64 + j + 1) (i * 64 + 64) o
    → Scanned a (i * 64 + j) (i * 64 + 64) (
        if i * 64 + j == 0
        then o
        else if leb a.total_frames (i * 64 + j)
        then stop
        else if bit_clear a i j
        then found (i * 64 + j)
        else o)
bit_step a i j o h rest = elim (Bool-cases (i * 64 + j == 0)) [
  | inl z ↦ rw z (skip (λ p. absurd (omega (arith, (==_iff (i * 64 + j) 0).0 z))))
  | inr z ↦ rw z (elim (Bool-cases (leb a.total_frames (i * 64 + j))) [
    | inl out ↦ rw out (λ g p q r. absurd (ground arith))
    | inr inside ↦ rw inside (elim (Bool-cases (bit_clear a i j)) [
      | inl free ↦ rw free (
        omega arith,
        ground arith,
        ground arith,
        bit_clear-is_frame_available a i j h (ground arith) ∙ free,
        λ g p q r. absurd (omega arith),
      )
      | inr taken ↦
          rw taken (skip (λ p. bit_clear-is_frame_available a i j h (ground arith) ∙ taken))
    ])
  ])
]
  where
    skip :
        (0 < i * 64 + j → is_frame_available a (i * 64 + j) ≡ false)
        → Scanned a (i * 64 + j) (i * 64 + 64) o
    skip here = Scanned-extend a (i * 64 + j) (i * 64 + 64) o here rest

scan_bits-Scanned :
    (a : Bitmap) (i j n : ℕ) → j + n ≡ 64 → Scanned a (i * 64 + j) (i * 64 + 64) (scan_bits a i j n)
unfolding scan_bits
scan_bits-Scanned a i j zero e = λ g p q r. absurd (omega arith)
scan_bits-Scanned a i j (suc n) e = bit_step a i j (scan_bits a i (j + 1) n) (omega arith) (
    subst (λ k. Scanned a k (i * 64 + 64) (scan_bits a i (j + 1) n)) (omega arith)
      (scan_bits-Scanned a i (j + 1) n (omega arith)))

-- A word of ones has no available frame.
pub full_word :
    (a : Bitmap) (i : ℕ)
    → get_or a.bitmap i 0 ≡ u64_max
    → (g : ℕ) → i * 64 ≤ g
    → g < suc i * 64
    → is_frame_available a g ≡ false
full_word a i full g p q = elim (Bool-cases (leb a.total_frames g)) [
  | inl out ↦ is_frame_available_outside a g (ground arith)
  | inr inside ↦
      subst (λ k. is_frame_available a k ≡ false) (omega arith)
        (bit_clear-is_frame_available a i (g - i * 64) (omega arith) (ground arith)
          ∙ bit_clear-bit a i (g - i * 64)
          ∙ ones)
]
  where
    ones : (bit (get_or a.bitmap i 0) (g - i * 64) == 0) ≡ false
    ones = rw full (
        ground (
          arith,
          bit-complement 64 0 (g - i * 64) (pow_pos 64) (omega arith),
          bit-zero (g - i * 64),
        ))

abbrev Answer : Bitmap → ℕ → ℕ → Option ℕ → Type 0
Answer a lo hi (some f) = IsLowest a lo f
Answer a lo hi none = NoneIn a lo (min hi a.total_frames)

join : (a : Bitmap) (lo mid hi : ℕ) → NoneIn a lo mid → NoneIn a mid hi → NoneIn a lo hi
join a lo mid hi first second g p q r = elim (dec_lt g mid) [
  | yes h ↦ first g p h r
  | no h ↦ second g (omega arith) q r
]

Answer-after :
    (a : Bitmap) (lo mid hi : ℕ) (o : Option ℕ)
    → lo ≤ mid
    → NoneIn a lo mid
    → Answer a mid hi o
    → Answer a lo hi o
Answer-after a lo mid hi (some f) le first (p, q, r, s, t) =
    (omega arith, q, r, s, join a lo mid f first t)
Answer-after a lo mid hi none le first rest = join a lo mid (min hi a.total_frames) first rest

word_step :
    (a : Bitmap) (i hi : ℕ) (o : Option ℕ) (inner : Outcome)
    → suc i * 64 ≤ hi
    → Scanned a (i * 64) (suc i * 64) inner
    → Answer a (suc i * 64) hi o
    → Answer a (i * 64) hi (
        if get_or a.bitmap i 0 == u64_max
        then o
        else elim inner [ found frame ↦ some frame | stop ↦ none | exhausted ↦ o ])
word_step a i hi o inner h scanned rest = elim (Bool-cases (get_or a.bitmap i 0 == u64_max)) [
  | inl full ↦ rw full (
      Answer-after a (i * 64) (suc i * 64) hi o (omega arith)
        (λ g p q _. full_word a i ((==_iff (get_or a.bitmap i 0) u64_max).0 full) g p q) rest)
  | inr other ↦ rw other (inside inner scanned)
]
  where
    inside :
        (r : Outcome)
        → Scanned a (i * 64) (suc i * 64) r
        → Answer a (i * 64) hi (elim r [ found frame ↦ some frame | stop ↦ none | exhausted ↦ o ])
    inside (found f) s = s
    inside stop s = λ g p q r. s g p (omega arith) r
    inside exhausted s = Answer-after a (i * 64) (suc i * 64) hi o (omega arith) s rest

scan_words-Answer : (a : Bitmap) (i n : ℕ) → Answer a (i * 64) ((i + n) * 64) (scan_words a i n)
unfolding scan_words
scan_words-Answer a i zero = λ g p q r. absurd (omega arith)
scan_words-Answer a i (suc n) =
    word_step a i ((i + suc n) * 64) (scan_words a (i + 1) n) (scan_bits a i 0 64) (omega arith)
      (between (scan_bits-Scanned a i 0 64 refl)) (later (scan_words-Answer a (i + 1) n))
  where
    between :
        Scanned a (i * 64 + 0) (i * 64 + 64) (scan_bits a i 0 64)
        → Scanned a (i * 64) (suc i * 64) (scan_bits a i 0 64)
    between s = subst₂ (λ lo hi. Scanned a lo hi (scan_bits a i 0 64)) (omega arith) (omega arith) s

    later :
        Answer a ((i + 1) * 64) ((i + 1 + n) * 64) (scan_words a (i + 1) n)
        → Answer a (suc i * 64) ((i + suc n) * 64) (scan_words a (i + 1) n)
    later s =
        subst₂ (λ lo hi. Answer a lo hi (scan_words a (i + 1) n)) (omega arith) (omega arith) s

-- The whole search: the lowest available frame, or none at all.
abbrev pub Lowest : Bitmap → Option ℕ → Type 0
Lowest a (some f) = IsLowest a 0 f
Lowest a none = NoneIn a 0 a.total_frames

pub search-Lowest : {a : Bitmap} → IsValid a → Lowest a (scan_words a 0 (length a.bitmap))
search-Lowest {a} v =
    whole (scan_words a 0 (length a.bitmap)) (scan_words-Answer a 0 (length a.bitmap))
  where
    whole : (o : Option ℕ) → Answer a (0 * 64) ((0 + length a.bitmap) * 64) o → Lowest a o
    whole (some f) s = s
    whole none s = λ g p q r. s g p (omega (arith, v.covers)) r
