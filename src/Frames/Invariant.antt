-- ===== src/Frames/Invariant.antt =====
-- What each write to the bitmap does to the set of available frames.
use fullerene.Base.{
  ℕ, zero, suc, ◌+◌, ◌*◌, ◌/◌, ◌%◌, ◌^◌, ◌≤◌, ◌<◌, ◌≡◌, refl, Bool, true, false, not, ◌&&◌, arith,
  if◌then◌else◌, ltb, leb, ◌==◌, length, length-set, get_or-set_self, get_or-set_ne, get_or,
  ℕ_discrete, bit_and, bit_or, inl, inr, Bool-cases, ◌∙◌,
}
use fullerene.Base.Bits.{
  bit, bit_le, bit-bit_and, bit-bit_or, bit-pow, bit-complement, bit_and-pow, pow_pos, pow_lt,
}
use fullerene.Frames.{Bitmap, bit_clear, is_frame_available, set_frame_used, set_frames, complement}

-- The vector has a bit for every frame, and an address fits 64 bits.
pub record IsValid (a : Bitmap) : Type 0 where
  pub covers : a.total_frames ≤ 64 * length a.bitmap
  pub small : a.total_frames ≤ 2 ^ 52

pub set_frame_used-IsValid :
    {a : Bitmap} (f : ℕ) (u : Bool) → IsValid a → IsValid (set_frame_used a f u)
unfolding set_frame_used
set_frame_used-IsValid {a} f u v = ground (
  arith,
  length-set a.bitmap (f / 64) (bit_or (get_or a.bitmap (f / 64) 0) (2 ^ (f % 64))),
  length-set a.bitmap (f / 64) (bit_and (get_or a.bitmap (f / 64) 0) (complement (2 ^ (f % 64)))),
)

-- The bit test, arithmetically.
pub bit_clear-bit : (a : Bitmap) (i j : ℕ) → bit_clear a i j ≡ (bit (get_or a.bitmap i 0) j == 0)
unfolding bit_clear
bit_clear-bit a i j =
    grind (arith, bit_and-pow (get_or a.bitmap i 0) j, pow_pos j, bit_le (get_or a.bitmap i 0) j)

word_update : ℕ → ℕ → Bool → ℕ
word_update w b u = if u then bit_or w (2 ^ b) else bit_and w (complement (2 ^ b))

bit-word_update :
    (w b k : ℕ) (u : Bool)
    → b < 64
    → k < 64
    → (bit (word_update w b u) k == 0) ≡ (if b == k then not u else (bit w k == 0))
unfolding word_update
bit-word_update w b k true p q =
    rw (bit-bit_or w (2 ^ b) k, bit-pow b k) (ground (arith, bit_le w k))
bit-word_update w b k false p q =
    rw
      (
        bit-bit_and w (complement (2 ^ b)) k,
        bit-complement 64 (2 ^ b) k (pow_lt b 64 p) q,
        bit-pow b k,
      )
      (ground (arith, bit_le w k))

-- A frame number splits into the word and the bit.
same_frame : (f g : ℕ) → (f / 64 ≡ g / 64) → (f % 64 ≡ g % 64) → f ≡ g
same_frame f g p q = omega arith

-- Writing one frame changes the availability of that frame only, and only below `total_frames`.
pub is_frame_available-set_frame_used :
    {a : Bitmap} (f g : ℕ) (u : Bool)
    → IsValid a
    → is_frame_available (set_frame_used a f u) g
      ≡ (if (f == g) && ltb f a.total_frames then not u else is_frame_available a g)
unfolding is_frame_available set_frame_used word_update
is_frame_available-set_frame_used {a} f g u v = elim (Bool-cases (leb a.total_frames f)) [
  | inl out ↦ rw out (ground arith)
  | inr inside ↦
      rw (inside, bit_clear-bit, bit_clear-bit)
        (elim (ℕ_discrete (f / 64) (g / 64)) [
          | yes e ↦
              rw
                (
                  ← e,
                  get_or-set_self a.bitmap (f / 64)
                      (word_update (get_or a.bitmap (f / 64) 0) (f % 64) u) 0
                      (ground (arith, v.covers)),
                  bit-word_update (get_or a.bitmap (f / 64) 0) (f % 64) (g % 64) u (omega arith)
                      (omega arith),
                )
                (ground (arith, same_frame f g))
          | no n ↦
              rw
                (get_or-set_ne a.bitmap (f / 64) (g / 64)
                  (word_update (get_or a.bitmap (f / 64) 0) (f % 64) u) 0 n)
                (ground arith)
        ])
]

pub total_frames-set_frame_used :
    (a : Bitmap) (f : ℕ) (u : Bool) → (set_frame_used a f u).total_frames ≡ a.total_frames
unfolding set_frame_used
total_frames-set_frame_used a f u = ground arith

pub set_frames-IsValid :
    {a : Bitmap} (s n : ℕ) (u : Bool) → IsValid a → IsValid (set_frames a s n u)
unfolding set_frames
set_frames-IsValid s zero u v = v
set_frames-IsValid {a} s (suc n) u v =
    set_frames-IsValid {a = set_frame_used a s u} (s + 1) n u (set_frame_used-IsValid s u v)

-- A loop of writes changes the availability of exactly the frames of its range that exist.
pub is_frame_available-set_frames :
    {a : Bitmap} (s n g : ℕ) (u : Bool)
    → IsValid a
    → is_frame_available (set_frames a s n u) g
      ≡ (if leb s g && ltb g (s + n) && ltb g a.total_frames then not u else is_frame_available a g)
unfolding set_frames
is_frame_available-set_frames s zero g u v = ground arith
is_frame_available-set_frames {a} s (suc n) g u v = ground (
  arith,
  is_frame_available-set_frames {a = set_frame_used a s u} (s + 1) n g u
      (set_frame_used-IsValid s u v),
  is_frame_available-set_frame_used s g u v,
  total_frames-set_frame_used a s u,
)

-- A frame beyond the managed range is never available.
pub is_frame_available_outside :
    (a : Bitmap) (g : ℕ) → a.total_frames ≤ g → is_frame_available a g ≡ false
unfolding is_frame_available
is_frame_available_outside a g h = ground arith

pub total_frames-set_frames :
    (a : Bitmap) (s n : ℕ) (u : Bool) → (set_frames a s n u).total_frames ≡ a.total_frames
unfolding set_frames
total_frames-set_frames a s zero u = refl
total_frames-set_frames a s (suc n) u =
    total_frames-set_frames (set_frame_used a s u) (s + 1) n u ∙ total_frames-set_frame_used a s u
