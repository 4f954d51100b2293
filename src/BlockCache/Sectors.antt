-- ===== src/BlockCache/Sectors.antt =====
-- What is asked of a device, and buffers made of its sectors.
use fullerene.Base.{
  ℕ, zero, suc, ◌+◌, ◌-◌, ◌*◌, ◌≤◌, ◌<◌, ◌≡◌, ◌⊎◌, refl, ◌∙◌, sym, ap, List, [], ◌∷◌, ◌++◌, length,
  length-append, take, drop, arith,
}
use fullerene.BlockCache.{ok, BlockDevice, slice}

pub append_assoc {ℓ} : {A : Type ℓ} (a b c : List A) → (a ++ b) ++ c ≡ a ++ (b ++ c)
append_assoc [] b c = refl
append_assoc (x ∷ a) b c = ap (λ l. x ∷ l) (append_assoc a b c)

pub append_nil {ℓ} : {A : Type ℓ} (a : List A) → a ++ [] ≡ a
append_nil [] = refl
append_nil (x ∷ a) = ap (λ l. x ∷ l) (append_nil a)

pub drop-append : (a b : List ℕ) (n : ℕ) → length a ≡ n → drop n (a ++ b) ≡ b
drop-append [] b zero e = refl
drop-append [] b (suc n) e = absurd (omega arith)
drop-append (x ∷ a) b zero e = absurd (omega arith)
drop-append (x ∷ a) b (suc n) e = drop-append a b n (omega arith)

pub take-append : (a b : List ℕ) (n : ℕ) → length a ≡ n → take n (a ++ b) ≡ a
take-append [] b zero e = refl
take-append [] b (suc n) e = absurd (omega arith)
take-append (x ∷ a) b zero e = absurd (omega arith)
take-append (x ∷ a) b (suc n) e = ap (λ l. x ∷ l) (take-append a b n (omega arith))

pub drop_all : (n : ℕ) (a : List ℕ) → length a ≤ n → drop n a ≡ []
drop_all zero [] h = refl
drop_all zero (x ∷ a) h = absurd (omega arith)
drop_all (suc n) [] h = refl
drop_all (suc n) (x ∷ a) h = drop_all n a (omega arith)

pub take-drop : (n : ℕ) (a : List ℕ) → take n a ++ drop n a ≡ a
take-drop zero a = refl
take-drop (suc n) [] = refl
take-drop (suc n) (x ∷ a) = ap (λ l. x ∷ l) (take-drop n a)

pub drop-drop : (m n k : ℕ) (a : List ℕ) → m + n ≡ k → drop n (drop m a) ≡ drop k a
drop-drop zero n k a e = let same : n ≡ k = omega arith in rw same refl
drop-drop (suc m) n zero a e = absurd (omega arith)
drop-drop (suc m) zero (suc k) [] e = refl
drop-drop (suc m) (suc n) (suc k) [] e = refl
drop-drop (suc m) n (suc k) (x ∷ a) e = drop-drop m n k a (omega arith)

pub length-take : (n : ℕ) (a : List ℕ) → n ≤ length a → length (take n a) ≡ n
length-take zero a h = refl
length-take (suc n) [] h = absurd (omega arith)
length-take (suc n) (x ∷ a) h = ap suc (length-take n a (omega arith))

pub length-drop : (n : ℕ) (a : List ℕ) → length (drop n a) ≡ length a - n
length-drop zero a = omega arith
length-drop (suc n) [] = omega arith
length-drop (suc n) (x ∷ a) = omega (arith, length-drop n a)

-- The sectors from `lba` on, one after the other.
unfoldable pub sectors : (ℕ → List ℕ) → ℕ → ℕ → List ℕ
sectors content lba zero = []
sectors content lba (suc n) = content lba ++ sectors content (lba + 1) n

pub sectors-append :
    (content : ℕ → List ℕ) (m n lba : ℕ)
    → sectors content lba (m + n) ≡ sectors content lba m ++ sectors content (lba + m) n
unfolding sectors
sectors-append content zero n lba =
    let z : 0 + n ≡ n = omega arith in let l : lba + 0 ≡ lba = omega arith in rw (z, l) refl
sectors-append content (suc m) n lba =
    let s : suc m + n ≡ suc (m + n) = omega arith in
    let l : lba + suc m ≡ lba + 1 + m = omega arith in
    rw
      (
        s,
        l,
        append_assoc (content lba) (sectors content (lba + 1) m) (sectors content (lba + 1 + m) n),
      )
      (ap (λ x. content lba ++ x) (sectors-append content m n (lba + 1)))

pub sectors-none :
    (content : ℕ → List ℕ) (lba size : ℕ) (buf : List ℕ)
    → buf ≡ sectors content lba 0 ++ drop (0 * size) buf
unfolding sectors
sectors-none content lba size buf = let z : 0 * size ≡ 0 = omega arith in rw z refl

pub sectors-one : (content : ℕ → List ℕ) (lba : ℕ) → sectors content lba 1 ≡ content lba
unfolding sectors
sectors-one content lba = append_nil (content lba)

pub sectors-same :
    (f g : ℕ → List ℕ) (lba n : ℕ) → ((l : ℕ) → f l ≡ g l) → sectors f lba n ≡ sectors g lba n
unfolding sectors
sectors-same f g lba zero same = refl
sectors-same f g lba (suc n) same =
    rw (same lba) (ap (λ x. g lba ++ x) (sectors-same f g (lba + 1) n same))

-- A sector in a buffer of sectors.
pub slice-sectors :
    (f : ℕ → List ℕ) (size lba m k s : ℕ) (rest : List ℕ)
    → m ≡ s + suc k
    → ((n l : ℕ) → l + n ≤ lba + m → length (sectors f l n) ≡ n * size)
    → slice (sectors f lba m ++ rest) (s * size) (s * size + size) ≡ f (lba + s)
unfolding sectors
slice-sectors f size lba m k s rest e sized =
    let parts : sectors f lba m ++ rest
        ≡ sectors f lba s ++ (f (lba + s) ++ (sectors f (lba + s + 1) k ++ rest)) =
      ap (λ x. sectors f lba x ++ rest) e
      ∙ ap (λ x. x ++ rest) (sectors-append f s (suc k) lba)
      ∙ append_assoc (sectors f lba s) (f (lba + s) ++ sectors f (lba + s + 1) k) rest
      ∙ ap (λ x. sectors f lba s ++ x)
          (append_assoc (f (lba + s)) (sectors f (lba + s + 1) k) rest) in
    let width : s * size + size - s * size ≡ size = omega arith in
    let one : length (f (lba + s)) ≡ size =
      ap length (sym (sectors-one f (lba + s))) ∙ sized 1 (lba + s) (omega arith) ∙ omega arith in
    rw
      (
        parts,
        width,
        drop-append (sectors f lba s) (f (lba + s) ++ (sectors f (lba + s + 1) k ++ rest))
            (s * size) (sized s lba (omega arith)),
      )
      (take-append (f (lba + s)) (sectors f (lba + s + 1) k ++ rest) size one)

-- A device of which `content` gives the sectors: a read that succeeds fills the buffer with them
-- and changes no sector, and a write that succeeds changes those that it names.
-- Whether a call that fails has read or written something is left open, but for sectors out of
-- the range of a write.
pub record IsDevice {D : Type 0} (dev : BlockDevice D) (content : D → ℕ → List ℕ) : Type 0 where
  pub sized : (d : D) (l : ℕ) → l < dev.total_sectors d → length (content d l) ≡ dev.sector_size d
  pub reads :
      (d : D) (l n : ℕ) (buf : List ℕ)
      → n * dev.sector_size d ≤ length buf
      → (dev.read_sectors d l n buf).0 ≡ ok
      → (dev.read_sectors d l n buf).2 ≡ sectors (content d) l n ++ drop (n * dev.sector_size d) buf
  pub keeps_length :
      (d : D) (l n : ℕ) (buf : List ℕ) → length (dev.read_sectors d l n buf).2 ≡ length buf
  pub read_keeps :
      (d : D) (l n : ℕ) (buf : List ℕ) (s : ℕ)
      → content (dev.read_sectors d l n buf).1 s ≡ content d s
  pub read_total :
      (d : D) (l n : ℕ) (buf : List ℕ)
      → dev.total_sectors (dev.read_sectors d l n buf).1 ≡ dev.total_sectors d
  pub read_size :
      (d : D) (l n : ℕ) (buf : List ℕ)
      → dev.sector_size (dev.read_sectors d l n buf).1 ≡ dev.sector_size d
  pub writes :
      (d : D) (l n : ℕ) (buf : List ℕ)
      → n * dev.sector_size d ≤ length buf
      → (dev.write_sectors d l n buf).0 ≡ ok
      → sectors (content (dev.write_sectors d l n buf).1) l n ≡ take (n * dev.sector_size d) buf
  pub write_keeps :
      (d : D) (l n : ℕ) (buf : List ℕ) (s : ℕ)
      → (s < l) ⊎ (l + n ≤ s)
      → content (dev.write_sectors d l n buf).1 s ≡ content d s
  pub write_total :
      (d : D) (l n : ℕ) (buf : List ℕ)
      → dev.total_sectors (dev.write_sectors d l n buf).1 ≡ dev.total_sectors d
  pub write_size :
      (d : D) (l n : ℕ) (buf : List ℕ)
      → dev.sector_size (dev.write_sectors d l n buf).1 ≡ dev.sector_size d

module _ {D : Type 0} (dev : BlockDevice D) (content : D → ℕ → List ℕ)
    (is : IsDevice dev content) where
  pub length-sectors :
      (d : D) (n lba : ℕ)
      → lba + n ≤ dev.total_sectors d
      → length (sectors (content d) lba n) ≡ n * dev.sector_size d
  unfolding sectors
  length-sectors d zero lba h = omega arith
  length-sectors d (suc n) lba h =
      length-append (content d lba) (sectors (content d) (lba + 1) n)
      ∙ rw (is.sized d lba (omega arith), length-sectors d n (lba + 1) (omega arith)) (omega arith)

module _ {D : Type 0} (dev : BlockDevice D) where
  -- The device can read the sector into any buffer with room.
  abbrev pub Readable : D → ℕ → Type 0
  Readable d lba = (b : List ℕ) → dev.sector_size d ≤ length b → (dev.read_sectors d lba 1 b).0 ≡ ok

  -- The device can read all its sectors, whatever it has done before.
  abbrev pub AllReadable : Type 0
  AllReadable =
      (d : D) (l n : ℕ) (b : List ℕ)
      → l + n ≤ dev.total_sectors d
      → n * dev.sector_size d ≤ length b
      → (dev.read_sectors d l n b).0 ≡ ok
