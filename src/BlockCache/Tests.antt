-- ===== src/BlockCache/Tests.antt =====
-- Runs of the block cache before a disk in memory, and its theorems on it.
use fullerene.Base.{
  ℕ, zero, suc, ◌+◌, ◌*◌, ◌≤◌, ◌<◌, ◌≡◌, ◌⊎◌, inl, inr, refl, ◌∙◌, ap, true, false, List, [], ◌∷◌,
  ◌++◌, length, length-append, take, drop, replicate, length-replicate, arith, ltb, ◌==◌,
  if◌then◌else◌, ltb-false, Bool-cases,
}
use fullerene.BlockCache.{
  Result, ok, err, device, buffer_too_small, BlockDevice, BlockCache, splice, new, read_sector,
  get_sector, write_sector, read_sectors, write_sectors,
}
use fullerene.BlockCache.Sectors.{IsDevice, sectors, length-drop}
use fullerene.BlockCache.Coherent.{IsCoherent, new-IsCoherent}
use fullerene.BlockCache.Single.{ReadsSector, read_sector-ReadsSector, get_sector-read_sector}
use fullerene.BlockCache.Rounds.{ReadsAll}
use fullerene.BlockCache.Multi.{read_sectors-ReadsAll}
use fullerene.BlockCache.Writes.{Writes, write_sectors-Writes, read_sector-write_sector}

-- Four sectors of two bytes. A read counts, fails from the sector `broken` on, and then leaves
-- zeros in its buffer.
record Disk : Type 0 where
  cells : ℕ → ℕ × ℕ
  reads : ℕ
  broken : ℕ

abbrev content : Disk → ℕ → List ℕ
content d l = (d.cells l).0 ∷ (d.cells l).1 ∷ []

put : ℕ → ℕ → List ℕ → (ℕ → ℕ × ℕ) → ℕ → ℕ × ℕ
put zero l buf old s = old s
put (suc n) l [] old s = old s
put (suc n) l (a ∷ []) old s = old s
put (suc n) l (a ∷ b ∷ buf) old s =
    let rest = put n (l + 1) buf old s in if s == l then (a, b) else rest

read : Disk → ℕ → ℕ → List ℕ → Result × Disk × List ℕ
read d l n buf =
    let got = sectors (content d) l n ++ drop (n * 2) buf in
    let d' = record d { reads = d.reads + 1 } in
    if ltb (length buf) (n * 2)
    then (err (buffer_too_small (n * 2) (length buf)), d', buf)
    else if ltb d.broken (l + n)
    then (err device, d', replicate (length buf) 0)
    else (ok, d', got)

write : Disk → ℕ → ℕ → List ℕ → Result × Disk
unfolding put
write d l n buf = (ok, record d { cells = put n l buf d.cells })

abbrev disk : BlockDevice Disk
disk = record {
  read_sectors = read;
  write_sectors = write;
  sector_size = λ d. 2;
  total_sectors = λ d. 4;
}

length-sectors : (d : Disk) (l n : ℕ) → length (sectors (content d) l n) ≡ n * 2
unfolding sectors
length-sectors d l zero = refl
length-sectors d l (suc n) = omega (arith, length-sectors d (l + 1) n)

read-kept :
    (d : Disk) (l n : ℕ) (buf : List ℕ)
    → (length (read d l n buf).2 ≡ length buf) × ((read d l n buf).1.cells ≡ d.cells)
unfolding read
read-kept d l n buf = elim (Bool-cases (ltb (length buf) (n * 2))) [
  | inl short ↦ rw (read, short) (refl, refl)
  | inr room ↦ elim (Bool-cases (ltb d.broken (l + n))) [
    | inl bad ↦ rw (read, room, bad) (length-replicate (length buf) 0, refl)
    | inr good ↦
        rw (read, room, good)
          (
            (let fits : n * 2 ≤ length buf = ground arith in
                omega (
                  arith,
                  length-append (sectors (content d) l n) (drop (n * 2) buf),
                  length-sectors d l n,
                  length-drop (n * 2) buf,
                )),
            refl,
          )
  ]
]

read-done :
    (d : Disk) (l n : ℕ) (buf : List ℕ)
    → (read d l n buf).0 ≡ ok
    → (read d l n buf).2 ≡ sectors (content d) l n ++ drop (n * 2) buf
unfolding read
read-done d l n buf done = elim (Bool-cases (ltb (length buf) (n * 2))) [
  | inl short ↦ let bad = rw (read, short) at done in cc
  | inr room ↦ elim (Bool-cases (ltb d.broken (l + n))) [
    | inl bad ↦ let bad' = rw (read, room, bad) at done in cc
    | inr good ↦ rw (read, room, good) refl
  ]
]

put-before :
    (n l : ℕ) (buf : List ℕ) (old : ℕ → ℕ × ℕ) (s : ℕ)
    → (s < l) ⊎ (l + n ≤ s)
    → put n l buf old s ≡ old s
unfolding put
put-before zero l buf old s h = refl
put-before (suc n) l [] old s h = refl
put-before (suc n) l (a ∷ []) old s h = refl
put-before (suc n) l (a ∷ b ∷ buf) old s h =
    let other : (s == l) ≡ false = grind arith in
    let h' : (s < l + 1) ⊎ (l + 1 + n ≤ s) = elim h [
      | inl low ↦ inl (omega arith)
      | inr high ↦ inr (omega arith)
    ] in
    rw (put, other) (put-before n (l + 1) buf old s h')

-- Sectors of cells that agree from `l` on.
sectors-from :
    (f g : ℕ → List ℕ) (l n : ℕ) → ((s : ℕ) → l ≤ s → f s ≡ g s) → sectors f l n ≡ sectors g l n
unfolding sectors
sectors-from f g l zero same = refl
sectors-from f g l (suc n) same =
    rw (same l (omega arith))
      (ap (λ x. g l ++ x) (sectors-from f g (l + 1) n (λ s h. same s (omega arith))))

abbrev pair : ℕ × ℕ → List ℕ
pair p = p.0 ∷ p.1 ∷ []

put-sectors :
    (n l : ℕ) (buf : List ℕ) (old : ℕ → ℕ × ℕ)
    → n * 2 ≤ length buf
    → sectors (λ s. pair (put n l buf old s)) l n ≡ take (n * 2) buf
unfolding put sectors
put-sectors zero l buf old h = refl
put-sectors (suc n) l [] old h = absurd (omega arith)
put-sectors (suc n) l (a ∷ []) old h = absurd (omega arith)
put-sectors (suc n) l (a ∷ b ∷ buf) old h =
    let twice : suc n * 2 ≡ suc (suc (n * 2)) = omega arith in
    let self : (l == l) ≡ true = grind arith in
    let later : (s : ℕ)
        → l + 1 ≤ s
        → pair (put (suc n) l (a ∷ b ∷ buf) old s) ≡ pair (put n (l + 1) buf old s) =
      λ s h. let other : (s == l) ≡ false = grind arith in rw (put, other) refl in
    rw (twice, self)
      (ap (λ x. a ∷ b ∷ x)
        (sectors-from (λ s. pair (put (suc n) l (a ∷ b ∷ buf) old s))
            (λ s. pair (put n (l + 1) buf old s)) (l + 1) n later
          ∙ put-sectors n (l + 1) buf old (omega arith)))

disk-IsDevice : IsDevice disk content
unfolding write
disk-IsDevice = record {
  sized = λ d l h. refl;
  reads = λ d l n buf room done. read-done d l n buf done;
  keeps_length = λ d l n buf. (read-kept d l n buf).0;
  read_keeps = λ d l n buf s. ap (λ f. pair (f s)) (read-kept d l n buf).1;
  read_total = λ d l n buf. refl;
  read_size = λ d l n buf. refl;
  writes = λ d l n buf room done. put-sectors n l buf d.cells room;
  write_keeps = λ d l n buf s h. ap pair (put-before n l buf d.cells s h);
  write_total = λ d l n buf. refl;
  write_size = λ d l n buf. refl;
}

read-ok :
    (d : Disk) (l : ℕ) (buf : List ℕ) → 2 ≤ length buf → l + 1 ≤ d.broken → (read d l 1 buf).0 ≡ ok
unfolding read
read-ok d l buf room good =
    rw (read, ltb-false (length buf) 2 room, ltb-false d.broken (l + 1) good) refl

abbrev whole : Disk
whole = record { cells = λ l. (l, l); reads = 0; broken = 4 }

abbrev cache : BlockCache Disk
cache = new disk whole 2

cache-IsCoherent : IsCoherent disk content cache
cache-IsCoherent = new-IsCoherent disk content whole 2 (omega arith)

abbrev buffer : List ℕ
buffer = 7 ∷ 7 ∷ 7 ∷ []

-- After a sector's read.
abbrev after : BlockCache Disk → ℕ → BlockCache Disk
after c l = (read_sector disk c l buffer).1

repeated_read_hits_cache : (read_sector disk (after cache 1) 1 buffer).2 ≡ 1 ∷ 1 ∷ 7 ∷ []
unfolding read_sector new read sectors
repeated_read_hits_cache = refl

repeated_read_reads_once : (after (after cache 1) 1).inner.reads ≡ 1
unfolding read_sector new read sectors
repeated_read_reads_once = refl

full_cache_evicts_in_round_robin_order :
    (after (after (after (after (after cache 0) 1) 2) 1) 0).inner.reads ≡ 4
unfolding read_sector new read sectors
full_cache_evicts_in_round_robin_order = refl

write_invalidates_cached_sector :
    (read_sector disk (write_sector disk (after cache 0) 0 (9 ∷ 9 ∷ [])).1 0 buffer).2
    ≡ 9 ∷ 9 ∷ 7 ∷ []
unfolding read_sector write_sector new read write sectors
write_invalidates_cached_sector = refl

-- A read of sector 3 fails, and has overwritten the bytes of sector 0's entry.
failed_read_clobbers_entry :
    let half = new disk (record { cells = λ l. (l + 5, l + 5); reads = 0; broken = 3 }) 2 in
    (read_sector disk (after (after (after half 0) 1) 3) 0 buffer).2 ≡ 0 ∷ 0 ∷ 7 ∷ []
unfolding read_sector new read sectors
failed_read_clobbers_entry = refl

read_sector-ReadsSector_example :
    ReadsSector disk content disk-IsDevice cache 2 buffer (read_sector disk cache 2 buffer)
read_sector-ReadsSector_example =
    read_sector-ReadsSector disk content disk-IsDevice cache 2 buffer cache-IsCoherent

get_sector-read_sector_example :
    let got = get_sector disk cache 2 in
    let read = read_sector disk cache 2 buffer in
    (read.0 ≡ got.0) × (read.1 ≡ got.1) × (got.0 ≡ ok → read.2 ≡ splice buffer 0 got.2)
unfolding new
get_sector-read_sector_example = get_sector-read_sector disk cache 2 buffer (omega arith)

read_sectors-ReadsAll_example :
    ReadsAll disk content
      (content whole)
      2
      1
      3
      (replicate 7 9)
      (read_sectors disk cache 1 3 (replicate 7 9))
unfolding new
read_sectors-ReadsAll_example =
    read_sectors-ReadsAll disk content disk-IsDevice cache 1 3 (replicate 7 9) cache-IsCoherent
      (omega arith) (omega arith) (omega arith) (omega arith)

write_sectors-Writes_example :
    Writes disk content disk-IsDevice cache 1 2
      (take (2 * 2) (replicate 5 9))
      (write_sectors disk cache 1 2 (replicate 5 9))
unfolding new
write_sectors-Writes_example =
    write_sectors-Writes disk content disk-IsDevice cache 1 2 (replicate 5 9) cache-IsCoherent
      (omega arith) (omega arith) (omega arith) (omega arith)

read_sector-write_sector_example :
    let wrote = write_sector disk cache 2 (8 ∷ 9 ∷ []) in
    let read = read_sector disk wrote.1 2 buffer in
    (read.0 ≡ ok) × (read.2 ≡ take 2 (8 ∷ 9 ∷ []) ++ drop 2 buffer) × IsCoherent disk content read.1
unfolding write_sector new write
read_sector-write_sector_example =
    read_sector-write_sector disk content disk-IsDevice cache 2 (8 ∷ 9 ∷ []) buffer cache-IsCoherent
      (omega arith) (omega arith) (omega arith) refl
      (λ b room. read-ok (write_sector disk cache 2 (8 ∷ 9 ∷ [])).1.inner 2 b room (omega arith))
