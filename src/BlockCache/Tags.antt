-- ===== src/BlockCache/Tags.antt =====
-- Which tags the entries have: none of them twice.
use fullerene.Base.{
  ℕ, zero, suc, ◌+◌, ◌≤◌, ◌<◌, ◌≡◌, ◌≢◌, inl, inr, refl, ◌∙◌, true, false, List, [], ◌∷◌, Option,
  none, some, length, length-set, set, replicate, arith, ◌==◌, ==_false, if◌then◌else◌, Bool-cases,
  Option-cases,
}
use fullerene.BlockCache.{Entry, holds, lookup, entry_at, invalidate}
use fullerene.BlockCache.Entries.{
  EntryHolds, AllHold, AllHold-set, AllHold-get_or, length-EntryHolds, lookup-Found, holds_self,
}

-- How many entries have the tag.
pub tag_count : List Entry → ℕ → ℕ
tag_count [] l = 0
tag_count ((tag, bytes) ∷ es) l = (if holds tag l then 1 else 0) + tag_count es l

pub tag_count-set :
    (es : List Entry) (i : ℕ) (e : Entry) (l : ℕ)
    → tag_count (set es i e) l ≤ tag_count es l + (if holds e.0 l then 1 else 0)
unfolding tag_count
tag_count-set [] i e l = omega arith
tag_count-set (x ∷ es) zero e l = omega arith
tag_count-set (x ∷ es) (suc i) e l = omega (arith, tag_count-set es i e l)

pub tag_count-set_same :
    (es : List Entry) (i : ℕ) (bytes : List ℕ) (l : ℕ)
    → tag_count (set es i ((entry_at es i).0, bytes)) l ≡ tag_count es l
unfolding tag_count
tag_count-set_same [] i bytes l = refl
tag_count-set_same (x ∷ es) zero bytes l = refl
tag_count-set_same (x ∷ es) (suc i) bytes l = omega (arith, tag_count-set_same es i bytes l)

pub tag_count-set_free :
    (es : List Entry) (i : ℕ) (bytes : List ℕ) (l : ℕ)
    → i < length es
    → tag_count (set es i (none, bytes)) l + (if holds (entry_at es i).0 l then 1 else 0)
      ≡ tag_count es l
unfolding tag_count holds
tag_count-set_free [] i bytes l h = absurd (omega arith)
tag_count-set_free (x ∷ es) zero bytes l h = omega arith
tag_count-set_free (x ∷ es) (suc i) bytes l h =
    omega (arith, tag_count-set_free es i bytes l (omega arith))

later_none : (o : Option ℕ) → (elim o [ none ↦ none | some i ↦ some (suc i) ]) ≡ none → o ≡ none
later_none none e = refl
later_none (some i) e = cc

pub tag_count-lookup : (es : List Entry) (l : ℕ) → lookup es l ≡ none → tag_count es l ≡ 0
unfolding lookup tag_count
tag_count-lookup [] l e = refl
tag_count-lookup ((tag, bytes) ∷ es) l e = elim (Bool-cases (holds tag l)) [
  | inl here ↦ let bad = rw here at e in cc
  | inr later ↦
      let rest = tag_count-lookup es l (later_none (lookup es l) (rw later at e)) in
      rw later (omega (arith, rest))
]

tag_first :
    (f g : ℕ → List ℕ) (size : ℕ) (e : Entry)
    → ((l : ℕ) → holds e.0 l ≡ true → f l ≡ g l)
    → EntryHolds f size e
    → EntryHolds g size e
unfolding holds
tag_first f g size (none, bytes) same h = h
tag_first f g size (some l, bytes) same h = (h.0, h.1 ∙ same l (ground arith))

-- Only the sectors that have an entry matter.
pub AllHold-tagged :
    (f g : ℕ → List ℕ) (size : ℕ) (es : List Entry)
    → ((l : ℕ) → 0 < tag_count es l → f l ≡ g l)
    → AllHold f size es
    → AllHold g size es
unfolding tag_count
AllHold-tagged f g size [] same all = tt
AllHold-tagged f g size (e ∷ es) same all = (
  tag_first f g size e (λ l here. same l (rw here (omega arith))) all.0,
  AllHold-tagged f g size es (λ l h. same l (omega arith)) all.1,
)

-- `invalidate` takes the tag of the sector, of which there is at most one, and no other.
pub tag_count-invalidate :
    (es : List Entry) (lba l : ℕ)
    → tag_count es lba ≤ 1
    → (tag_count (invalidate es lba) lba ≡ 0) × (tag_count (invalidate es lba) l ≤ tag_count es l)
unfolding invalidate
tag_count-invalidate es lba l once = elim (Option-cases (lookup es lba)) [
  | inl missing ↦ rw (invalidate, missing) (tag_count-lookup es lba missing, omega arith)
  | inr (i, found) ↦
      let at = rw found at (lookup-Found es lba) in
      let own = tag_count-set_free es i (entry_at es i).1 lba at.0 in
      let other = tag_count-set_free es i (entry_at es i).1 l at.0 in
      let here : holds (entry_at es i).0 lba ≡ true = rw at.1 (holds_self lba) in
      rw (invalidate, found)
        ((let own' = rw here at own in omega (arith, own', once)), (omega (arith, other)))
]

pub AllHold-invalidate :
    (f : ℕ → List ℕ) (size : ℕ) (es : List Entry) (lba : ℕ)
    → AllHold f size es
    → AllHold f size (invalidate es lba)
unfolding invalidate
AllHold-invalidate f size es lba all = elim (Option-cases (lookup es lba)) [
  | inl missing ↦ rw (invalidate, missing) all
  | inr (i, found) ↦
      let at = rw found at (lookup-Found es lba) in
      rw (invalidate, found)
        (AllHold-set f size es i (none, (entry_at es i).1) all
          (length-EntryHolds f size (entry_at es i) (AllHold-get_or f size es i all at.0)))
]

pub length-invalidate : (es : List Entry) (lba : ℕ) → length (invalidate es lba) ≡ length es
unfolding invalidate
length-invalidate es lba = elim (Option-cases (lookup es lba)) [
  | inl missing ↦ rw (invalidate, missing) refl
  | inr (i, found) ↦ rw (invalidate, found) (length-set es i (none, (entry_at es i).1))
]

pub new-tags : (size n l : ℕ) → tag_count (replicate n (none, replicate size 0)) l ≡ 0
unfolding tag_count holds
new-tags size zero l = refl
new-tags size (suc n) l = omega (arith, new-tags size n l)

-- An entry of another sector does not give this one its tag.
pub tag_count-set_other :
    (es : List Entry) (i m l : ℕ) (bytes : List ℕ)
    → m ≢ l
    → tag_count es l ≡ 0
    → tag_count (set es i (some m, bytes)) l ≡ 0
unfolding holds
tag_count-set_other es i m l bytes other none_has =
    let more = tag_count-set es i (some m, bytes) l in
    let e : (m == l) ≡ false = ==_false m l other in
    let more' = rw e at more in omega (arith, more', none_has)
