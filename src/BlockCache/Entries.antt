-- ===== src/BlockCache/Entries.antt =====
-- What the entries hold, and what is found among them.
use fullerene.Base.{
  ℕ, zero, suc, ◌<◌, ◌≡◌, inl, inr, refl, ◌∙◌, ap, true, List, [], ◌∷◌, Option, none, some, length,
  set, arith, ==_iff, Bool-cases,
}
use fullerene.BlockCache.{Entry, holds, is_free, lookup, free_slot, entry_at}

-- An entry with a tag holds that sector, and every entry has the size of one.
abbrev pub EntryHolds : (ℕ → List ℕ) → ℕ → Entry → Type 0
EntryHolds content size (none, bytes) = length bytes ≡ size
EntryHolds content size (some l, bytes) = (length bytes ≡ size) × (bytes ≡ content l)

abbrev pub AllHold : (ℕ → List ℕ) → ℕ → List Entry → Type 0
AllHold content size [] = Unit {0}
AllHold content size (e ∷ es) = EntryHolds content size e × AllHold content size es

pub AllHold-set :
    (content : ℕ → List ℕ) (size : ℕ) (es : List Entry) (i : ℕ) (e : Entry)
    → AllHold content size es
    → EntryHolds content size e
    → AllHold content size (set es i e)
AllHold-set content size [] i e all h = tt
AllHold-set content size (x ∷ es) zero e all h = (h, all.1)
AllHold-set content size (x ∷ es) (suc i) e all h = (all.0, AllHold-set content size es i e all.1 h)

pub AllHold-get_or :
    (content : ℕ → List ℕ) (size : ℕ) (es : List Entry) (i : ℕ)
    → AllHold content size es
    → i < length es
    → EntryHolds content size (entry_at es i)
AllHold-get_or content size [] i all h = absurd (omega arith)
AllHold-get_or content size (e ∷ es) zero all h = all.0
AllHold-get_or content size (e ∷ es) (suc i) all h =
    AllHold-get_or content size es i all.1 (omega arith)

entry_same :
    (f g : ℕ → List ℕ) (size : ℕ) (e : Entry)
    → ((l : ℕ) → f l ≡ g l)
    → EntryHolds f size e
    → EntryHolds g size e
entry_same f g size (none, bytes) same h = h
entry_same f g size (some l, bytes) same h = (h.0, h.1 ∙ same l)

pub AllHold-same :
    (f g : ℕ → List ℕ) (size : ℕ) (es : List Entry)
    → ((l : ℕ) → f l ≡ g l)
    → AllHold f size es
    → AllHold g size es
AllHold-same f g size [] same all = tt
AllHold-same f g size (e ∷ es) same all =
    (entry_same f g size e same all.0, AllHold-same f g size es same all.1)

pub length-EntryHolds :
    (f : ℕ → List ℕ) (size : ℕ) (e : Entry) → EntryHolds f size e → length e.1 ≡ size
length-EntryHolds f size (none, bytes) h = h
length-EntryHolds f size (some m, bytes) h = h.0

-- What `lookup` finds: an entry in bounds, with that tag.
abbrev pub Found : List Entry → ℕ → Option ℕ → Type 0
Found es lba none = Unit {0}
Found es lba (some i) = (i < length es) × ((entry_at es i).0 ≡ some lba)

Found-later :
    (e : Entry) (es : List Entry) (lba : ℕ) (o : Option ℕ)
    → Found es lba o
    → Found (e ∷ es) lba (elim o [ none ↦ none | some i ↦ some (suc i) ])
Found-later e es lba none f = tt
Found-later e es lba (some i) f = (omega (arith, f.0), f.1)

holds_same : (tag : Option ℕ) (lba : ℕ) → holds tag lba ≡ true → tag ≡ some lba
unfolding holds
holds_same none lba h = cc
holds_same (some l) lba h = ap some ((==_iff l lba).0 h)

pub holds_self : (l : ℕ) → holds (some l) l ≡ true
unfolding holds
holds_self l = ground arith

pub lookup-Found : (es : List Entry) (lba : ℕ) → Found es lba (lookup es lba)
unfolding lookup
lookup-Found [] lba = tt
lookup-Found ((tag, bytes) ∷ es) lba = elim (Bool-cases (holds tag lba)) [
  | inl here ↦ rw here (omega arith, holds_same tag lba here)
  | inr later ↦ rw later (Found-later (tag, bytes) es lba (lookup es lba) (lookup-Found es lba))
]

free_bound :
    (n : ℕ) (o : Option ℕ)
    → ((i : ℕ) → o ≡ some i → i < n)
    → (i : ℕ) → (elim o [ none ↦ none | some j ↦ some (suc j) ]) ≡ some i
    → i < suc n
free_bound n none h i e = cc
free_bound n (some j) h i e = let b = h j refl in ground arith

pub free_slot-lt : (es : List Entry) (i : ℕ) → free_slot es ≡ some i → i < length es
unfolding free_slot
free_slot-lt [] i e = cc
free_slot-lt ((tag, bytes) ∷ es) i e = elim (Bool-cases (is_free tag)) [
  | inl here ↦ let e' = rw here at e in ground arith
  | inr later ↦
      let e' = rw later at e in free_bound (length es) (free_slot es) (free_slot-lt es) i e'
]
