-- ===== src/ControlPlane/Issuer/Entries.antt =====
-- The multimap of instance ids and tags.
use mrc.Prelude.{
  ℕ, suc, ◌≤◌, ◌<◌, ◌≡◌, ◌≢◌, inl, inr, refl, Option, none, some, List, [], ◌∷◌, ◌==◌,
  if◌then◌else◌, length, arith, Bool-cases,
}
use mrc.ControlPlane.Issuer.{Entry, emplace, of_instance, of_others, remove_tag}

-- The number of entries with a tag.
abbrev pub uses : ℕ → List Entry → ℕ
uses tag [] = 0
uses tag ((j, t) ∷ m) = if t == tag then suc (uses tag m) else uses tag m

abbrev pub Within : ℕ → ℕ → List Entry → Type 0
Within lo hi [] = Unit {0}
Within lo hi ((j, t) ∷ m) = (lo < t) × (t ≤ hi) × Within lo hi m

Within-mono : (lo hi hi' : ℕ) (m : List Entry) → Within lo hi m → hi ≤ hi' → Within lo hi' m
Within-mono lo hi hi' [] w h = tt
Within-mono lo hi hi' ((j, t) ∷ m) w h = (w.0, omega arith, Within-mono lo hi hi' m w.2 h)

pub uses-emplace :
    (tag k v : ℕ) (m : List Entry)
    → uses tag (emplace k v m) ≡ (if v == tag then suc (uses tag m) else uses tag m)
unfolding emplace
uses-emplace tag k v [] = refl
uses-emplace tag k v ((j, t) ∷ m) = ground (arith, uses-emplace tag k v m)

pub length-emplace : (k v : ℕ) (m : List Entry) → length (emplace k v m) ≡ suc (length m)
unfolding emplace
length-emplace k v [] = refl
length-emplace k v ((j, t) ∷ m) = ground (arith, length-emplace k v m)

pub length-of_instance-emplace :
    (id k v : ℕ) (m : List Entry)
    → length (of_instance id (emplace k v m))
      ≡ (if k == id then suc (length (of_instance id m)) else length (of_instance id m))
unfolding emplace
length-of_instance-emplace id k v [] = ground arith
length-of_instance-emplace id k v ((j, t) ∷ m) = ground (arith, length-of_instance-emplace id k v m)

pub Within-emplace :
    (lo hi hi' k v : ℕ) (m : List Entry)
    → Within lo hi m
    → hi ≤ hi'
    → lo < v
    → v ≤ hi'
    → Within lo hi' (emplace k v m)
unfolding emplace
Within-emplace lo hi hi' k v [] w h p q = (p, q, tt)
Within-emplace lo hi hi' k v ((j, t) ∷ m) w h p q =
    ground (arith, Within-emplace lo hi hi' k v m w.2 h p q, Within-mono lo hi hi' m)

pub uses_above : (lo hi tag : ℕ) (m : List Entry) → Within lo hi m → hi < tag → uses tag m ≡ 0
uses_above lo hi tag [] w h = refl
uses_above lo hi tag ((j, t) ∷ m) w h = ground (arith, uses_above lo hi tag m w.2)

pub uses-of_others : (tag id : ℕ) (m : List Entry) → uses tag (of_others id m) ≤ uses tag m
uses-of_others tag id [] = omega arith
uses-of_others tag id ((j, t) ∷ m) = ground (arith, uses-of_others tag id m)

pub Within-of_others :
    (lo hi id : ℕ) (m : List Entry) → Within lo hi m → Within lo hi (of_others id m)
Within-of_others lo hi id [] w = tt
Within-of_others lo hi id ((j, t) ∷ m) w = ground (arith, Within-of_others lo hi id m w.2)

-- What removal by tag leaves.
abbrev pub Removed : ℕ → List Entry → Option (List Entry) → Type 0
Removed tag m none = uses tag m ≡ 0
Removed tag m (some m') =
    (length m ≡ suc (length m'))
    × ((v : ℕ) → uses v m ≡ (if tag == v then suc (uses v m') else uses v m'))
    × ((lo hi : ℕ) → Within lo hi m → Within lo hi m')

Removed-behind :
    (tag j t : ℕ) (m : List Entry) (r : Option (List Entry))
    → t ≢ tag
    → Removed tag m r
    → Removed tag ((j, t) ∷ m) (elim r [ none ↦ none | some m' ↦ some ((j, t) ∷ m') ])
Removed-behind tag j t m none ne h = ground arith
Removed-behind tag j t m (some m') ne h =
    (ground arith, λ v. ground (arith, h.1 v), λ lo hi w. (w.0, w.1, h.2 lo hi w.2))

pub remove_tag-Removed : (tag : ℕ) (m : List Entry) → Removed tag m (remove_tag tag m)
unfolding remove_tag
remove_tag-Removed tag [] = refl
remove_tag-Removed tag ((j, t) ∷ m) = elim (Bool-cases (t == tag)) [
  | inl e ↦ rw e (refl, λ v. ground arith, λ lo hi w. w.2)
  | inr e ↦
      rw e (Removed-behind tag j t m (remove_tag tag m) (ground arith) (remove_tag-Removed tag m))
]
