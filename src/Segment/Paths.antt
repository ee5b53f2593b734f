-- ===== src/Segment/Paths.antt =====
-- cpp/mrc/src/internal/segment/builder_definition.cpp: the paths of names within namespaces.
use mrc.Prelude.{
  ℕ, ◌≡◌, refl, ap, ◌∙◌, ◌↔◌, Bool, true, false, ◌&&◌, some, List, [], ◌∷◌, ◌++◌, append_assoc,
  foldl, if◌then◌else◌, arith,
}
use mrc.Segment.{Text, slash, same, has_slash, find, put, accum_merge}
use mrc.Segment.Builder.{is_empty, merged}

pub same_iff : (a b : Text) → (same a b ≡ true) ↔ (a ≡ b)
unfolding same
same_iff [] [] = ground arith
same_iff [] (c ∷ b) = ground arith
same_iff (c ∷ a) [] = ground arith
same_iff (c ∷ a) (d ∷ b) = ground (arith, same_iff a b)

pub find-put :
    {V : Type 0} (j k : Text) (v : V) (m : List (Text × V))
    → find j (put k v m) ≡ (if same k j then some v else find j m)
unfolding find put
find-put j k v [] = refl
find-put j k v ((i, w) ∷ m) =
    ground (arith, same_iff i k, same_iff i j, same_iff k j, find-put j k v m)

-- The name below the components.
abbrev pub path : List Text → Text → Text
path [] name = name
path (c ∷ s) name = c ++ (slash ∷ path s name)

-- Every component has a byte and none has a slash.
abbrev pub Proper : List Text → Type 0
Proper [] = Unit {0}
Proper (c ∷ s) = (is_empty c ≡ false) × (has_slash c ≡ false) × Proper s

merge_from :
    (c : ℕ) (a : Text) (s : List Text) (name : Text)
    → foldl accum_merge (c ∷ a) s ++ (slash ∷ name) ≡ (c ∷ a) ++ (slash ∷ path s name)
unfolding accum_merge
merge_from c a [] name = refl
merge_from c a (d ∷ s) name =
    merge_from c (a ++ (slash ∷ d)) s name
    ∙ ap (λ t. c ∷ t) (append_assoc a (slash ∷ d) (slash ∷ path s name))

merge-is_empty : (c : ℕ) (a : Text) (s : List Text) → is_empty (foldl accum_merge (c ∷ a) s) ≡ false
unfolding accum_merge
merge-is_empty c a [] = refl
merge-is_empty c a (d ∷ s) = merge-is_empty c (a ++ (slash ∷ d)) s

-- A local name is the path below the components of the stack.
pub local_path :
    (s : List Text) (name : Text)
    → Proper s
    → (if is_empty (merged s) then name else merged s ++ (slash ∷ name)) ≡ path s name
unfolding merged accum_merge
local_path [] name p = refl
local_path ([] ∷ s) name (n, _, _) = ground (arith, n)
local_path ((c ∷ a) ∷ s) name p = rw (merge-is_empty c a s) (merge_from c a s name)

same-append :
    (a b x y : Text)
    → has_slash a ≡ false
    → has_slash b ≡ false
    → same (a ++ (slash ∷ x)) (b ++ (slash ∷ y)) ≡ (same a b && same x y)
unfolding same has_slash
same-append [] [] x y n m = refl
same-append [] (d ∷ b) x y n m = ground (arith, m)
same-append (c ∷ a) [] x y n m = ground (arith, n)
same-append (c ∷ a) (d ∷ b) x y n m = ground (arith, n, m, same-append a b x y)

slashless : (a b y : Text) → has_slash a ≡ false → same a (b ++ (slash ∷ y)) ≡ false
unfolding same has_slash
slashless [] [] y n = refl
slashless [] (d ∷ b) y n = refl
slashless (c ∷ a) [] y n = ground (arith, n)
slashless (c ∷ a) (d ∷ b) y n = ground (arith, n, slashless a b y)

same_sym : (a b : Text) → same a b ≡ same b a
unfolding same
same_sym [] [] = refl
same_sym [] (d ∷ b) = refl
same_sym (c ∷ a) [] = refl
same_sym (c ∷ a) (d ∷ b) = ground (arith, same_sym a b)

abbrev pub same_stack : List Text → List Text → Bool
same_stack [] [] = true
same_stack [] (c ∷ s) = false
same_stack (c ∷ s) [] = false
same_stack (c ∷ s) (d ∷ t) = same c d && same_stack s t

-- Two paths are the same only if the components and the names are.
pub same-path :
    (s t : List Text) (m n : Text)
    → Proper s
    → Proper t
    → has_slash m ≡ false
    → has_slash n ≡ false
    → same (path s m) (path t n) ≡ (same_stack s t && same m n)
same-path [] [] m n p q a b = refl
same-path [] (d ∷ t) m n p q a b = slashless m d (path t n) a
same-path (c ∷ s) [] m n p q a b = same_sym (path (c ∷ s) m) n ∙ slashless n c (path s m) b
same-path (c ∷ s) (d ∷ t) m n (_, pc, p) (_, qd, q) a b =
    same-append c d (path s m) (path t n) pc qd
    ∙ ap (λ (r : Bool). same c d && r) (same-path s t m n p q a b)
    ∙ ground arith
