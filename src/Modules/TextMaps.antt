-- ===== src/Modules/TextMaps.antt =====
-- Maps with text keys, and lists of names.
use Prim.Native.String.{String}
use text.Mathlib.Text.{◌==◌ as str_eq}
use text.Mathlib.TextEquality.{eq_iff}
use mrc.Prelude.{◌+◌, ◌-◌, ◌≡◌, refl, true, none, some, List, [], ◌∷◌, ◌++◌, if◌then◌else◌, arith}
use mrc.Modules.{TextMap, find, put, remove, erase_name, times, is_empty}

module _ {V : Type 0} where
  pub find-put :
      (j k : String) (v : V) (m : TextMap V)
      → find j (put k v m) ≡ (if str_eq k j then some v else find j m)
  unfolding find put
  find-put j k v [] = refl
  find-put j k v ((i, w) ∷ m) = ground (arith, eq_iff i k, eq_iff i j, eq_iff k j, find-put j k v m)

  pub find-remove :
      (j k : String) (m : TextMap V) → find j (remove k m) ≡ (if str_eq k j then none else find j m)
  unfolding find remove
  find-remove j k [] = ground arith
  find-remove j k ((i, w) ∷ m) =
      ground (arith, eq_iff i k, eq_iff i j, eq_iff k j, find-remove j k m)

  pub find-is_empty : (j : String) (m : TextMap V) → is_empty m ≡ true → find j m ≡ none
  unfolding find
  find-is_empty j [] e = refl
  find-is_empty j (x ∷ m) e = cc

pub times-append : (n : String) (l r : List String) → times n (l ++ r) ≡ times n l + times n r
unfolding times
times-append n [] r = ground arith
times-append n (k ∷ l) r = ground (arith, times-append n l r)

pub times-erase_name :
    (n k : String) (l : List String)
    → times n (erase_name k l) ≡ (if str_eq k n then times n l - 1 else times n l)
unfolding times erase_name
times-erase_name n k [] = ground arith
times-erase_name n k (i ∷ l) =
    ground (arith, eq_iff i k, eq_iff i n, eq_iff k n, times-erase_name n k l)
