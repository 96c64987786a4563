-- ===== src/Base/Assoc.antt =====
-- `std::map` with integer keys: an association list in increasing order of the keys, which is the
-- order of iteration.
use Prim.Native.Nat.{ℕ, suc, ◌≤◌, ◌<◌}
use mathlib.Core.Path.{◌≡◌, refl}
use mathlib.Core.Bool.{Bool, true, false}
use mathlib.Core.Option.{Option, none, some}
use mathlib.Core.List.{List, [], ◌∷◌}
use native.Mathlib.Omega.{arith}
use gboost_rpc.Base.Tests.{ltb, ◌==◌, if◌then◌else◌}
use gboost_rpc.Base.Lists.{length}

module _ {ℓ} {V : Type ℓ} where
  -- `find`
  abbrev pub lookup : ℕ → List (ℕ × V) → Option V
  lookup k [] = none
  lookup k ((j, v) ∷ m) = if j == k then some v else lookup k m

  -- `insert`: a key that is there keeps its value, and the flag is false.
  unfoldable pub insert : ℕ → V → List (ℕ × V) → List (ℕ × V) × Bool
  insert k v [] = ((k, v) ∷ [], true)
  insert k v ((j, w) ∷ m) =
      let (rest, done) = insert k v m in
      if ltb k j
      then ((k, v) ∷ (j, w) ∷ m, true)
      else if j == k
      then ((j, w) ∷ m, false)
      else ((j, w) ∷ rest, done)

  -- `erase`
  unfoldable pub erase : ℕ → List (ℕ × V) → List (ℕ × V)
  erase k [] = []
  erase k ((j, w) ∷ m) = if j == k then m else (j, w) ∷ erase k m

  -- The keys increase strictly, from above `low` on.
  abbrev pub IsAbove : ℕ → List (ℕ × V) → Type 0
  IsAbove low [] = Unit
  IsAbove low ((j, w) ∷ m) = (low ≤ j) × IsAbove (suc j) m

  pub IsAbove-le : (lo hi : ℕ) (m : List (ℕ × V)) → lo ≤ hi → IsAbove hi m → IsAbove lo m
  IsAbove-le lo hi [] h s = tt
  IsAbove-le lo hi ((j, w) ∷ m) h s = (omega arith, s.1)

  pub lookup-IsAbove : (k low : ℕ) (m : List (ℕ × V)) → k < low → IsAbove low m → lookup k m ≡ none
  lookup-IsAbove k low [] h s = refl
  lookup-IsAbove k low ((j, w) ∷ m) h s = ground (arith, lookup-IsAbove k (suc j) m)

  -- A key that is not in the map is inserted, and nothing else changes.
  pub lookup-insert :
      (k i low : ℕ) (v : V) (m : List (ℕ × V))
      → IsAbove low m
      → lookup k m ≡ none
      → lookup i (insert k v m).0 ≡ (if k == i then some v else lookup i m)
  unfolding insert
  lookup-insert k i low v [] s h = refl
  lookup-insert k i low v ((j, w) ∷ m) s h = ground (arith, lookup-insert k i (suc j) v m)

  pub insert-new :
      (k low : ℕ) (v : V) (m : List (ℕ × V))
      → IsAbove low m
      → ((insert k v m).1 ≡ true)
      → lookup k m ≡ none
  unfolding insert
  insert-new k low v [] s h = refl
  insert-new k low v ((j, w) ∷ m) s h =
      ground (arith, insert-new k (suc j) v m, lookup-IsAbove k (suc j) m)

  pub insert_done : (k : ℕ) (v : V) (m : List (ℕ × V)) → lookup k m ≡ none → (insert k v m).1 ≡ true
  unfolding insert
  insert_done k v [] h = refl
  insert_done k v ((j, w) ∷ m) h = ground (arith, insert_done k v m)

  pub insert-IsAbove :
      (k low : ℕ) (v : V) (m : List (ℕ × V))
      → low ≤ k
      → IsAbove low m
      → IsAbove low (insert k v m).0
  unfolding insert
  insert-IsAbove k low v [] h s = (h, tt)
  insert-IsAbove k low v ((j, w) ∷ m) h s = ground (arith, insert-IsAbove k (suc j) v m)

  pub lookup-erase :
      (k i low : ℕ) (m : List (ℕ × V))
      → IsAbove low m
      → lookup i (erase k m) ≡ (if k == i then none else lookup i m)
  unfolding erase
  lookup-erase k i low [] s = ground arith
  lookup-erase k i low ((j, w) ∷ m) s =
      ground (arith, lookup-erase k i (suc j) m, lookup-IsAbove i (suc j) m)

  pub erase-IsAbove : (k low : ℕ) (m : List (ℕ × V)) → IsAbove low m → IsAbove low (erase k m)
  unfolding erase
  erase-IsAbove k low [] s = tt
  erase-IsAbove k low ((j, w) ∷ m) s =
      ground (arith, erase-IsAbove k (suc j) m, IsAbove-le low (suc j) m)

  pub length-insert :
      (k : ℕ) (v : V) (m : List (ℕ × V))
      → lookup k m ≡ none
      → length (insert k v m).0 ≡ suc (length m)
  unfolding insert
  length-insert k v [] h = refl
  length-insert k v ((j, w) ∷ m) h = ground (arith, length-insert k v m)

  pub length-erase : (k : ℕ) (m : List (ℕ × V)) → length (erase k m) ≤ length m
  unfolding erase
  length-erase k [] = omega arith
  length-erase k ((j, w) ∷ m) = ground (arith, length-erase k m)
