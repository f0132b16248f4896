-- ===== src/Base/Maps.antt =====
-- Storage maps. A map that is only read by key is a function; one that the pallet also iterates
-- over, or whose entries a total is kept of, is an association list without repeated keys.
use Prim.Native.Nat.{ℕ, ◌+◌}
use mathlib.Core.Path.{◌≡◌}
use mathlib.Core.Logic.{◌≢◌}
use mathlib.Core.List.{List, [], ◌∷◌, map}
use mathlib.Core.Option.{Option, none, some}
use native.Mathlib.Omega.{arith}
use tellor_pallet.Base.Tests.{◌==◌, if◌then◌else◌}

-- `StorageMap` with `ValueQuery`, by its key.
abbrev pub set {ℓ} : {V : Type ℓ} → ℕ → V → (ℕ → V) → ℕ → V
set k v m j = if j == k then v else m j

-- `StorageDoubleMap`.
abbrev pub set₂ {ℓ} : {V : Type ℓ} → ℕ → ℕ → V → (ℕ → ℕ → V) → ℕ → ℕ → V
set₂ k l v m i j = if i == k then if j == l then v else m i j else m i j

-- `StorageNMap` of three keys.
abbrev pub set₃ {ℓ} : {V : Type ℓ} → ℕ → ℕ → ℕ → V → (ℕ → ℕ → ℕ → V) → ℕ → ℕ → ℕ → V
set₃ k l n v m h i j = if h == k then set₂ l n v (m h) i j else m h i j

abbrev pub Assoc {ℓ} : Type ℓ → Type ℓ
Assoc V = List (ℕ × V)

module _ {ℓ} {V : Type ℓ} where
  abbrev pub lookup : ℕ → Assoc V → Option V
  lookup k [] = none
  lookup k ((j, v) ∷ m) = if k == j then some v else lookup k m

  abbrev pub insert : ℕ → V → Assoc V → Assoc V
  insert k v [] = (k, v) ∷ []
  insert k v (e ∷ m) = if k == e.0 then (k, v) ∷ m else e ∷ insert k v m

  abbrev pub remove : ℕ → Assoc V → Assoc V
  remove k [] = []
  remove k (e ∷ m) = if k == e.0 then m else e ∷ remove k m

  abbrev pub keys : Assoc V → List ℕ
  keys = map λ e. e.0

  -- The sum of a quantity over all entries.
  abbrev pub total : (V → ℕ) → Assoc V → ℕ
  total f [] = 0
  total f ((k, v) ∷ m) = f v + total f m

  pub lookup-insert_self : (k : ℕ) (v : V) (m : Assoc V) → lookup k (insert k v m) ≡ some v
  lookup-insert_self k v [] = ground arith
  lookup-insert_self k v (e ∷ m) = ground (arith, lookup-insert_self k v m)

  pub lookup-insert_ne :
      (j k : ℕ) (v : V) (m : Assoc V) → j ≢ k → lookup j (insert k v m) ≡ lookup j m
  lookup-insert_ne j k v [] h = ground arith
  lookup-insert_ne j k v (e ∷ m) h = ground (arith, lookup-insert_ne j k v m h)

  pub total-insert :
      (f : V → ℕ) (k : ℕ) (v old : V) (m : Assoc V)
      → lookup k m ≡ some old
      → total f (insert k v m) + f old ≡ total f m + f v
  total-insert f k v old [] e = cc
  total-insert f k v old (x ∷ m) e = ground (arith, total-insert f k v old m)

  pub total-insert_new :
      (f : V → ℕ) (k : ℕ) (v : V) (m : Assoc V)
      → lookup k m ≡ none
      → total f (insert k v m) ≡ total f m + f v
  total-insert_new f k v [] e = ground arith
  total-insert_new f k v (x ∷ m) e = ground (arith, total-insert_new f k v m)

pub set₂-self {ℓ} : {V : Type ℓ} (k l : ℕ) (v : V) (m : ℕ → ℕ → V) → set₂ k l v m k l ≡ v
set₂-self k l v m = ground arith

pub set₃-self {ℓ} : {V : Type ℓ} (k l n : ℕ) (v : V) (m : ℕ → ℕ → ℕ → V) → set₃ k l n v m k l n ≡ v
set₃-self k l n v m = ground arith
