-- ===== src/BTreeMap.antt =====
-- `BTreeMap<String, V>` of the standard library, which `MemStore` of cryptoballot/src/store.rs holds:
-- the entries in ascending order of their keys.
pub mod Laws
pub mod Range
use Prim.Native.Nat.{Ordering}
use cryptoballot.Prelude.{
  ℕ, ◌≡◌, Bool, true, false, ◌&&◌, List, [], ◌∷◌, Option, none, some, if◌then◌else◌, All,
}
use cryptoballot.Bytes.{lex_cmp, bytes_eq}

-- `a <= b`
abbrev pub cmp_le : Ordering → Bool
cmp_le Ordering.gt = false
cmp_le _ = true

module _ {V : Type 0} where
  unfoldable pub get : List ℕ → List (List ℕ × V) → Option V
  get k [] = none
  get k ((j, w) ∷ m) = if bytes_eq j k then some w else get k m

  unfoldable pub insert : List ℕ → V → List (List ℕ × V) → List (List ℕ × V)
  insert k v [] = (k, v) ∷ []
  insert k v ((j, w) ∷ m) = elim (lex_cmp k j) [
    | Ordering.lt ↦ (k, v) ∷ (j, w) ∷ m
    | Ordering.eq ↦ (k, v) ∷ m
    | Ordering.gt ↦ (j, w) ∷ insert k v m
  ]

  unfoldable pub between : List ℕ → List ℕ → List (List ℕ × V) → List (List ℕ × V)
  between lo hi [] = []
  between lo hi ((j, w) ∷ m) =
      let rest = between lo hi m in
      if cmp_le (lex_cmp lo j) && cmp_le (lex_cmp j hi) then (j, w) ∷ rest else rest

  -- `range(lo..=hi)`, which panics if `lo > hi`
  unfoldable pub range : List ℕ → List ℕ → List (List ℕ × V) → Option (List (List ℕ × V))
  unfolding between
  range lo hi m = if cmp_le (lex_cmp lo hi) then some (between lo hi m) else none

  -- the keys ascend
  abbrev pub Ascends : List (List ℕ × V) → Type 0
  Ascends [] = Unit
  Ascends ((k, v) ∷ m) = All (λ e. lex_cmp k e.0 ≡ Ordering.lt) m × Ascends m
