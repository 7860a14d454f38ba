-- ===== src/BTreeMap/Laws.antt =====
-- Insertion into a map.
use Prim.Native.Nat.{Ordering}
use cryptoballot.Prelude.{ℕ, ◌≡◌, refl, List, [], ◌∷◌, some, arith, if◌then◌else◌, All}
use cryptoballot.Bytes.{lex_cmp, bytes_eq}
use cryptoballot.Bytes.Order.{
  bytes_eq_iff, eq_of_lex_cmp, lex_cmp_refl, lex_cmp-swap, lex_cmp_trans,
}
use cryptoballot.BTreeMap.{get, insert, Ascends}

module _ {V : Type 0} where
  pub get-insert :
      (k j : List ℕ) (v : V) (m : List (List ℕ × V))
      → get j (insert k v m) ≡ (if bytes_eq k j then some v else get j m)
  unfolding get insert
  get-insert k j v [] = refl
  get-insert k j v ((i, w) ∷ m) = ground (
    arith,
    get-insert k j v m,
    bytes_eq_iff k j,
    bytes_eq_iff i j,
    eq_of_lex_cmp k i,
    lex_cmp_refl k,
  )

  Ascends-above :
      (k j : List ℕ) (m : List (List ℕ × V))
      → lex_cmp k j ≡ Ordering.lt
      → All (λ e. lex_cmp j e.0 ≡ Ordering.lt) m
      → All (λ e. lex_cmp k e.0 ≡ Ordering.lt) m
  Ascends-above k j [] h a = tt
  Ascends-above k j ((i, w) ∷ m) h a = (lex_cmp_trans k j i h a.0, Ascends-above k j m h a.1)

  pub All-insert :
      (P : List ℕ × V → Type 0) (k : List ℕ) (v : V) (m : List (List ℕ × V))
      → P (k, v)
      → All P m
      → All P (insert k v m)
  unfolding insert
  All-insert P k v [] p a = (p, tt)
  All-insert P k v ((j, w) ∷ m) p a =
      elim (lex_cmp k j)
        as (λ o. All P (elim o [
          | Ordering.lt ↦ (k, v) ∷ (j, w) ∷ m
          | Ordering.eq ↦ (k, v) ∷ m
          | Ordering.gt ↦ (j, w) ∷ insert k v m
        ])) [
          | Ordering.lt ↦ (p, a)
          | Ordering.eq ↦ (p, a.1)
          | Ordering.gt ↦ (a.0, All-insert P k v m p a.1)
        ]

  pub insert-Ascends :
      (k : List ℕ) (v : V) (m : List (List ℕ × V)) → Ascends m → Ascends (insert k v m)
  unfolding insert
  insert-Ascends k v [] a = (tt, tt)
  insert-Ascends k v ((j, w) ∷ m) a = ground (
    arith,
    insert-Ascends k v m,
    Ascends-above k j m,
    lex_cmp-swap k j,
    eq_of_lex_cmp k j,
    All-insert (λ e. lex_cmp j e.0 ≡ Ordering.lt) k v m,
  )
