-- ===== src/BTreeMap/Range.antt =====
-- Lookups and ranges of a map, by its entries.
use Prim.Native.Nat.{Ordering}
use cryptoballot.Prelude.{ℕ, ◌≡◌, true, List, [], ◌∷◌, some, arith, All, inl, inr, In, All-In}
use cryptoballot.Bytes.{lex_cmp}
use cryptoballot.Bytes.Order.{bytes_eq_iff, lex_cmp_refl}
use cryptoballot.BTreeMap.{get, between, Ascends, cmp_le}

module _ {V : Type 0} where
  pub In-between :
      (lo hi k : List ℕ) (v : V) (m : List (List ℕ × V))
      → In (k, v) (between lo hi m)
      → In (k, v) m × (cmp_le (lex_cmp lo k) ≡ true) × (cmp_le (lex_cmp k hi) ≡ true)
  unfolding between
  In-between lo hi k v [] h = absurd h
  In-between lo hi k v ((j, w) ∷ m) h = ground (arith, In-between lo hi k v m)

  pub between-In :
      (lo hi k : List ℕ) (v : V) (m : List (List ℕ × V))
      → In (k, v) m
      → cmp_le (lex_cmp lo k) ≡ true
      → cmp_le (lex_cmp k hi) ≡ true
      → In (k, v) (between lo hi m)
  unfolding between
  between-In lo hi k v [] h p q = absurd h
  between-In lo hi k v ((j, w) ∷ m) h p q = ground (arith, between-In lo hi k v m)

  pub get-In : (k : List ℕ) (v : V) (m : List (List ℕ × V)) → get k m ≡ some v → In (k, v) m
  unfolding get
  get-In k v [] h = cc
  get-In k v ((j, w) ∷ m) h = ground (arith, get-In k v m, bytes_eq_iff j k)

  pub In-get :
      (k : List ℕ) (v : V) (m : List (List ℕ × V)) → Ascends m → In (k, v) m → get k m ≡ some v
  unfolding get
  In-get k v [] a h = absurd h
  In-get k v ((j, w) ∷ m) a (inl e) = ground (arith, bytes_eq_iff j k)
  In-get k v ((j, w) ∷ m) a (inr h) = ground (
    arith,
    In-get k v m,
    bytes_eq_iff j k,
    lex_cmp_refl j,
    All-In (λ e. lex_cmp j e.0 ≡ Ordering.lt) m a.0 (k, v) h,
  )

  pub between-All :
      (P : List ℕ × V → Type 0) (lo hi : List ℕ) (m : List (List ℕ × V))
      → All P m
      → All P (between lo hi m)
  unfolding between
  between-All P lo hi [] a = tt
  between-All P lo hi ((j, w) ∷ m) a = ground (arith, between-All P lo hi m)

  pub between-Ascends :
      (lo hi : List ℕ) (m : List (List ℕ × V)) → Ascends m → Ascends (between lo hi m)
  unfolding between
  between-Ascends lo hi [] a = tt
  between-Ascends lo hi ((j, w) ∷ m) a =
      ground
        (arith, between-Ascends lo hi m, between-All (λ e. lex_cmp j e.0 ≡ Ordering.lt) lo hi m)
