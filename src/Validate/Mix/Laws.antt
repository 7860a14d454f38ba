-- ===== src/Validate/Mix/Laws.antt =====
-- The tests of a mix: equality, order and uniqueness of vote identifiers, and the loop that compares
-- them with the stored votes (mix.rs).
use mathlib.Core.Path.{ap₂}
use Prim.Native.Nat.{Ordering}
use cryptoballot.Prelude.{
  ap, ◌∙◌, unwind-eq-ok, require-eq-ok, unwind, sym, >>=-eq-ok, get_elem?, ℕ, zero, suc, ◌≡◌, ◌↔◌,
  refl, true, List, [], ◌∷◌, arith, ok, length, take, drop, some,
}
use cryptoballot.Bytes.Order.{eq_of_lex_cmp}
use cryptoballot.External.{External}
use cryptoballot.Identifier.{Identifier, cmp}
use cryptoballot.Identifier.Order.{id_eq_iff, as_u8-injective, Identifier_ext}
use cryptoballot.Transaction.{SignedTransaction, tx_id}
use cryptoballot.Validate.Mix.{ids_eq, is_sorted, unique_from, has_unique_elements, accounted_for}

pub ids_eq_iff : (xs ys : List Identifier) → (ids_eq xs ys ≡ true) ↔ (xs ≡ ys)
unfolding ids_eq
ids_eq_iff [] [] = ground arith
ids_eq_iff [] (b ∷ bs) = ground arith
ids_eq_iff (a ∷ xs) [] = ground arith
ids_eq_iff (a ∷ xs) (b ∷ bs) = ground (arith, id_eq_iff a b, ids_eq_iff xs bs)

pub eq_of_cmp : (a b : Identifier) → cmp a b ≡ Ordering.eq → a ≡ b
unfolding cmp
eq_of_cmp a b h =
    Identifier_ext a b (ground (arith, eq_of_lex_cmp a.election_id b.election_id))
      (as_u8-injective _ _ (ground arith))
      (ground (arith, eq_of_lex_cmp a.unique_info b.unique_info))

-- Each identifier is less than the next.
abbrev pub IsAscending : List Identifier → Type 0
IsAscending [] = Unit
IsAscending (a ∷ []) = Unit
IsAscending (a ∷ b ∷ rest) = (cmp a b ≡ Ordering.lt) × IsAscending (b ∷ rest)

unique_from-IsAscending :
    (uniq ids : List Identifier)
    → is_sorted ids ≡ true
    → unique_from uniq ids ≡ true
    → IsAscending ids
unfolding is_sorted unique_from
unique_from-IsAscending uniq [] h u = tt
unique_from-IsAscending uniq (a ∷ []) h u = tt
unique_from-IsAscending uniq (a ∷ b ∷ rest) h u =
    ground (arith, unique_from-IsAscending (a ∷ uniq) (b ∷ rest), eq_of_cmp a b, id_eq_iff b a)

-- Sorted identifiers with no element twice ascend strictly.
pub has_unique_elements-IsAscending :
    (ids : List Identifier)
    → is_sorted ids ≡ true
    → has_unique_elements ids ≡ true
    → IsAscending ids
unfolding has_unique_elements
has_unique_elements-IsAscending ids h u = unique_from-IsAscending [] ids h u

drop-get_elem? {ℓ} :
    {A : Type ℓ} (xs : List A) (i : ℕ) {a : A}
    → get_elem? xs i ≡ some a
    → drop i xs ≡ a ∷ drop (suc i) xs
drop-get_elem? [] i h = cc
drop-get_elem? (x ∷ xs) zero h = ground arith
drop-get_elem? (x ∷ xs) (suc i) h = drop-get_elem? xs i h

pub take-all {ℓ} : {A : Type ℓ} (xs : List A) → take (length xs) xs ≡ xs
take-all [] = refl
take-all (x ∷ xs) = rw (take-all xs)

module _ {x : External} where
  pub ids_of : List (SignedTransaction x) → List Identifier
  ids_of [] = []
  ids_of (t ∷ ts) = tx_id t ∷ ids_of ts

  pub length-ids_of : (ts : List (SignedTransaction x)) → length (ids_of ts) ≡ length ts
  unfolding ids_of
  length-ids_of [] = refl
  length-ids_of (t ∷ ts) = ap suc (length-ids_of ts)

  accounted_for-take :
      (vote_ids : List Identifier) (i : ℕ) (votes : List (SignedTransaction x))
      → accounted_for vote_ids i votes ≡ ok tt
      → take (length votes) (drop i vote_ids) ≡ ids_of votes
  unfolding accounted_for ids_of
  accounted_for-take vote_ids i [] h = refl
  accounted_for-take vote_ids i (t ∷ ts) h =
      let (id, there, k) = >>=-eq-ok (unwind (get_elem? vote_ids i)) _ h in
      let (same, k2) = require-eq-ok _ _ _ k in
      rw (drop-get_elem? vote_ids i (unwind-eq-ok _ there))
        (ap₂ ◌∷◌ ((id_eq_iff _ _).0 same) (accounted_for-take vote_ids (suc i) ts k2))

  -- Where the numbers agree, the loop passes only if the vote ids are those of the votes, in order.
  pub accounted_for-eq :
      (vote_ids : List Identifier) (votes : List (SignedTransaction x))
      → length votes ≡ length vote_ids
      → accounted_for vote_ids 0 votes ≡ ok tt
      → vote_ids ≡ ids_of votes
  accounted_for-eq vote_ids votes n h =
      sym (take-all vote_ids)
      ∙ ap (λ k. take k vote_ids) (sym n)
      ∙ accounted_for-take vote_ids 0 votes h
