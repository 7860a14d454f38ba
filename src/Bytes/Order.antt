-- ===== src/Bytes/Order.antt =====
-- The lexicographic order of byte strings.
use Prim.Native.Nat.{Ordering}
use cryptoballot.Prelude.{
  ℕ, zero, suc, ◌≡◌, ◌≢◌, ◌↔◌, refl, true, List, [], ◌∷◌, ◌++◌, arith, length, replicate,
}
use cryptoballot.Bytes.{IsBytes, then_cmp, lex_cmp, bytes_eq}

pub lex_cmp_refl : (xs : List ℕ) → lex_cmp xs xs ≡ Ordering.eq
unfolding lex_cmp
lex_cmp_refl [] = refl
lex_cmp_refl (x ∷ xs) = ground (arith, lex_cmp_refl xs)

pub eq_of_lex_cmp : (xs ys : List ℕ) → lex_cmp xs ys ≡ Ordering.eq → xs ≡ ys
unfolding lex_cmp
eq_of_lex_cmp [] [] h = refl
eq_of_lex_cmp [] (y ∷ ys) h = cc
eq_of_lex_cmp (x ∷ xs) [] h = cc
eq_of_lex_cmp (x ∷ xs) (y ∷ ys) h = ground (arith, eq_of_lex_cmp xs ys)

pub bytes_eq_iff : (xs ys : List ℕ) → (bytes_eq xs ys ≡ true) ↔ (xs ≡ ys)
unfolding bytes_eq
bytes_eq_iff [] [] = ground arith
bytes_eq_iff [] (y ∷ ys) = ground arith
bytes_eq_iff (x ∷ xs) [] = ground arith
bytes_eq_iff (x ∷ xs) (y ∷ ys) = ground (arith, bytes_eq_iff xs ys)

-- the order of `b` and `a` from that of `a` and `b`
abbrev pub reverse_cmp : Ordering → Ordering
reverse_cmp Ordering.lt = Ordering.gt
reverse_cmp Ordering.eq = Ordering.eq
reverse_cmp Ordering.gt = Ordering.lt

pub lex_cmp-swap : (xs ys : List ℕ) → lex_cmp ys xs ≡ reverse_cmp (lex_cmp xs ys)
unfolding lex_cmp
lex_cmp-swap [] [] = refl
lex_cmp-swap [] (y ∷ ys) = refl
lex_cmp-swap (x ∷ xs) [] = refl
lex_cmp-swap (x ∷ xs) (y ∷ ys) = ground (arith, lex_cmp-swap xs ys)

pub lex_cmp_trans :
    (xs ys zs : List ℕ)
    → lex_cmp xs ys ≡ Ordering.lt
    → lex_cmp ys zs ≡ Ordering.lt
    → lex_cmp xs zs ≡ Ordering.lt
unfolding lex_cmp
lex_cmp_trans xs [] [] h k = cc
lex_cmp_trans [] [] (z ∷ zs) h k = cc
lex_cmp_trans (x ∷ xs) [] (z ∷ zs) h k = cc
lex_cmp_trans xs (y ∷ ys) [] h k = cc
lex_cmp_trans [] (y ∷ ys) (z ∷ zs) h k = refl
lex_cmp_trans (x ∷ xs) (y ∷ ys) (z ∷ zs) h k = ground (arith, lex_cmp_trans xs ys zs)

pub lex_cmp-append :
    (xs ys us vs : List ℕ)
    → length xs ≡ length ys
    → lex_cmp (xs ++ us) (ys ++ vs) ≡ then_cmp (lex_cmp xs ys) (lex_cmp us vs)
unfolding lex_cmp
lex_cmp-append [] [] us vs h = refl
lex_cmp-append [] (y ∷ ys) us vs h = absurd (omega arith)
lex_cmp-append (x ∷ xs) [] us vs h = absurd (omega arith)
lex_cmp-append (x ∷ xs) (y ∷ ys) us vs h = ground (arith, lex_cmp-append xs ys us vs (omega arith))

pub lex_cmp-zeros : (n : ℕ) (xs : List ℕ) → length xs ≡ n → lex_cmp (replicate n 0) xs ≢ Ordering.gt
unfolding lex_cmp
lex_cmp-zeros zero [] h e = cc
lex_cmp-zeros zero (x ∷ xs) h e = absurd (omega arith)
lex_cmp-zeros (suc n) [] h e = absurd (omega arith)
lex_cmp-zeros (suc n) (x ∷ xs) h e = ground (arith, lex_cmp-zeros n xs (omega arith))

pub lex_cmp-ones :
    (n : ℕ) (xs : List ℕ) → length xs ≡ n → IsBytes xs → lex_cmp xs (replicate n 255) ≢ Ordering.gt
unfolding lex_cmp
lex_cmp-ones zero [] h b e = cc
lex_cmp-ones zero (x ∷ xs) h b e = absurd (omega arith)
lex_cmp-ones (suc n) [] h b e = absurd (omega arith)
lex_cmp-ones (suc n) (x ∷ xs) h b e = ground (arith, lex_cmp-ones n xs (omega arith) b.1, b.0)
