-- ===== src/Validate/Vote/Collision.antt =====
-- The test of a vote for a collision of anonymous keys (vote.rs), over a `MemStore`.
use cryptoballot.Prelude.{
  drop-append, inr, ltb, inl, ◌∙◌, require, ap, Option-cases, length-take, ℕ, ◌≡◌, ◌≢◌, ◌↔◌, refl,
  not, List, [], ◌∷◌, ◌++◌, arith, ok, length, take, drop, replicate, some, none,
}
use cryptoballot.Bytes.Order.{bytes_eq_iff, lex_cmp_refl, lex_cmp-swap, eq_of_lex_cmp}
use cryptoballot.External.{External}
use cryptoballot.Identifier.{Identifier, IsWellFormed, TransactionType, start}
use cryptoballot.Identifier.Order.{id_eq_iff}
use cryptoballot.Identifier.Text.{to_string}
use cryptoballot.BTreeMap
use cryptoballot.BTreeMap.{get, between, cmp_le}
use cryptoballot.Transaction.{SignedTransaction, VoteTransaction, tx_id}
use cryptoballot.Store.Mem.{MemStore, set, get_transaction, values, range, as_store}
use cryptoballot.Store.Mem.Laws.{get_transaction-set}
use cryptoballot.Validate.Vote.{vote_anonymous_key_collision, check_collision}

module _ {x : External} where
  open x use {key_bytes, length-key_bytes, key_bytes-IsBytes}

  -- The one identifier that the test looks up: ten bytes of the key, and six zeros.
  abbrev pub collision_id : VoteTransaction x → Identifier
  collision_id v = record {
    election_id = v.election.election_id;
    transaction_type = TransactionType.vote;
    unique_info = take 10 (key_bytes v.anonymous_key) ++ replicate 6 0;
  }

  between_self-none :
      (k : List ℕ) (m : List (List ℕ × SignedTransaction x)) → get k m ≡ none → between k k m ≡ []
  unfolding get between
  between_self-none k [] h = refl
  between_self-none k ((j, w) ∷ m) h =
      ground (arith, between_self-none k m, bytes_eq_iff j k, lex_cmp-swap k j, eq_of_lex_cmp k j)

  between_self-some :
      (k : List ℕ) (t : SignedTransaction x) (m : List (List ℕ × SignedTransaction x))
      → get k m ≡ some t
      → values (between k k m) ≢ []
  unfolding get between values
  between_self-some k t [] h e = cc
  between_self-some k t ((j, w) ∷ m) h e =
      ground (arith, between_self-some k t m, bytes_eq_iff j k, lex_cmp_refl k)

  values-nil : values {x = x} [] ≡ []
  unfolding values
  values-nil = refl

  start-collision_id :
      (v : VoteTransaction x)
      → start v.election TransactionType.vote (some (take 10 (key_bytes v.anonymous_key)))
        ≡ some (collision_id v)
  unfolding start
  start-collision_id v = ground (
    arith,
    length-take 10 (key_bytes v.anonymous_key),
    length-key_bytes v.anonymous_key,
    drop_zeros (length (take 10 (key_bytes v.anonymous_key))),
  )
    where
      drop_zeros : (n : ℕ) → n ≡ 10 → drop n (replicate 16 0) ≡ replicate {A = ℕ} 6 0
      drop_zeros n e = rw e refl

  range_self :
      (s : MemStore x) (id : Identifier)
      → range s id id ≡ some (values (between (to_string x id) (to_string x id) s.inner))
  unfolding range BTreeMap.range
  range_self s id = rw (lex_cmp_refl (to_string x id)) refl

  check_collision-eq-require :
      (s : MemStore x) (v : VoteTransaction x)
      → check_collision (as_store s) v
        ≡ require
            (not (
              ltb 0 (
                length (
                  values (
                    between
                      (to_string x (collision_id v))
                      (to_string x (collision_id v))
                      s.inner)))))
            vote_anonymous_key_collision
  unfolding check_collision
  check_collision-eq-require s v =
      rw (start-collision_id v) (rw (range_self s (collision_id v)) refl)

  -- The test passes exactly when the store has no transaction at the one identifier that is made of the
  -- ten bytes and six zeros. Whatever else begins with the ten bytes is not looked for.
  pub check_collision_iff :
      (s : MemStore x) (v : VoteTransaction x)
      → (check_collision (as_store s) v ≡ ok tt) ↔ (get_transaction s (collision_id v) ≡ none)
  unfolding get_transaction
  check_collision_iff s v =
      let k = to_string x (collision_id v) in
      rw (check_collision-eq-require s v) (elim (Option-cases (get k s.inner)) [
        | inl e ↦ ground (arith, between_self-none k s.inner e, values-nil)
        | inr (t, e) ↦ ground (arith, between_self-some k t s.inner e)
      ])

  -- A stored transaction whose identifier begins with the same ten bytes, and does not end with six
  -- zeros, changes nothing in the test: the collision is missed.
  pub check_collision_missed :
      (s : MemStore x) (v : VoteTransaction x) (w : SignedTransaction x)
      → IsWellFormed (tx_id w)
      → IsWellFormed (collision_id v)
      → take 10 (tx_id w).unique_info ≡ take 10 (key_bytes v.anonymous_key)
      → drop 10 (tx_id w).unique_info ≢ replicate 6 0
      → check_collision (as_store s) v ≡ ok tt
      → check_collision (as_store (set s w)) v ≡ ok tt
  check_collision_missed s v w a b same tail h = (check_collision_iff (set s w) v).1 (
      get_transaction-set s w (collision_id v) a b
      ∙ ground (arith, id_eq_iff (tx_id w) (collision_id v), other, (check_collision_iff s v).0 h))
    where
      other : tx_id w ≢ collision_id v
      other e = tail (
          ap (λ (i : Identifier). drop 10 i.unique_info) e
          ∙ drop-append 10 (take 10 (key_bytes v.anonymous_key)) (replicate 6 0)
              (length-take 10 _ (omega (arith, length-key_bytes v.anonymous_key))))
