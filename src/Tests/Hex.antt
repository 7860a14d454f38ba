-- ===== src/Tests/Hex.antt =====
-- Hexadecimal text as the package hex writes and reads it.
use mathlib.Core.Path.{subst}
use Prim.Native.Nat.{compare, Ordering}
use cryptoballot.Prelude.{
  some-injective, ℕ, ◌+◌, ◌-◌, ◌*◌, ◌/◌, ◌%◌, ◌<◌, ◌≡◌, refl, ◌&&◌, List, [], ◌∷◌, Option, none,
  some, arith, ltb, leb, and_then, if◌then◌else◌, and_then-eq-some,
}
use cryptoballot.Bytes.{IsBytes, lex_cmp, then_cmp}

unfoldable pub digit : ℕ → ℕ
digit d = if ltb d 10 then 48 + d else 87 + d

unfoldable pub digit_value : ℕ → Option ℕ
digit_value c =
    if leb 48 c && ltb c 58
    then some (c - 48)
    else (if leb 97 c && ltb c 103
        then some (c - 87)
        else (if leb 65 c && ltb c 71 then some (c - 55) else none))

unfoldable pub encode : List ℕ → List ℕ
unfolding digit
encode [] = []
encode (b ∷ bs) = digit (b / 16) ∷ digit (b % 16) ∷ encode bs

unfoldable pub decode : List ℕ → Option (List ℕ)
unfolding digit_value
decode [] = some []
decode (a ∷ []) = none
decode (a ∷ b ∷ rest) =
    let more = decode rest in
    and_then (digit_value a)
      λ high. and_then (digit_value b) λ low. and_then more λ bs. some ((16 * high + low) ∷ bs)

digit_value-digit : (d : ℕ) → d < 16 → digit_value (digit d) ≡ some d
unfolding digit digit_value
digit_value-digit d h = ground arith

digit_value-lt : (c d : ℕ) → digit_value c ≡ some d → d < 16
unfolding digit_value
digit_value-lt c d h = ground arith

div_lt : (b : ℕ) → b < 256 → b / 16 < 16
div_lt b h = omega arith

mod_lt : (b : ℕ) → b % 16 < 16
mod_lt b = omega arith

halves : (b : ℕ) → 16 * (b / 16) + b % 16 ≡ b
halves b = omega arith

compare-digit : (d e : ℕ) → d < 16 → e < 16 → compare (digit d) (digit e) ≡ compare d e
unfolding digit
compare-digit d e h k = ground arith

compare_halves :
    (c b : ℕ) → compare c b ≡ then_cmp (compare (c / 16) (b / 16)) (compare (c % 16) (b % 16))
compare_halves c b = ground arith

then_assoc : (a b c : Ordering) → then_cmp (then_cmp a b) c ≡ then_cmp a (then_cmp b c)
then_assoc a b c = ground arith

pub decode-encode : (bs : List ℕ) → IsBytes bs → decode (encode bs) ≡ some bs
unfolding encode decode
decode-encode [] h = refl
decode-encode (b ∷ bs) h = rw (
  digit_value-digit (b / 16) (div_lt b h.0),
  digit_value-digit (b % 16) (mod_lt b),
  decode-encode bs h.1,
  halves b,
)

pub decode-IsBytes : (s bs : List ℕ) → decode s ≡ some bs → IsBytes bs
unfolding decode
decode-IsBytes [] bs h = subst IsBytes (some-injective h) tt
decode-IsBytes (a ∷ []) bs h = cc
decode-IsBytes (a ∷ b ∷ rest) bs h =
    let (high, p, k) = and_then-eq-some (digit_value a) _ h in
    let (low, q, k2) = and_then-eq-some (digit_value b) _ k in
    let (more, r, k3) = and_then-eq-some (decode rest) _ k2 in
    let high_lt = digit_value-lt a high p in
    let low_lt = digit_value-lt b low q in
    subst IsBytes (some-injective k3) (omega arith, decode-IsBytes rest more r)

pub lex_cmp-encode :
    (cs bs : List ℕ) → IsBytes cs → IsBytes bs → lex_cmp (encode cs) (encode bs) ≡ lex_cmp cs bs
unfolding encode lex_cmp
lex_cmp-encode [] [] h k = refl
lex_cmp-encode [] (b ∷ bs) h k = refl
lex_cmp-encode (c ∷ cs) [] h k = refl
lex_cmp-encode (c ∷ cs) (b ∷ bs) h k = rw (
  compare-digit (c / 16) (b / 16) (div_lt c h.0) (div_lt b k.0),
  compare-digit (c % 16) (b % 16) (mod_lt c) (mod_lt b),
  lex_cmp-encode cs bs h.1 k.1,
  compare_halves c b,
  then_assoc,
)
