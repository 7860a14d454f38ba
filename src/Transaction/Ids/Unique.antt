-- ===== src/Transaction/Ids/Unique.antt =====
-- The composed identifiers of mixes and of their partial decryptions (mix.rs, decryption.rs).
use cryptoballot.Bytes.{u16_to_be_bytes, u32_to_be_bytes}
use cryptoballot.Bytes.Words.{u16_to_be_bytes-injective, u32_to_be_bytes-injective}
use cryptoballot.Prelude.{take, drop, get_elem?, some, some-injective, ℕ, ◌≡◌, ◌<◌, ap}
use cryptoballot.Identifier.{Identifier, new}
use cryptoballot.Transaction.Ids.{mix_id, build_unique_info, partial_decryption_id}

-- The identifier of a mix determines its contest, batch, mix index and trustee index, where the first
-- two are 32-bit words.
pub mix_id-injective :
    (e : Identifier) (contest batch index trustee contest' batch' index' trustee' : ℕ)
    → contest < 4294967296
    → batch < 4294967296
    → contest' < 4294967296
    → batch' < 4294967296
    → mix_id e contest batch index trustee ≡ mix_id e contest' batch' index' trustee'
    → (contest ≡ contest') × (batch ≡ batch') × (index ≡ index') × (trustee ≡ trustee')
unfolding mix_id new
mix_id-injective e contest batch index trustee contest' batch' index' trustee' a b c d h =
    let p : u32_to_be_bytes contest ≡ u32_to_be_bytes contest' =
      ap (λ (i : Identifier). take 4 i.unique_info) h in
    let q : u32_to_be_bytes batch ≡ u32_to_be_bytes batch' =
      ap (λ (i : Identifier). take 4 (drop 4 i.unique_info)) h in
    let r : some index ≡ some index' = ap (λ (i : Identifier). get_elem? i.unique_info 8) h in
    let s : some trustee ≡ some trustee' = ap (λ (i : Identifier). get_elem? i.unique_info 9) h in
    (
      u32_to_be_bytes-injective contest contest' a c p,
      u32_to_be_bytes-injective batch batch' b d q,
      some-injective r,
      some-injective s,
    )

-- what a partial decryption of a mixed vote is about
pub record Place : Type 0 where
  pub contest : ℕ
  pub batch : ℕ
  pub mix_index : ℕ
  pub mixer : ℕ
  pub entry : ℕ
  pub trustee : ℕ

-- the contest and the batch are 32-bit words, and the entry is one of 16 bits
pub record IsPlace (p : Place) : Type 0 where
  pub contest_lt : p.contest < 4294967296
  pub batch_lt : p.batch < 4294967296
  pub entry_lt : p.entry < 65536

-- the identifier of the partial decryption by `trustee` of an entry of the mix of `mixer`
abbrev pub partial_id : Identifier → Place → Identifier
partial_id e p =
    partial_decryption_id e (mix_id e p.contest p.batch p.mix_index p.mixer) p.contest p.entry
      p.trustee

Place_ext :
    (p q : Place)
    → p.contest ≡ q.contest
    → p.batch ≡ q.batch
    → p.mix_index ≡ q.mix_index
    → p.mixer ≡ q.mixer
    → p.entry ≡ q.entry
    → p.trustee ≡ q.trustee
    → p ≡ q
Place_ext p q a b c d f g = λ i. record {
  contest = a i;
  batch = b i;
  mix_index = c i;
  mixer = d i;
  entry = f i;
  trustee = g i;
}

-- Two partial decryptions of mixes of an election have one identifier only where contest, batch, mix
-- index, mixing trustee, entry and decrypting trustee all agree, where those fit their words.
pub partial_id-injective :
    (e : Identifier) (p q : Place) → IsPlace p → IsPlace q → partial_id e p ≡ partial_id e q → p ≡ q
unfolding partial_decryption_id build_unique_info mix_id new
partial_id-injective e p q v w h =
    let a : u32_to_be_bytes p.contest ≡ u32_to_be_bytes q.contest =
      ap (λ (i : Identifier). take 4 i.unique_info) h in
    let b : u32_to_be_bytes p.batch ≡ u32_to_be_bytes q.batch =
      ap (λ (i : Identifier). take 4 (drop 5 i.unique_info)) h in
    let c : some p.mix_index ≡ some q.mix_index =
      ap (λ (i : Identifier). get_elem? i.unique_info 9) h in
    let d : some p.mixer ≡ some q.mixer = ap (λ (i : Identifier). get_elem? i.unique_info 10) h in
    let f : u16_to_be_bytes p.entry ≡ u16_to_be_bytes q.entry =
      ap (λ (i : Identifier). take 2 (drop 13 i.unique_info)) h in
    let g : some p.trustee ≡ some q.trustee =
      ap (λ (i : Identifier). get_elem? i.unique_info 15) h in
    Place_ext p q (u32_to_be_bytes-injective p.contest q.contest v.contest_lt w.contest_lt a)
      (u32_to_be_bytes-injective p.batch q.batch v.batch_lt w.batch_lt b) (some-injective c)
      (some-injective d) (u16_to_be_bytes-injective p.entry q.entry v.entry_lt w.entry_lt f)
      (some-injective g)
