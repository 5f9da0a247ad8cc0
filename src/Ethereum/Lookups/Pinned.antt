-- ===== src/Ethereum/Lookups/Pinned.antt =====
-- internal/ethereum/rpc.go: the block that fees are estimated from.
use facilitator.Base.{
  ℕ, ◌≡◌, refl, subst, Option, none, some, List, [], ◌∷◌, Text, text_eq, text_eq-eq, Bool, true,
  false, &&-true, ==-eq, ◌==◌, if◌then◌else◌, All,
}
use facilitator.Ethereum.Agreement.{
  Outcome, answered, Read, agreed, provider_failed, disagreement, invalid_data, provider_urls,
  exact_comparable,
}
use facilitator.Ethereum.Agreement.Evidence.{read_client_agreement-agreed}
use facilitator.Ethereum.Reads.{
  parse_hex_uint, normalize_hash, or_invalid, decode_hex_uint_result, block_number,
}
use facilitator.Ethereum.Reads.Receipts.{
  exact_comparable-All, or_invalid-some, Near, block_number-Near,
}
use facilitator.Ethereum.Lookups.{
  Block, RpcBlock, BlockAnswers, decode_base_fee, is_requested, decode_block, same_block, block_at,
  at_head, is_several, block_by_number,
}

block_eq : (a b : Block) → a.hash ≡ b.hash → a.number ≡ b.number → a.base_fee ≡ b.base_fee → a ≡ b
block_eq a b hash number fee = cc

same_block-eq : (a b : Block) → same_block a b ≡ true → a ≡ b
unfolding same_block
same_block-eq a b h =
    let (hash, h₁) = &&-true (text_eq a.hash b.hash) _ h in
    let (number, fee) = &&-true (a.number == b.number) _ h₁ in
    block_eq a b (text_eq-eq _ _ hash) (==-eq _ _ number) (==-eq _ _ fee)

if-found :
    {A : Type 0} (b : Bool) (next : Option A) {a : A}
    → (if b then next else none) ≡ some a
    → (b ≡ true) × (next ≡ some a)
if-found true next h = (refl, h)
if-found false next h = absurd (cc)

decode_block-number :
    (requested : ℕ) (raw : Option (Option RpcBlock)) (block : Block)
    → decode_block (some requested) raw ≡ some block
    → block.number ≡ requested
unfolding decode_block is_requested
decode_block-number requested none block h = absurd (cc)
decode_block-number requested (some none) block h = absurd (cc)
decode_block-number requested (some (some raw)) block h =
    let (number, at_n, h₁) = or_invalid-some (parse_hex_uint raw.number) _ h in
    let (same, h₂) = if-found (number == requested) (body number) h₁ in
    let (hash, at_h, h₃) = or_invalid-some (normalize_hash raw.hash) (fee number) h₂ in
    let (base_fee, at_f, h₄) =
      or_invalid-some (decode_base_fee raw.base_fee) (built number hash) h₃ in
    is_number number hash base_fee (==-eq number requested same) h₄
  where
    built : ℕ → Text → ℕ → Option Block
    built number hash base_fee = some (record { hash = hash; number = number; base_fee = base_fee })

    fee : ℕ → Text → Option Block
    fee number hash = or_invalid (decode_base_fee raw.base_fee) (built number hash)

    body : ℕ → Option Block
    body number = or_invalid (normalize_hash raw.hash) (fee number)

    is_number :
        (number : ℕ) (hash : Text) (base_fee : ℕ)
        → number ≡ requested
        → built number hash base_fee ≡ some block
        → block.number ≡ requested
    is_number number hash base_fee same built_is = cc

abbrev ReadAs : ℕ → Block → Outcome (Option (Option RpcBlock)) → Type 0
ReadAs number block o =
    (raw : Option (Option RpcBlock)) × (o ≡ answered raw)
    × ((x : Block) × (decode_block (some number) raw ≡ some x) × (x ≡ block))

-- A provider has answered this block, with the number that was asked for.
abbrev pub Reported : ℕ → Block → Outcome (Option (Option RpcBlock)) → Type 0
Reported number block o = ReadAs number block o × (block.number ≡ number)

numbered :
    (number : ℕ) (block : Block) (outcomes : BlockAnswers)
    → All (ReadAs number block) outcomes
    → All (Reported number block) outcomes
numbered number block [] h = tt
numbered number block (o ∷ outcomes) (read, rest) =
    let (raw, at_o, (x, at_x, same)) = read in
    (
      (read, subst (λ (b : Block). b.number ≡ number) same (decode_block-number number raw x at_x)),
      numbered number block outcomes rest,
    )

block_at-Reported :
    (number : ℕ) (ask : Option ℕ → BlockAnswers) (block : Block)
    → block_at (some number) ask ≡ agreed block
    → All (Reported number block) (ask (some number))
unfolding block_at
block_at-Reported number ask block h = numbered number block (ask (some number)) (
    read_client_agreement-agreed (decode_block (some number)) (exact_comparable same_block)
      (λ v x. x ≡ v) (ask (some number)) block (exact_comparable-All same_block same_block-eq) h)

-- The base fee comes from the lower head: with two providers, the latest block that is returned was read
-- at one height, which is at most each provider's head and two blocks lower at most, and every provider
-- reports this very block there.
pub block_by_number-Reported :
    (url fallback : Text) (heads : List (Outcome (Option Text))) (ask : Option ℕ → BlockAnswers)
    (block : Block)
    → is_several (provider_urls url fallback) ≡ true
    → block_by_number url fallback none heads ask ≡ agreed block
    → (head : ℕ) × All
        (λ o.
          (raw : Option Text) × (o ≡ answered raw)
          × ((x : ℕ) × (decode_hex_uint_result raw ≡ some x) × Near head x))
        heads
      × All (Reported head block) (ask (some head))
unfolding block_by_number
block_by_number-Reported url fallback heads ask block several =
    by_test (is_several (provider_urls url fallback)) several
  where
    Conclusion : Type 0
    Conclusion =
        (head : ℕ) × All
          (λ o.
            (raw : Option Text) × (o ≡ answered raw)
            × ((x : ℕ) × (decode_hex_uint_result raw ≡ some x) × Near head x))
          heads
        × All (Reported head block) (ask (some head))

    by_head : (r : Read ℕ) → block_number heads ≡ r → at_head r ask ≡ agreed block → Conclusion
    by_head (agreed head) at_r h =
        (head, block_number-Near heads head at_r, block_at-Reported head ask block h)
    by_head (provider_failed e) at_r h = absurd (cc)
    by_head disagreement at_r h = absurd (cc)
    by_head invalid_data at_r h = absurd (cc)

    by_test :
        (b : Bool)
        → b ≡ true
        → (if b then at_head (block_number heads) ask else block_at none ask) ≡ agreed block
        → Conclusion
    by_test true e h = by_head _ refl h
    by_test false e h = absurd (cc)
