-- ===== src/Settlement/State/Laws.antt =====
-- internal/settlement/state.go: which states are final, and what can be reached.
use facilitator.Base.{ℕ, ◌≡◌, refl, ap, ◌∙◌, sym, ◌⊎◌, true, false, ==-eq, ==-refl, arith, ◌==◌}
use facilitator.Settlement.State.{
  State, received, verification_failed, verified, broadcasting, broadcast, confirming, confirmed,
  failed, reverted, replaced, expired, manual_review, index, state_eq, can_transition,
}

state_of : ℕ → State
state_of n = elim (n == 0) [
  | true ↦ received
  | false ↦ elim (n == 1) [
    | true ↦ verification_failed
    | false ↦ elim (n == 2) [
      | true ↦ verified
      | false ↦ elim (n == 3) [
        | true ↦ broadcasting
        | false ↦ elim (n == 4) [
          | true ↦ broadcast
          | false ↦ elim (n == 5) [
            | true ↦ confirming
            | false ↦ elim (n == 6) [
              | true ↦ confirmed
              | false ↦ elim (n == 7) [
                | true ↦ failed
                | false ↦ elim (n == 8) [
                  | true ↦ reverted
                  | false ↦ elim (n == 9) [
                    | true ↦ replaced
                    | false ↦ elim (n == 10) [ true ↦ expired | false ↦ manual_review ]
                  ]
                ]
              ]
            ]
          ]
        ]
      ]
    ]
  ]
]

state_of-index : (s : State) → state_of (index s) ≡ s
unfolding state_of index
state_of-index received = refl
state_of-index _ = refl

pub state_eq-eq : (s t : State) → state_eq s t ≡ true → s ≡ t
unfolding state_eq
state_eq-eq s t h =
    sym (state_of-index s) ∙ ap state_of (==-eq (index s) (index t) h) ∙ state_of-index t

pub state_eq_refl : (s : State) → state_eq s s ≡ true
unfolding state_eq
state_eq_refl s = ==-refl (index s)

-- A path of edges, of any length.
infix 40 ◌⟶*◌
pub data ◌⟶*◌ (s : State) : State → Type 0 where
  here : s ⟶* s
  next : {t u : State} → s ⟶* t → can_transition t u ≡ true → s ⟶* u

pub ⟶*-trans : {s t u : State} → s ⟶* t → t ⟶* u → s ⟶* u
⟶*-trans p here = p
⟶*-trans p (next q e) = next (⟶*-trans p q) e

pub edge : {s t : State} → can_transition s t ≡ true → s ⟶* t
edge e = next here e

abbrev pub IsFinal : State → Type 0
IsFinal s = (s ≡ confirmed) ⊎ (s ≡ reverted) ⊎ (s ≡ failed) ⊎ (s ≡ verification_failed)

-- No edge leaves a final state.
pub final_closed : (s t : State) → IsFinal s → can_transition s t ≡ false
unfolding can_transition
final_closed s t h = ground arith

-- So nothing is reached from it but itself.
pub ⟶*-final : {s t : State} → IsFinal s → s ⟶* t → t ≡ s
⟶*-final h here = refl
⟶*-final {s = s} h (next {t = t} {u = u} p e) =
    let at_s : t ≡ s = ⟶*-final h p in ground (arith, final_closed s u h)

-- Only the states of a transaction that is on the network lead to `confirmed`.
pub into_confirmed :
    (s : State)
    → can_transition s confirmed ≡ true
    → (s ≡ broadcast) ⊎ (s ≡ confirming) ⊎ (s ≡ replaced)
unfolding can_transition
into_confirmed s h = ground arith
