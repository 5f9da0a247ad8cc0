-- ===== src/Settlement/State.antt =====
-- internal/settlement/state.go: the states of a payment and the edges between them.
pub mod Laws
use facilitator.Base.{
  ℕ, ◌≡◌, refl, ap, ◌∙◌, sym, Bool, true, false, List, [], ◌∷◌, ◌||◌, ◌==◌, ==-eq, ==-refl,
}

pub data State : Type 0 where
  received verification_failed verified broadcasting broadcast confirming confirmed failed reverted
        replaced expired manual_review :
      State

-- Go compares the states' strings; here each has a number.
index : State → ℕ
index received = 0
index verification_failed = 1
index verified = 2
index broadcasting = 3
index broadcast = 4
index confirming = 5
index confirmed = 6
index failed = 7
index reverted = 8
index replaced = 9
index expired = 10
index manual_review = 11

unfoldable pub state_eq : State → State → Bool
unfolding index
state_eq s t = index s == index t

unfoldable pub is_in : State → List State → Bool
unfolding state_eq
is_in s [] = false
is_in s (t ∷ ts) = state_eq s t || is_in s ts

-- The value of the `transitions` map at a state.
unfoldable pub transitions : State → List State
transitions received = verification_failed ∷ verified ∷ expired ∷ manual_review ∷ []
transitions verified = broadcasting ∷ expired ∷ manual_review ∷ []
transitions broadcasting = broadcast ∷ failed ∷ expired ∷ manual_review ∷ []
transitions broadcast = confirming ∷ confirmed ∷ reverted ∷ replaced ∷ manual_review ∷ []
transitions confirming = broadcast ∷ confirmed ∷ reverted ∷ replaced ∷ manual_review ∷ []
transitions replaced = confirming ∷ confirmed ∷ reverted ∷ manual_review ∷ []
transitions expired = manual_review ∷ []
transitions manual_review = verified ∷ broadcast ∷ confirming ∷ replaced ∷ failed ∷ expired ∷ []
transitions _ = []

unfoldable pub can_transition : State → State → Bool
unfolding transitions is_in
can_transition from to = is_in to (transitions from)
