-- ===== src/Settlement/Sweep/Runs.antt =====
-- Composing what the recovery worker does: `u` is the database that a pass has listed its rows from.
use facilitator.Base.{
  ℕ, ◌≡◌, refl, Option, none, some, List, Memᴰ, Text, Bool, true, false, if◌then◌else◌,
}
use facilitator.Settlement.Errors.{Error, Result, ok, err}
use facilitator.Settlement.Service.{Network, World}
use facilitator.Settlement.Recovery.{stored, hand_over, send, then_send}
use facilitator.Settlement.Sweep.Actions.{
  Write, Issue, OnFile, Reached, Reached-trans, Reached-past, Reached-now, start, writes, records,
  sends, with_db,
}
use facilitator.Settlement.Sweep.{logged}
use facilitator.Settlement.Sweep.OnFile.{Issue-OnFile}
use facilitator.Store.Schema.{Db}

module _ (keccak : Text → Text) (u : Db) where
  abbrev pub Runs : World → World → Type 0
  Runs w v = (h : List Db) → Memᴰ u h → Memᴰ w.db h → (k : List Db) × Reached keccak w h v k

  unfoldable pub RunsTo : World → World × Result (Unit {0}) → Type 0
  RunsTo w o = Runs w o.0

  pub nothing-Runs : (w : World) → Runs w w
  nothing-Runs w h listed now = (h, start)

  pub idle-RunsTo : (w : World) (r : Result (Unit {0})) → RunsTo w (w, r)
  unfolding RunsTo
  idle-RunsTo w r = nothing-Runs w

  pub then-Runs : (w v x : World) → Runs w v → Runs v x → Runs w x
  then-Runs w v x a b h listed now =
      let (k, first) = a h listed now in
      let (l, second) = b k (Reached-past keccak first listed) (Reached-now keccak first now) in
      (l, Reached-trans keccak first second)

  pub then-RunsTo :
      (w v : World) (o : World × Result (Unit {0})) → Runs w v → RunsTo v o → RunsTo w o
  unfolding RunsTo
  then-RunsTo w v o a b = then-Runs w v o.0 a b

  pub after-Runs : (w : World) (o : World × Result (Unit {0})) → RunsTo w o → Runs w (logged o)
  unfolding RunsTo
  after-Runs w o a = a

  pub Write-Runs : (w : World) (e : Db) → Write w.db e → Runs w (with_db w e)
  Write-Runs w e write h listed now = (_, writes start write)

  pub written-RunsTo :
      (w : World) (e : Db) (r : Result (Unit {0})) → Write w.db e → RunsTo w (with_db w e, r)
  unfolding RunsTo
  written-RunsTo w e r write = Write-Runs w e write

  pub stored-RunsTo :
      (w : World) (r : Result Db) → ((e : Db) → r ≡ ok e → Write w.db e) → RunsTo w (stored r w)
  unfolding RunsTo
  stored-RunsTo w (ok e) writes_ = Write-Runs w e (writes_ e refl)
  stored-RunsTo w (err x) writes_ = nothing-Runs w

  -- What the database holds now, or held when the pass began.
  pub again-Runs :
      (w : World) (id : ℕ) (raw : Text) → OnFile keccak id raw w.db → Runs w (hand_over id raw w)
  again-Runs w id raw held h listed now = (h, sends start now held)

  pub listed-Runs :
      (w : World) (id : ℕ) (raw : Text) → OnFile keccak id raw u → Runs w (hand_over id raw w)
  listed-Runs w id raw held h listed now = (h, sends start listed held)

  pub then_send-RunsTo :
      (w : World) (r : Result Db) (network : Network) (id : ℕ) (raw expected : Text)
      → ((e : Db) → r ≡ ok e → Issue keccak w.db id raw e)
      → RunsTo w (then_send r network id raw expected w)
  unfolding send RunsTo
  then_send-RunsTo w (ok e) network id raw expected issues h listed now = (
    _,
    sends (records start (issues e refl)) (Memᴰ.head refl)
        (Issue-OnFile keccak w.db e id raw (issues e refl)),
  )
  then_send-RunsTo w (err x) network id raw expected issues h listed now =
      nothing-Runs w h listed now

-- A predicate on outcomes, by what the code branches on.
module _ {C : Type 0} (P : C → Type 0) where
  pub if-by : (b : Bool) (x y : C) → (b ≡ true → P x) → (b ≡ false → P y) → P (if b then x else y)
  if-by true x y p q = p refl
  if-by false x y p q = q refl

  pub option-by :
      {A : Type 0} (o : Option A) (missing : C) (found : A → C)
      → P missing
      → ((a : A) → o ≡ some a → P (found a))
      → P (elim o as (λ x. C) [ none ↦ missing | some a ↦ found a ])
  option-by none missing found p q = p
  option-by (some a) missing found p q = q a refl

  pub result-by :
      {A : Type 0} (r : Result A) (failed : Error → C) (done : A → C)
      → ((e : Error) → P (failed e))
      → ((a : A) → r ≡ ok a → P (done a))
      → P (elim r as (λ x. C) [ err e ↦ failed e | ok a ↦ done a ])
  result-by (err e) failed done p q = p e
  result-by (ok a) failed done p q = q a refl

  -- A result that may hold nothing.
  pub offer-by :
      {A B : Type 0} (r : Result (Option (A × B))) (failed : Error → C) (nothing : C)
      (done : A → B → C)
      → ((e : Error) → P (failed e))
      → P nothing
      → ((a : A) (b : B) → r ≡ ok (some (a, b)) → P (done a b))
      → P (elim r as (λ x. C) [
        | err e ↦ failed e
        | ok none ↦ nothing
        | ok (some (a, b)) ↦ done a b
      ])
  offer-by (err e) failed nothing done p q s = p e
  offer-by (ok none) failed nothing done p q s = q
  offer-by (ok (some (a, b))) failed nothing done p q s = s a b refl

  -- A reading of the node that may fail and may find nothing.
  pub reading-by :
      {A : Type 0} (o : Option (Option A)) (failed absent : C) (found : A → C)
      → P failed
      → P absent
      → ((a : A) → P (found a))
      → P (elim o as (λ x. C) [ none ↦ failed | some none ↦ absent | some (some a) ↦ found a ])
  reading-by none failed absent found p q s = p
  reading-by (some none) failed absent found p q s = q
  reading-by (some (some a)) failed absent found p q s = s a

  pub known-by :
      (o : Option Bool) (failed known unknown : C)
      → P failed
      → P known
      → P unknown
      → P (elim o as (λ x. C) [ none ↦ failed | some true ↦ known | some false ↦ unknown ])
  known-by none failed known unknown p q s = p
  known-by (some true) failed known unknown p q s = q
  known-by (some false) failed known unknown p q s = s
