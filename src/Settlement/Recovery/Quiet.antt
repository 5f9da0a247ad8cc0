-- ===== src/Settlement/Recovery/Quiet.antt =====
-- internal/settlement/recovery.go: after a failed re-broadcast has been counted, recovery leaves the
-- transaction alone for the whole delay.
use facilitator.Base.{ℕ, ◌+◌, ◌≢◌, some, List, Memᴰ, Text, true}
use mathlib.Core.List.Memᴰ
use facilitator.Settlement.Work.{Work}
use facilitator.Settlement.Service.{World}
use facilitator.Settlement.Confirmation.{Receipt}
use facilitator.Settlement.Recovery.{Surroundings}
use facilitator.Store.Schema.{Transaction, Db}

-- The counted retry of the row `t`.
abbrev pub retried : ℕ → Transaction → Transaction
retried clock t = record t { ambiguous_attempts = t.ambiguous_attempts + 1; updated_at = clock }

abbrev pub visited : Db → ℕ → List (ℕ × Text) → World
visited e now sent = record { db = record e { clock = now }; sent = sent }

-- The node neither has a receipt of a transaction nor knows it.
abbrev pub Unseen : Surroundings → Type 0
Unseen outside =
    ((hash : Text) (r : Receipt) → outside.chain.transaction_receipt hash ≢ some (some r))
    × ((hash : Text) → outside.knows hash ≢ some true)
