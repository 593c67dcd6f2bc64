-- ===== src/Sync/Events/Laws.antt =====
-- The order in which the events of several streams are processed.
use p4sync_git.Prelude.{
  ℕ, ◌≡◌, ◌<◌, ◌⊎◌, Bool, true, false, not, List, [], ◌∷◌, All, keep, take, ◌==◌, ◌&&◌,
  if◌then◌else◌,
}
use p4sync_git.Exec.{Result, ok, err}
use p4sync_git.Sync.Events.{SyncEvent, branch_create, changelist, event_cl}

-- `a` may stand before `b`: by their numbers, and no changelist before a new branch of its number
abbrev pub NotBehind : SyncEvent → SyncEvent → Type 0
NotBehind (changelist cl stream branch) (branch_create n s parent b) = ⊥
NotBehind a b = Unit

abbrev pub Precedes : SyncEvent → SyncEvent → Type 0
Precedes a b = (event_cl a < event_cl b) ⊎ ((event_cl a ≡ event_cl b) × NotBehind a b)

-- Each event may stand before all that follow it.
abbrev pub InOrder : List SyncEvent → Type 0
InOrder [] = Unit
InOrder (e ∷ es) = All (Precedes e) es × InOrder es

abbrev pub is_branch : SyncEvent → Bool
is_branch (branch_create cl stream parent branch) = true
is_branch (changelist cl stream branch) = false

-- the events of one number that make a branch, or that do not
abbrev pub is_at : ℕ → Bool → SyncEvent → Bool
is_at cl b e = (event_cl e == cl) && (if is_branch e then b else not b)

-- what a batch is of the events that were gathered
abbrev pub Batch : ℕ → Result (List SyncEvent) → Result (List SyncEvent) → Type 0
Batch size (err e) r = r ≡ err e
Batch size (ok gathered) r =
    (ordered : List SyncEvent) × (r ≡ ok (take size ordered))
    × InOrder ordered
    × ((cl : ℕ) (b : Bool) → keep (is_at cl b) ordered ≡ keep (is_at cl b) gathered)
