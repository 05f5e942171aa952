-- ===== src/Watcher.antt =====
-- `poll` and `emit` of internal/watcher/watcher.go. A snapshot is a map as a list in the order in
-- which it is ranged over; the channel is the list of its events; a walk that fails is `none`.
pub mod Changes
pub mod Poll
mod Tests
use foldermcp.Base.{
  ℕ, suc, ◌+◌, Bool, true, false, not, ◌||◌, List, [], ◌∷◌, ◌++◌, Option, none, some, Bytes,
  bytes_eq, length, ltb, ◌==◌, if◌then◌else◌,
}

pub data Kind : Type 0 where
  created : Kind
  modified : Kind
  deleted : Kind

pub record Event : Type 0 where
  pub path : Bytes
  pub kind : Kind

pub record FileInfo : Type 0 where
  pub mod_time : ℕ
  pub size : ℕ

abbrev pub Snapshot : Type 0
Snapshot = List (Bytes × FileInfo)

abbrev pub lookup : Bytes → Snapshot → Option FileInfo
lookup p [] = none
lookup p ((q, i) ∷ s) = let rest = lookup p s in if bytes_eq p q then some i else rest

abbrev pub differs : FileInfo → FileInfo → Bool
differs i old = not (i.mod_time == old.mod_time) || not (i.size == old.size)

abbrev pub event : Bytes → Kind → Event
event p k = record { path = p; kind = k }

-- The events that one entry of the new snapshot, and one of the old one, give.
pub event_of_new : Snapshot → Bytes → FileInfo → List Event
event_of_new old p i = elim (lookup p old) [
  | none ↦ event p created ∷ []
  | some o ↦ if differs i o then event p modified ∷ [] else []
]

pub event_of_old : Snapshot → Bytes → List Event
event_of_old new p = elim (lookup p new) [ none ↦ event p deleted ∷ [] | some i ↦ [] ]

pub changes : Snapshot → Snapshot → List Event
unfolding event_of_new
changes old [] = []
changes old ((p, i) ∷ new) = event_of_new old p i ++ changes old new

pub deletions : Snapshot → Snapshot → List Event
unfolding event_of_old
deletions new [] = []
deletions new ((p, i) ∷ old) = event_of_old new p ++ deletions new old

abbrev pub capacity : ℕ
capacity = 64

abbrev pub emit : List Event → Event → List Event
emit queue e = if ltb (length queue) capacity then queue ++ e ∷ [] else queue

abbrev pub emit_all : List Event → List Event → List Event
emit_all queue [] = queue
emit_all queue (e ∷ es) = emit_all (emit queue e) es

pub record Watcher : Type 0 where
  pub snapshot : Snapshot
  pub events : List Event
  pub consecutive_failures : ℕ

unfoldable pub poll : Watcher → Option Snapshot → Watcher
unfolding changes deletions
poll w none = record w { consecutive_failures = w.consecutive_failures + 1 }
poll w (some new) = record {
  snapshot = new;
  events = emit_all (emit_all w.events (changes w.snapshot new)) (deletions new w.snapshot);
  consecutive_failures = 0;
}
