-- ===== src/Watcher/Tests.antt =====
-- A poll of a small folder, and the theorems at it.
use foldermcp.Base.{
  ℕ, zero, suc, ◌-◌, take, ◌≡◌, refl, List, [], ◌∷◌, ◌++◌, some, arith, codes, length, bytes_eq_iff,
}
use mathlib.Core.Bool.{false≢true}
use foldermcp.Watcher.{Event, event, created, modified, deleted, Snapshot, Watcher, poll}
use foldermcp.Watcher.Changes.{IsMap}
use foldermcp.Watcher.Poll.{AreChanges, poll-AreChanges, poll-lost}

abbrev before : Snapshot
before =
    (codes "a", record { mod_time = 1; size = 5 })
    ∷ (codes "b", record { mod_time = 1; size = 7 })
    ∷ []

abbrev after : Snapshot
after =
    (codes "b", record { mod_time = 2; size = 7 })
    ∷ (codes "c", record { mod_time = 2; size = 1 })
    ∷ []

abbrev watching : Watcher
watching = record { snapshot = before; events = []; consecutive_failures = 2 }

before-IsMap : IsMap before
before-IsMap = (((λ h. false≢true ((bytes_eq_iff (codes "a") (codes "b")).1 h)), tt), (tt, tt))

after-IsMap : IsMap after
after-IsMap = (((λ h. false≢true ((bytes_eq_iff (codes "b") (codes "c")).1 h)), tt), (tt, tt))

poll_events :
    (poll watching (some after)).events
    ≡ event (codes "b") modified ∷ event (codes "c") created ∷ event (codes "a") deleted ∷ []
unfolding poll
poll_events = refl

poll-AreChanges_example :
    (es : List Event) × (poll watching (some after)
      ≡ record { snapshot = after; events = [] ++ es; consecutive_failures = 0 })
    × AreChanges before after es
unfolding poll
poll-AreChanges_example = poll-AreChanges watching after before-IsMap after-IsMap (omega arith)

-- The channel of the watcher is full.
abbrev full : ℕ → List Event
full zero = []
full (suc n) = event (codes "z") modified ∷ full n

abbrev blocked : Watcher
blocked = record { snapshot = before; events = full 64; consecutive_failures = 0 }

poll-lost_example :
    ((es : List Event) × ((poll blocked (some after)).events
        ≡ full 64 ++ take (64 - length (full 64)) es)
      × AreChanges before after es)
    × ((poll (record (poll blocked (some after)) { events = [] }) (some after)).events ≡ [])
poll-lost_example = poll-lost blocked after [] before-IsMap after-IsMap (omega arith) (omega arith)
