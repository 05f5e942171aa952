-- ===== src/Watcher/Poll.antt =====
-- What a poll sends and keeps.
use foldermcp.Base.{
  ◌+◌, ◌≤◌, ◌≡◌, ◌↔◌, inl, inr, sym, ap, ◌∙◌, List, [], ◌∷◌, ◌++◌, append_assoc, append-nil, Option,
  none, some, arith, Bytes, length, length-append, take, suc, zero, ◌-◌, ℕ, refl, ltb, Bool-cases,
  Option-cases,
}
use mathlib.Core.Option.{some-injective, none-ne-some}
use mathlib.Core.List.{Memᴰ}
use mathlib.Core.List.Memᴰ
use foldermcp.Watcher.{
  deleted, Kind, Event, FileInfo, Snapshot, lookup, event_of_new, event_of_old, changes, deletions,
  capacity, emit, emit_all, Watcher, poll,
}
use foldermcp.Watcher.Changes.{
  IsMap, change_of, new_Single, old_Single, collect, collect_iff, changes-collect,
  deletions-collect, Mem-append_cases,
}

-- An event is in a list exactly when it is the change of its path between two snapshots.
abbrev pub AreChanges : Snapshot → Snapshot → List Event → Type 0
AreChanges old new es =
    (e : Event) → Memᴰ e es ↔ (change_of (lookup e.path old) (lookup e.path new) ≡ some e.kind)

take-nil {ℓ} : {A : Type ℓ} (n : ℕ) → take {A = A} n [] ≡ []
take-nil zero = refl
take-nil (suc n) = refl

take-all : (n : ℕ) (es : List Event) → length es ≤ n → take n es ≡ es
take-all zero [] h = refl
take-all zero (e ∷ es) h = absurd (omega arith)
take-all (suc n) [] h = refl
take-all (suc n) (e ∷ es) h = rw (take-all n es (omega arith))

new_each :
    (old : Snapshot) (p : Bytes) (i : FileInfo) (e : Event)
    → Memᴰ e (event_of_new old p i)
      ↔ ((e.path ≡ p) × (change_of (lookup e.path old) (some i) ≡ some e.kind))
new_each old p i e =
    let one = new_Single old p i e in
    ((λ m. let (q, c) = one.0 m in (q, rw q c)), (λ h. let (q, c) = h in one.1 (q, rw q at c)))

gone_each :
    (new : Snapshot) (p : Bytes) (i : FileInfo) (e : Event)
    → Memᴰ e (event_of_old new p)
      ↔ ((e.path ≡ p) × ((lookup e.path new ≡ none) × (e.kind ≡ deleted)))
gone_each new p i e =
    let one = old_Single new p e in
    (
      (λ m. let (q, l, k) = one.0 m in (q, (rw q l, k))),
      (λ h. let (q, (l, k)) = h in one.1 (q, rw q at l, k)),
    )

diff-AreChanges :
    (old new : Snapshot)
    → IsMap old
    → IsMap new
    → AreChanges old new (changes old new ++ deletions new old)
diff-AreChanges old new ho hn e =
    let grown =
      collect_iff (event_of_new old) (λ i e. change_of (lookup e.path old) (some i) ≡ some e.kind)
        (new_each old) new hn e in
    let gone =
      collect_iff (λ p i. event_of_old new p)
        (λ i e. (lookup e.path new ≡ none) × (e.kind ≡ deleted)) (gone_each new) old ho e in
    let first : changes old new ≡ collect (event_of_new old) new = changes-collect old new in
    let second : deletions new old ≡ collect (λ p i. event_of_old new p) old =
      deletions-collect new old in
    (
      (λ m. elim (Mem-append_cases (changes old new) m) [
        | inl a ↦ let (i, l, c) = grown.0 (rw first at a) in rw l c
        | inr b ↦
            let (o, l, (gone_now, k)) = gone.0 (rw second at b) in
            rw (l, gone_now) (ap (λ z. some z) (sym k))
      ]),
      (λ h. elim (Option-cases (lookup e.path new)) [
        | inr (i, l) ↦ Memᴰ.append_left (deletions new old) (rw first (grown.1 (i, l, rw l at h)))
        | inl l ↦ elim (Option-cases (lookup e.path old)) [
          | inl k ↦ absurd (none-ne-some e.kind (rw (l, k) at h))
          | inr (o, k) ↦
              let kind : deleted ≡ e.kind = some-injective deleted e.kind (rw (l, k) at h) in
              Memᴰ.append_right (changes old new) (rw second (gone.1 (o, k, (l, sym kind))))
        ]
      ]),
    )

-- What is sent into a channel: as many of the events as there is room for, from the first on.
emit_all-take :
    (es queue : List Event)
    → length queue ≤ 64
    → emit_all queue es ≡ queue ++ take (64 - length queue) es
emit_all-take [] queue h = rw (take-nil (64 - length queue)) (sym (append-nil queue))
emit_all-take (e ∷ es) queue h = elim (Bool-cases (ltb (length queue) capacity)) [
  | inl f ↦
      let grown = length-append queue (e ∷ []) in
      let size : length (queue ++ e ∷ []) ≤ 64 = ground (arith, grown) in
      let less : 64 - length queue ≡ suc (64 - length (queue ++ e ∷ [])) = ground (arith, grown) in
      rw (f, less, emit)
        (emit_all-take es (queue ++ e ∷ []) size
          ∙ append_assoc queue (e ∷ []) (take (64 - length (queue ++ e ∷ [])) es))
  | inr f ↦
      let full : 64 - length queue ≡ 0 = ground arith in
      rw (f, emit) (emit_all-take es queue h ∙ rw full)
]

emit_all-append :
    (xs ys queue : List Event) → emit_all (emit_all queue xs) ys ≡ emit_all queue (xs ++ ys)
emit_all-append [] ys queue = refl
emit_all-append (x ∷ xs) ys queue = emit_all-append xs ys (emit queue x)

poll-take :
    (w : Watcher) (new : Snapshot)
    → length w.events ≤ 64
    → poll w (some new) ≡ record {
      snapshot = new;
      events =
          w.events
          ++ take (64 - length w.events) (changes w.snapshot new ++ deletions new w.snapshot);
      consecutive_failures = 0;
    }
unfolding poll
poll-take w new h =
    rw (emit_all-append (changes w.snapshot new) (deletions new w.snapshot) w.events)
      (rw (emit_all-take (changes w.snapshot new ++ deletions new w.snapshot) w.events h))

unchanged : (o : Option FileInfo) (k : Kind) → change_of o o ≡ some k → ⊥
unchanged none k h = none-ne-some k h
unchanged (some i) k h = ground arith

-- Where the channel has room for them, a poll whose walk succeeds appends to the channel events that
-- are exactly the changes of the paths between the two snapshots: created for a path that is only in
-- the new one, deleted for one that is only in the old one, modified for one whose time or size
-- differs. The new snapshot is kept and the failures are counted from zero again.
pub poll-AreChanges :
    (w : Watcher) (new : Snapshot)
    → IsMap w.snapshot
    → IsMap new
    → length w.events + length (changes w.snapshot new ++ deletions new w.snapshot) ≤ 64
    → (es : List Event) × (poll w (some new)
        ≡ record { snapshot = new; events = w.events ++ es; consecutive_failures = 0 })
      × AreChanges w.snapshot new es
poll-AreChanges w new ho hn room =
    let es = changes w.snapshot new ++ deletions new w.snapshot in
    let whole : take (64 - length w.events) es ≡ es = take-all _ es (omega (arith, room)) in
    (es, poll-take w new (omega (arith, room)) ∙ rw whole, diff-AreChanges w.snapshot new ho hn)

-- In a list of all changes every event of a path that has not changed is missing.
AreChanges-self : (s : Snapshot) (es : List Event) → AreChanges s s es → es ≡ []
AreChanges-self s [] all = refl
AreChanges-self s (e ∷ es) all =
    absurd (unchanged (lookup e.path s) e.kind ((all e).0 (Memᴰ.head refl)))

-- A poll whose walk succeeds sends as many of the changes as the channel has room for, from the first
-- on, and drops the rest for good: once the new snapshot is kept, a poll that finds the folder as it
-- is sends nothing, whatever has been taken from the channel.
pub poll-lost :
    (w : Watcher) (new : Snapshot) (left : List Event)
    → IsMap w.snapshot
    → IsMap new
    → length w.events ≤ 64
    → length left ≤ 64
    → ((es : List Event) × ((poll w (some new)).events ≡ w.events ++ take (64 - length w.events) es)
        × AreChanges w.snapshot new es)
      × ((poll (record (poll w (some new)) { events = left }) (some new)).events ≡ left)
poll-lost w new left ho hn h room =
    let es = changes w.snapshot new ++ deletions new w.snapshot in
    let same = changes new new ++ deletions new new in
    let none_now : same ≡ [] = AreChanges-self new same (diff-AreChanges new new hn hn) in
    let sent = poll-take w new h in
    let again =
      poll-take (record { snapshot = new; events = left; consecutive_failures = 0 }) new room in
    (
      (es, ap (λ (v : Watcher). v.events) sent, diff-AreChanges w.snapshot new ho hn),
      rw sent (
          ap (λ (v : Watcher). v.events) again
          ∙ rw (none_now, take-nil (64 - length left)) (append-nil left)),
    )
