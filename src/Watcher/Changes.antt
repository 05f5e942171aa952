-- ===== src/Watcher/Changes.antt =====
-- The events of a poll.
use foldermcp.Base.{
  ◌≡◌, ◌≢◌, ◌↔◌, ◌⊎◌, inl, inr, refl, sym, ap, ◌∙◌, true, false, List, [], ◌∷◌, ◌++◌, Option, none,
  some, Bytes, bytes_eq, bytes_eq_iff, if◌then◌else◌, All, AllPairs, Bool-cases, Option-cases,
}
use mathlib.Core.Option.{some-injective, none-ne-some}
use mathlib.Core.List.{Memᴰ}
use mathlib.Core.List.Memᴰ
use foldermcp.Watcher.{
  Kind, created, modified, deleted, Event, event, FileInfo, Snapshot, lookup, differs, event_of_new,
  event_of_old, changes, deletions,
}

-- What happened to a file, from its entries in two snapshots.
abbrev pub change_of : Option FileInfo → Option FileInfo → Option Kind
change_of none none = none
change_of none (some i) = some created
change_of (some o) none = some deleted
change_of (some o) (some i) = if differs i o then some modified else none

-- No path twice.
abbrev pub IsMap : Snapshot → Type 0
IsMap s = AllPairs (λ a b. a.0 ≢ b.0) s

pub Mem-append_cases :
    (xs : List Event) {e : Event} {ys : List Event} → Memᴰ e (xs ++ ys) → Memᴰ e xs ⊎ Memᴰ e ys
Mem-append_cases [] m = inr m
Mem-append_cases (x ∷ xs) (Memᴰ.head q) = inl (Memᴰ.head q)
Mem-append_cases (x ∷ xs) (Memᴰ.tail m) = elim (Mem-append_cases xs m) [
  | inl a ↦ inl (Memᴰ.tail a)
  | inr b ↦ inr b
]

-- An event of a path and a kind, against a kind that is looked for.
abbrev pub Single : Event → Bytes → List Event → Option Kind → Type 0
Single e p es k = Memᴰ e es ↔ ((e.path ≡ p) × (k ≡ some e.kind))

event_eq : (e : Event) (p : Bytes) (k : Kind) → e.path ≡ p → k ≡ e.kind → e ≡ event p k
event_eq e p k q r = rw (sym q, r)

Single-one : (e : Event) (p : Bytes) (k : Kind) → Single e p (event p k ∷ []) (some k)
Single-one e p k = (
  (λ m. elim m [
    | Memᴰ.head q ↦ (ap (λ (x : Event). x.path) q, ap (λ (x : Event). some x.kind) (sym q))
    | Memᴰ.tail n ↦ elim n [ ]
  ]),
  (λ h. Memᴰ.head (event_eq e p k h.0 (some-injective k e.kind h.1))),
)

Single-none : (e : Event) (p : Bytes) → Single e p [] none
Single-none e p = ((λ m. elim m [ ]), (λ h. absurd (none-ne-some e.kind h.1)))

pub new_Single :
    (old : Snapshot) (p : Bytes) (i : FileInfo) (e : Event)
    → Single e p (event_of_new old p i) (change_of (lookup p old) (some i))
unfolding event_of_new
new_Single old p i e = elim (Option-cases (lookup p old)) [
  | inl a ↦ rw (a, event_of_new) (Single-one e p created)
  | inr (o, a) ↦ elim (Bool-cases (differs i o)) [
    | inl d ↦ rw (a, event_of_new) (rw d (Single-one e p modified))
    | inr d ↦ rw (a, event_of_new) (rw d (Single-none e p))
  ]
]

pub old_Single :
    (new : Snapshot) (p : Bytes) (e : Event)
    → Memᴰ e (event_of_old new p) ↔ ((e.path ≡ p) × (lookup p new ≡ none) × (e.kind ≡ deleted))
unfolding event_of_old
old_Single new p e = elim (Option-cases (lookup p new)) [
  | inl a ↦
      let one = Single-one e p deleted in
      rw (a, event_of_old)
        (
          (λ m. let h = one.0 m in (h.0, refl, sym (some-injective deleted e.kind h.1))),
          (λ h. let (q, _, k) = h in one.1 (q, ap (λ z. some z) (sym k))),
        )
  | inr (i, a) ↦
      rw (a, event_of_old)
        ((λ m. elim m [ ]), (λ h. let (q, l, k) = h in absurd (none-ne-some i (sym l))))
]

-- What the entries of a snapshot give, one after the other.
pub collect : (Bytes → FileInfo → List Event) → Snapshot → List Event
collect f [] = []
collect f ((p, i) ∷ s) = f p i ++ collect f s

not_first :
    (p q : Bytes) (s : Snapshot) (i : FileInfo)
    → All (λ (b : Bytes × FileInfo). p ≢ b.0) s
    → lookup q s ≡ some i
    → bytes_eq q p ≡ false
not_first p q [] i h l = absurd (none-ne-some i l)
not_first p q ((r, j) ∷ s) i h l = elim (Bool-cases (bytes_eq q p)) [
  | inr e ↦ e
  | inl e ↦
      let same : q ≡ p = (bytes_eq_iff q p).0 e in
      elim (Bool-cases (bytes_eq q r)) [
        | inl f ↦ absurd (h.0 (sym same ∙ (bytes_eq_iff q r).0 f))
        | inr f ↦ not_first p q s i h.1 (rw (f, lookup) at l)
      ]
]

module _ (f : Bytes → FileInfo → List Event) (C : FileInfo → Event → Type 0)
    (each : (p : Bytes) (i : FileInfo) (e : Event) → Memᴰ e (f p i) ↔ ((e.path ≡ p) × C i e)) where
  pub collect_iff :
      (s : Snapshot)
      → IsMap s
      → (e : Event) → Memᴰ e (collect f s) ↔ ((i : FileInfo) × (lookup e.path s ≡ some i) × C i e)
  unfolding collect
  collect_iff [] h e = ((λ m. elim m [ ]), (λ k. let (i, l, c) = k in absurd (none-ne-some i l)))
  collect_iff ((p, i) ∷ s) h e =
      let rest = collect_iff s h.1 e in
      (
        (λ m. elim (Mem-append_cases (f p i) m) [
          | inl a ↦
              let (q, c) = (each p i e).0 a in
              let same : bytes_eq e.path p ≡ true = (bytes_eq_iff e.path p).1 q in
              (i, rw (same, lookup), c)
          | inr b ↦
              let (j, l, c) = rest.0 b in
              let other = not_first p e.path s j h.0 l in (j, rw (other, lookup) l, c)
        ]),
        (λ k.
            let (j, l, c) = k in
            elim (Bool-cases (bytes_eq e.path p)) [
              | inl q ↦
                  let same : some i ≡ some j = rw (q, lookup) at l in
                  let here : C i e = rw (some-injective i j same) c in
                  Memᴰ.append_left (collect f s)
                    ((each p i e).1 ((bytes_eq_iff e.path p).0 q, here))
              | inr q ↦ Memᴰ.append_right (f p i) (rest.1 (j, rw (q, lookup) at l, c))
            ]),
      )

pub changes-collect : (old new : Snapshot) → changes old new ≡ collect (event_of_new old) new
unfolding changes collect
changes-collect old [] = refl
changes-collect old ((p, i) ∷ new) = rw (changes-collect old new)

pub deletions-collect :
    (new old : Snapshot) → deletions new old ≡ collect (λ p i. event_of_old new p) old
unfolding deletions collect
deletions-collect new [] = refl
deletions-collect new ((p, i) ∷ old) = rw (deletions-collect new old)
