-- ===== src/Freebsd/Listing/Growing.antt =====
-- freebsd/list_devices.c: what an entry does to the linked list.
use aaruremote.Common.{
  ℕ, suc, ◌<◌, ◌≡◌, refl, sym, ap, ◌∙◌, Bool, true, false, Option, none, some, List, [], ◌∷◌, ◌++◌,
  length, length-append, subst, ◌==◌, Bool-cases, Option-cases, Meets, ==→eq, if_both, elim_both,
  elim_option, inl, inr, arith,
}
use aaruremote.Protocol.Structs.{DeviceInfo}
use aaruremote.Freebsd.Listing.{
  DevEntry, Node, Chain, write, link_current, first_of, entry_info, list_entry, freed_entry,
  kept_entry,
}
use aaruremote.Freebsd.Listing.Segments.{
  Seg, Tail, Good, Lost, none-some, Seg-other_store, Seg-snoc, write_at, write_apart,
}

-- What was freed stays so when the nodes are linked.
link_current-freed :
    (current : Option ℕ) (next : ℕ) (h : ℕ → Option Node) (a : ℕ)
    → h a ≡ none
    → Meets (λ h'. h' a ≡ none) (link_current current next h)
unfolding link_current
link_current-freed none next h a freed = freed
link_current-freed (some c) next h a freed = elim (Option-cases (h c)) [
  | inl gone ↦ rw (link_current, gone) tt
  | inr (n, live) ↦ elim (Bool-cases (a == c)) [
    | inl same ↦ absurd (none-some n (sym freed ∙ ap h (==→eq a c same) ∙ live))
    | inr apart ↦ rw (link_current, live) (write_apart h c _ a apart ∙ freed)
  ]
]

module _ (e : DevEntry) (s : Chain) where
  pub list_entry-Lost : Lost s → Meets Lost (list_entry e s)
  unfolding list_entry Lost first_of freed_entry kept_entry
  list_entry-Lost (a, start, freed, low) =
      let apart : (a == s.fresh) ≡ false = ground arith in
      if_both (Meets Lost) e.room _ none
        (elim_option (Meets Lost) (link_current s.list_current s.fresh s.store) none _
          (link_current-freed s.list_current s.fresh s.store a freed) tt
          (λ h held.
            elim_both (Meets Lost) (entry_info e) _ _
              (a, rw start refl, write_apart h s.fresh none a apart ∙ held, omega arith)
              (λ d. (a, rw start refl, write_apart h s.fresh _ a apart ∙ held, omega arith))))
        tt

link_current-live :
    (c next : ℕ) (h : ℕ → Option Node) (n : Node)
    → h c ≡ some n
    → link_current (some c) next h ≡ some (write h c (some (record n { next = some next })))
unfolding link_current
link_current-live c next h n live = rw (link_current, live) refl

first_of-Seg :
    (h : ℕ → Option Node) (n c : ℕ) (p : Option ℕ) (ds : List DeviceInfo) (next : ℕ)
    → Seg h n c p ds (some c)
    → first_of p next ≡ p
unfolding first_of Seg
first_of-Seg h n c p [] next seg = rw seg refl
first_of-Seg h n c p (d ∷ ds) next (a, r, here, low, other, node, seg) = rw here refl

module _ (s : Chain) (c : ℕ) (d : DeviceInfo) (low : c < s.fresh) where
  apart_from_fresh : (c == s.fresh) ≡ false
  apart_from_fresh = ground arith

  -- The last node, with its pointer to the new one.
  abbrev linked : Option Node
  linked = some (record { info = d; next = some s.fresh })

  linked_store : ℕ → Option Node
  unfolding write
  linked_store = write s.store c linked

  linked_last : (x : Option Node) → write linked_store s.fresh x c ≡ linked
  unfolding linked_store
  linked_last x = write_apart linked_store s.fresh x c apart_from_fresh ∙ write_at s.store c linked

  linked_others :
      (x : Option Node) (a : ℕ)
      → a < s.fresh
      → (a == c) ≡ false
      → write linked_store s.fresh x a ≡ s.store a
  unfolding linked_store
  linked_others x a low_a other =
      write_apart linked_store s.fresh x a (ground arith) ∙ write_apart s.store c linked a other

  module _ (front : List DeviceInfo) (short : length front < s.fresh)
      (current : s.list_current ≡ some c)
      (seg : Seg s.store s.fresh c s.list_start front (some c)) where
    freed_entry-Good : Good (freed_entry linked_store s) (front ++ d ∷ []) false
    unfolding Good Tail freed_entry
    freed_entry-Good = (
      c,
      front,
      d,
      some s.fresh,
      refl,
      current,
      omega arith,
      omega arith,
      linked_last none,
      subst (λ p. Seg (write linked_store s.fresh none) (suc s.fresh) c p front (some c))
          (sym (first_of-Seg s.store s.fresh c s.list_start front s.fresh seg))
          (Seg-other_store s.store _ s.fresh c c s.list_start front (some c)
            (λ a low_a other. (linked_others none a low_a other, other)) seg),
      (s.fresh, refl, write_at linked_store s.fresh none),
    )

    kept_entry-Good :
        (info : DeviceInfo)
        → Good (kept_entry linked_store info s) ((front ++ d ∷ []) ++ info ∷ []) true
    unfolding Good Tail kept_entry
    kept_entry-Good info =
        let node : Option Node = some (record { info = info; next = none }) in
        let store = write linked_store s.fresh node in
        (
          s.fresh,
          front ++ d ∷ [],
          info,
          none,
          refl,
          refl,
          omega arith,
          omega (arith, length-append front (d ∷ [])),
          write_at linked_store s.fresh node,
          subst (λ p. Seg store (suc s.fresh) s.fresh p (front ++ d ∷ []) (some s.fresh))
              (sym (first_of-Seg s.store s.fresh c s.list_start front s.fresh seg))
              (Seg-snoc store (suc s.fresh) s.fresh s.list_start front c d (some s.fresh)
                (Seg-other_store s.store store s.fresh c s.fresh s.list_start front (some c)
                  (λ a low_a other. (linked_others node a low_a other, ground arith)) seg)
                (omega arith) apart_from_fresh (linked_last node)),
          refl,
        )

-- The list when an entry is not listed, and when it is.
unfoldable pub Grown : List DeviceInfo → Option DeviceInfo → Chain → Type 0
Grown ds none s = Good s ds false
Grown ds (some d) s = Good s (ds ++ d ∷ []) true

pub list_entry-Grown :
    (e : DevEntry) (s : Chain) (ds : List DeviceInfo) (ends : Bool)
    → e.room ≡ true
    → Good s ds ends
    → (s' : Chain) × (list_entry e s ≡ some s') × Grown ds (entry_info e) s'
unfolding list_entry Grown Good linked_store
list_entry-Grown e s ds ends room (c, front, d, t, split, current, low, short, node, seg, tail) =
    let links : link_current s.list_current s.fresh s.store ≡ some (linked_store s c d low) =
      ap (λ q. link_current q s.fresh s.store) current
      ∙ link_current-live c s.fresh s.store _ node in
    elim (Option-cases (entry_info e)) [
      | inl skipped ↦ (
        freed_entry (linked_store s c d low) s,
        rw (list_entry, room, links, skipped) refl,
        subst (λ o. Grown ds o (freed_entry (linked_store s c d low) s)) (sym skipped)
            (subst (λ q. Good (freed_entry (linked_store s c d low) s) q false) (sym split)
              (freed_entry-Good s c d low front short current seg)),
      )
      | inr (info, known) ↦ (
        kept_entry (linked_store s c d low) info s,
        rw (list_entry, room, links, known) refl,
        subst (λ o. Grown ds o (kept_entry (linked_store s c d low) info s)) (sym known)
            (subst (λ q. Good (kept_entry (linked_store s c d low) info s) (q ++ info ∷ []) true)
              (sym split) (kept_entry-Good s c d low front short current seg info)),
      )
    ]
