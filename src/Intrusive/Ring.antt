-- ===== src/Intrusive/Ring.antt =====
-- The invariant of a pinned `LinkedList`: a ring of live nodes through its base, in order.
use xx_core.Base.{◌≡◌, refl, ◌∙◌, true, false, List, [], ◌∷◌, ◌++◌, arith, ◌==◌}
use xx_core.Intrusive.{Ptr, null, Heap, done, linked, head, is_empty}
use xx_core.Intrusive.Links.{contains, Distinct, Links, contains-prev, contains-next}

abbrev pub AllLive : Heap → List Ptr → Type 0
AllLive h [] = Unit {0}
AllLive h (p ∷ ps) = (h.live p ≡ true) × ((p == null) ≡ false) × AllLive h ps

pub record IsRing (h : Heap) (base : Ptr) (xs : List Ptr) : Type 0 where
  pub links : Links h.prev h.next base xs base
  pub distinct : Distinct (base ∷ xs)
  pub all_live : AllLive h (base ∷ xs)

-- Both pointers of a node that is in no list are null.
pub record IsUnlinked (h : Heap) (p : Ptr) : Type 0 where
  pub prev : h.prev p ≡ null
  pub next : h.next p ≡ null

-- The heaps agree outside a ring.
abbrev pub SameOutside : List Ptr → Heap → Heap → Type 0
SameOutside ps h g =
    (a : Ptr) → contains a ps ≡ false → (g.prev a ≡ h.prev a) × (g.next a ≡ h.next a)

pub AllLive-append :
    (h : Heap) (ps qs : List Ptr) → AllLive h ps → AllLive h qs → AllLive h (ps ++ qs)
AllLive-append h [] qs l m = m
AllLive-append h (p ∷ ps) qs l m = (l.0, l.1, AllLive-append h ps qs l.2 m)

pub AllLive-same :
    (h g : Heap) → ((a : Ptr) → g.live a ≡ h.live a) → (ps : List Ptr) → AllLive h ps → AllLive g ps
AllLive-same h g e [] l = tt
AllLive-same h g e (p ∷ ps) l = (e p ∙ l.0, l.1, AllLive-same h g e ps l.2)

pub AllLive-remove :
    (h : Heap) (a : Ptr) (ps qs : List Ptr) → AllLive h (ps ++ a ∷ qs) → AllLive h (ps ++ qs)
AllLive-remove h a [] qs l = l.2
AllLive-remove h a (p ∷ ps) qs l = (l.0, l.1, AllLive-remove h a ps qs l.2)

pub live_of_contains :
    (h : Heap) (a : Ptr) (ps : List Ptr)
    → AllLive h ps
    → contains a ps ≡ true
    → (h.live a ≡ true) × ((a == null) ≡ false)
live_of_contains h a [] l m = absurd (ground arith)
live_of_contains h a (p ∷ ps) l m = ground (arith, live_of_contains h a ps l.2)

module _ {h : Heap} {base : Ptr} {xs : List Ptr} (r : IsRing h base xs) (a : Ptr)
    (m : contains a (base ∷ xs) ≡ true) where
  pub live_in : h.live a ≡ true
  live_in = (live_of_contains h a (base ∷ xs) r.all_live m).0

  pub prev_in : contains (h.prev a) (base ∷ xs) ≡ true
  prev_in = contains-prev h.prev h.next base base a xs r.links m

  pub next_in : contains (h.next a) (base ∷ xs) ≡ true
  next_in = contains-next h.prev h.next base base a xs r.links m

  -- A node of the ring is linked.
  pub linked-done : linked a h ≡ done true h
  unfolding linked
  linked-done =
      let p = live_of_contains h (h.prev a) (base ∷ xs) r.all_live prev_in in
      let n = live_of_contains h (h.next a) (base ∷ xs) r.all_live next_in in
      rw (live_in, p.1, live_in, n.1) refl

module _ {h : Heap} {base : Ptr} where
  -- `head` and `is_empty` of a ring.
  pub head-done : {xs : List Ptr} → IsRing h base xs → head base h ≡ done (h.next base) h
  unfolding head
  head-done {xs} r =
      let m : contains base (base ∷ xs) ≡ true = ground arith in
      rw (live_in r base m, linked-done r (h.next base) (next_in r base m)) refl

  pub is_empty-cons :
      {x : Ptr} {xs : List Ptr} → IsRing h base (x ∷ xs) → is_empty base h ≡ done false h
  unfolding is_empty
  is_empty-cons {x} {xs} r =
      let ne : (base == h.next base) ≡ false = ground (arith, r.links.0, r.distinct.0) in
      rw (head-done r, ne) refl

  pub is_empty-nil : IsRing h base [] → is_empty base h ≡ done true h
  unfolding is_empty
  is_empty-nil r =
      let eq : (base == h.next base) ≡ true = ground (arith, r.links.0) in rw (head-done r, eq) refl
