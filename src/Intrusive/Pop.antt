-- ===== src/Intrusive/Pop.antt =====
-- `pop_front`, `pop_back` and `unlink` of src/container/intrusive/linked_list.rs.
use xx_core.Base.{◌≡◌, refl, true, false, Option, none, some, List, [], ◌∷◌, ◌++◌, arith, ◌==◌}
use xx_core.Intrusive.{
  Ptr, null, Heap, Run, done, panicked, linked, unlink, remove, pop_front, pop_back, append, ◌>>◌,
}
use xx_core.Intrusive.Links.{contains, contains-append}
use xx_core.Intrusive.Ring.{
  IsRing, IsUnlinked, SameOutside, linked-done, head-done, is_empty-cons, is_empty-nil,
}
use xx_core.Intrusive.Append.{append-IsRing}
use xx_core.Intrusive.Unlink.{remove-IsRing}

-- What it means to take the first node out of the list `xs`.
abbrev pub PopsFirst : Heap → Ptr → List Ptr → Run (Option Ptr) → Type 0
PopsFirst h base [] run = run ≡ done none h
PopsFirst h base (x ∷ xs) run =
    (g : Heap) × (run ≡ done (some x) g)
    × IsRing g base xs
    × IsUnlinked g x
    × SameOutside (base ∷ x ∷ xs) h g

-- `pop_front` takes the first node and leaves the rest in order, unlinks the node and changes no other
-- list; on the empty list it returns nothing and changes nothing.
pub pop_front-PopsFirst :
    (h : Heap) (base : Ptr) (xs : List Ptr)
    → IsRing h base xs
    → PopsFirst h base xs (pop_front base h)
unfolding pop_front
pop_front-PopsFirst h base [] r = rw (head-done r, is_empty-nil r) refl
pop_front-PopsFirst h base (x ∷ xs) r =
    let (g, q, s, u, same) = remove-IsRing h base x [] xs r in
    (g, rw (head-done r, is_empty-cons r, r.links.0, q) refl, s, u, same)

-- `pop_back` does what `pop_front` does: on a list of two nodes or more it takes the first and not the last.
pub pop_back-PopsFirst :
    (h : Heap) (base : Ptr) (xs : List Ptr)
    → IsRing h base xs
    → PopsFirst h base xs (pop_back base h)
unfolding pop_back pop_front
pop_back-PopsFirst h base xs r = pop_front-PopsFirst h base xs r

-- A node that was appended to a list comes out of it last: `pop_front` gives the nodes that were there before.
pub pop_front-append :
    (h : Heap) (base n x : Ptr) (xs : List Ptr)
    → IsRing h base (x ∷ xs)
    → h.live n ≡ true
    → (n == null) ≡ false
    → contains n (base ∷ x ∷ xs) ≡ false
    → (g : Heap) × ((append base n >> pop_front base) h ≡ done (some x) g)
      × IsRing g base (xs ++ n ∷ [])
pop_front-append h base n x xs r live real out =
    let (g, q, s, same) = append-IsRing h base n (x ∷ xs) r live real out in
    let (g', q', s', u, rest) = pop_front-PopsFirst g base (x ∷ (xs ++ n ∷ [])) s in
    (g', rw (q, q') refl, s')

-- `unlink` panics on a node that is in no list, and otherwise takes it out of its list.
pub unlink_unlinked :
    (h : Heap) (n : Ptr) → h.live n ≡ true → IsUnlinked h n → unlink n h ≡ panicked
unfolding unlink linked
unlink_unlinked h n live u = ground arith

pub unlink-remove :
    (h : Heap) (base n : Ptr) (xs ys : List Ptr)
    → IsRing h base (xs ++ n ∷ ys)
    → unlink n h ≡ remove n h
unfolding unlink remove
unlink-remove h base n xs ys r =
    rw (linked-done r n (ground (arith, contains-append n xs (n ∷ ys)))) refl
