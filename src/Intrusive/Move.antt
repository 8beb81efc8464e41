-- ===== src/Intrusive/Move.antt =====
-- `move_elements` and `pin` of src/container/intrusive/linked_list.rs.
use xx_core.Base.{◌≡◌, refl, ◌≢◌, true, false, List, [], ◌∷◌, arith, ◌==◌}
use xx_core.Intrusive.{Ptr, null, Heap, done, update, move_elements, pin}
use xx_core.Intrusive.Links.{contains, Links, contains-last, ne_of_contains, Links-relink}
use xx_core.Intrusive.Ring.{
  AllLive-same, IsRing, is_empty-cons, is_empty-nil, live_in, prev_in, next_in,
}

abbrev moved : Heap → Ptr → Ptr → Heap
moved h base other = record h {
  prev = update (update (update h.prev other (h.prev base)) (h.next base) other) base base;
  next = update (update (update h.next (h.prev base) other) other (h.next base)) base base;
}

module _ (h : Heap) (base other x : Ptr) (xs : List Ptr) (r : IsRing h base (x ∷ xs))
    (o : IsRing h other []) (out : contains other (base ∷ x ∷ xs) ≡ false) where
  abbrev g : Heap
  g = moved h base other

  first : contains base (base ∷ x ∷ xs) ≡ true
  first = ground arith

  last : contains (h.prev base) (x ∷ xs) ≡ true
  last = contains-last h.prev h.next x base xs r.links.2

  other_live : h.live other ≡ true
  other_live = live_in o other (ground arith)

  base_live : h.live base ≡ true
  base_live = live_in r base first

  other_out : contains other (x ∷ xs) ≡ false
  other_out = ground arith

  other_apart : (other ≢ base) × (other ≢ x)
  other_apart = (ground arith, ground arith)

  move_elements-done : move_elements base other h ≡ done tt g
  unfolding move_elements
  move_elements-done =
      rw
        (
          is_empty-nil o,
          is_empty-cons r,
          base_live,
          base_live,
          other_live,
          live_in r (h.prev base) (prev_in r base first),
          other_live,
          live_in r (h.next base) (next_in r base first),
          base_live,
          base_live,
        )
        refl

  chain : Links g.prev g.next x xs other
  chain =
      Links-relink h.prev h.next g.prev g.next x base other xs r.links.2 r.distinct.1
        (λ a m ne. ground (
          arith,
          ne_of_contains other a (x ∷ xs) other_out m,
          ne_of_contains base a (x ∷ xs) r.distinct.0 m,
        ))
        (λ a m. ground (
          arith,
          r.links.0,
          ne_of_contains other a (x ∷ xs) other_out (ground arith),
          ne_of_contains base a (x ∷ xs) r.distinct.0 (ground arith),
          ne_of_contains x a xs r.distinct.1.0 m,
        ))
        (ground (
          arith,
          ne_of_contains other (h.prev base) (x ∷ xs) other_out last,
          ne_of_contains base (h.prev base) (x ∷ xs) r.distinct.0 last,
        ))
        (ground (arith, r.links.0, other_apart))

  moved-IsRing : IsRing g other (x ∷ xs)
  moved-IsRing = record {
    links =
        (ground (arith, r.links.0, other_apart), ground (arith, r.links.0, r.distinct.0), chain);
    distinct = (ground arith, r.distinct.1);
    all_live = (other_live, o.all_live.1, AllLive-same h g (λ a. refl) (x ∷ xs) r.all_live.2);
  }

  left-IsRing : IsRing g base []
  left-IsRing = record {
    links = (ground arith, ground arith);
    distinct = (refl, tt);
    all_live = (base_live, r.all_live.1, tt);
  }

-- `move_elements` moves all nodes, in order, into the other list, which must be empty, and leaves the list
-- empty.
pub move_elements-IsRing :
    (h : Heap) (base other : Ptr) (xs : List Ptr)
    → IsRing h base xs
    → IsRing h other []
    → contains other (base ∷ xs) ≡ false
    → (g : Heap) × (move_elements base other h ≡ done tt g) × IsRing g other xs × IsRing g base []
unfolding move_elements
move_elements-IsRing h base other [] r o out = (h, rw (is_empty-nil o, is_empty-nil r) refl, o, r)
move_elements-IsRing h base other (x ∷ xs) r o out = (
  moved h base other,
  move_elements-done h base other x xs r o out,
  moved-IsRing h base other x xs r o out,
  left-IsRing h base other x xs r o out,
)

-- `pin` makes an empty list of a live node.
pub pin-IsRing :
    (h : Heap) (base : Ptr)
    → h.live base ≡ true
    → (base == null) ≡ false
    → (g : Heap) × (pin base h ≡ done tt g) × IsRing g base []
unfolding pin
pin-IsRing h base live real = (
  record h { prev = update h.prev base base; next = update h.next base base },
  rw (live, live) refl,
  record {
    links = (ground arith, ground arith);
    distinct = (refl, tt);
    all_live = (live, real, tt);
  },
)
