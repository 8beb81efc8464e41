-- ===== src/Intrusive/Unlink.antt =====
-- `unlink_unchecked`, `unlink`, `remove`, `pop_front` and `pop_back` of src/container/intrusive/linked_list.rs.
use xx_core.Base.{
  ◌≡◌, refl, sym, ◌∙◌, ◌≢◌, true, false, ◌||◌, List, [], ◌∷◌, ◌++◌, append-nil, arith,
}
use mathlib.Core.Path.{subst}
use xx_core.Intrusive.{Ptr, null, Heap, done, update, unlink_unchecked, remove}
use xx_core.Intrusive.Links.{
  contains, Distinct, Links, contains-append, contains-last, contains-next, ne_of_contains,
  Links-append, Links-split, Links-relink, Links-frame,
}
use xx_core.Intrusive.Ring.{
  AllLive-same, AllLive-remove, IsRing, IsUnlinked, SameOutside, live_in, prev_in, next_in,
  linked-done,
}

Distinct-append :
    (xs ys : List Ptr)
    → Distinct (xs ++ ys)
    → Distinct xs × Distinct ys × ((a : Ptr) → contains a xs ≡ true → contains a ys ≡ false)
Distinct-append [] ys d = (tt, d, λ a m. absurd (ground arith))
Distinct-append (x ∷ xs) ys d =
    let (e, f, apart) = Distinct-append xs ys d.1 in
    let out : (contains x xs || contains x ys) ≡ false = sym (contains-append x xs ys) ∙ d.0 in
    ((ground arith, e), f, λ a m. ground (arith, apart a))

Distinct-remove : (a : Ptr) (xs ys : List Ptr) → Distinct (xs ++ a ∷ ys) → Distinct (xs ++ ys)
Distinct-remove a [] ys d = d.1
Distinct-remove a (x ∷ xs) ys d = (
  ground (arith, contains-append x xs (a ∷ ys), contains-append x xs ys),
  Distinct-remove a xs ys d.1,
)

abbrev unlinked : Heap → Ptr → Heap
unlinked h n = record h {
  prev = update (update h.prev n null) (h.next n) (h.prev n);
  next = update (update h.next n null) (h.prev n) (h.next n);
}

module _ (h : Heap) (base n : Ptr) (xs ys : List Ptr) (r : IsRing h base (xs ++ n ∷ ys)) where
  inside : contains n (base ∷ (xs ++ n ∷ ys)) ≡ true
  inside = ground (arith, contains-append n xs (n ∷ ys))

  apart :
      Distinct (base ∷ xs)
      × Distinct (n ∷ ys)
      × ((a : Ptr) → contains a (base ∷ xs) ≡ true → contains a (n ∷ ys) ≡ false)
  apart = Distinct-append (base ∷ xs) (n ∷ ys) r.distinct

  chains : Links h.prev h.next base xs n × Links h.prev h.next n ys base
  chains = Links-split h.prev h.next base n base xs ys r.links

  -- The neighbour in front stands in front.
  prev_front : contains (h.prev n) (base ∷ xs) ≡ true
  prev_front = contains-last h.prev h.next base n xs chains.0

  next_behind : contains (h.next n) (base ∷ ys) ≡ true
  next_behind = contains-next h.prev h.next n base n ys chains.1 (ground arith)

  out_front : contains n (base ∷ xs) ≡ false
  out_front = ground (arith, apart.2 n)

  out_behind : contains n (base ∷ ys) ≡ false
  out_behind = ground (arith, apart.1.0, out_front)

  alive : h.live n ≡ true
  alive = live_in r n inside

  unlink_unchecked-done : unlink_unchecked n h ≡ done tt (unlinked h n)
  unfolding unlink_unchecked
  unlink_unchecked-done =
      rw
        (
          linked-done r n inside,
          alive,
          alive,
          alive,
          alive,
          live_in r (h.prev n) (prev_in r n inside),
          live_in r (h.next n) (next_in r n inside),
        )
        refl

  abbrev g : Heap
  g = unlinked h n

  n-IsUnlinked : IsUnlinked g n
  n-IsUnlinked = record {
    prev = ground (arith, ne_of_contains n (h.next n) (base ∷ ys) out_behind next_behind);
    next = ground (arith, ne_of_contains n (h.prev n) (base ∷ xs) out_front prev_front);
  }

  unlinked-SameOutside : SameOutside (base ∷ (xs ++ n ∷ ys)) h g
  unlinked-SameOutside a m =
      let apart_prev = ne_of_contains a (h.prev n) (base ∷ (xs ++ n ∷ ys)) m (prev_in r n inside) in
      let apart_next = ne_of_contains a (h.next n) (base ∷ (xs ++ n ∷ ys)) m (next_in r n inside) in
      let apart_self = ne_of_contains a n (base ∷ (xs ++ n ∷ ys)) m inside in ground arith

  -- The chain in front of the node now ends behind it.
  front_chain : Links g.prev g.next base xs (h.next n)
  front_chain =
      Links-relink h.prev h.next g.prev g.next base n (h.next n) xs chains.0 apart.0
        (λ a m ne. ground (arith, ne_of_contains n a (base ∷ xs) out_front m))
        (λ a m. ground (
          arith,
          ne_of_contains n a (base ∷ xs) out_front (ground arith),
          ne_of_contains a (h.next n) (base ∷ ys) (out a m) next_behind,
        ))
        (ground (arith, ne_of_contains n (h.prev n) (base ∷ xs) out_front prev_front))
        (ground (arith, ne_of_contains n (h.next n) (base ∷ ys) out_behind next_behind))
    where
      out : (a : Ptr) → contains a xs ≡ true → contains a (base ∷ ys) ≡ false
      out a m = ground (arith, apart.2 a, ne_of_contains base a xs apart.0.0 m)

unlinked-Links :
    (h : Heap) (base n : Ptr) (xs ys : List Ptr)
    → IsRing h base (xs ++ n ∷ ys)
    → Links (unlinked h n).prev (unlinked h n).next base (xs ++ ys) base
unlinked-Links h base n xs [] r =
    let c = chains h base n xs [] r in
    rw append-nil (
      subst (Links (unlinked h n).prev (unlinked h n).next base xs) c.1.0
        (front_chain h base n xs [] r))
unlinked-Links h base n xs (y ∷ ys) r =
    let c = chains h base n xs (y ∷ ys) r in
    let front =
      subst (Links (unlinked h n).prev (unlinked h n).next base xs) c.1.0
        (front_chain h base n xs (y ∷ ys) r) in
    Links-append (unlinked h n).prev (unlinked h n).next base y base xs ys front (
      Links-frame h.prev h.next (unlinked h n).prev (unlinked h n).next y base ys c.1.2
        (λ a m. ground (
          arith,
          ne_of_contains n a (y ∷ ys) d.1.0 m,
          ne_of_contains (h.prev n) a (y ∷ ys) behind m,
        ))
        (λ a m. ground (
          arith,
          ne_of_contains n a (base ∷ y ∷ ys) (out_behind h base n xs (y ∷ ys) r) (ground arith),
          c.1.0,
          not_next a m,
        )))
  where
    d :
        Distinct (base ∷ xs)
        × Distinct (n ∷ y ∷ ys)
        × ((a : Ptr) → contains a (base ∷ xs) ≡ true → contains a (n ∷ y ∷ ys) ≡ false)
    d = apart h base n xs (y ∷ ys) r

    behind : contains (h.prev n) (y ∷ ys) ≡ false
    behind = ground (arith, d.2 (h.prev n) (prev_front h base n xs (y ∷ ys) r))

    not_next : (a : Ptr) → contains a (base ∷ ys) ≡ true → a ≢ y
    not_next a m = ground (arith, d.2 base (ground arith), ne_of_contains y a ys d.1.1.0)

-- `remove` takes a node out of its list wherever it stands: the other nodes keep their order, the node is
-- unlinked, and no other list changes.
pub remove-IsRing :
    (h : Heap) (base n : Ptr) (xs ys : List Ptr)
    → IsRing h base (xs ++ n ∷ ys)
    → (g : Heap) × (remove n h ≡ done tt g)
      × IsRing g base (xs ++ ys)
      × IsUnlinked g n
      × SameOutside (base ∷ (xs ++ n ∷ ys)) h g
unfolding remove
remove-IsRing h base n xs ys r = (
  unlinked h n,
  unlink_unchecked-done h base n xs ys r,
  record {
    links = unlinked-Links h base n xs ys r;
    distinct = Distinct-remove n (base ∷ xs) ys r.distinct;
    all_live =
        AllLive-same h (unlinked h n) (λ a. refl) (base ∷ (xs ++ ys))
          (AllLive-remove h n (base ∷ xs) ys r.all_live);
  },
  n-IsUnlinked h base n xs ys r,
  unlinked-SameOutside h base n xs ys r,
)
