-- ===== src/Intrusive/Append.antt =====
-- `append` of src/container/intrusive/linked_list.rs.
use xx_core.Base.{◌≡◌, refl, true, false, List, [], ◌∷◌, ◌++◌, arith, ◌==◌}
use xx_core.Intrusive.{Ptr, null, Heap, done, update, append}
use xx_core.Intrusive.Links.{
  contains, Distinct, Links, contains-append, ne_of_contains, Links-append, Links-relink,
}
use xx_core.Intrusive.Ring.{AllLive-append, AllLive-same, IsRing, SameOutside, live_in, prev_in}

Distinct-append_one :
    (a : Ptr) (xs : List Ptr) → Distinct xs → contains a xs ≡ false → Distinct (xs ++ a ∷ [])
Distinct-append_one a [] d m = (refl, tt)
Distinct-append_one a (x ∷ xs) d m =
    (ground (arith, contains-append x xs (a ∷ [])), Distinct-append_one a xs d.1 (ground arith))

abbrev appended : Heap → Ptr → Ptr → Heap
appended h base n = record h {
  prev = update (update h.prev n (h.prev base)) base n;
  next = update (update h.next (h.prev base) n) n base;
}

-- `append` links a live node that is not in the list behind its last node, and changes no other list.
pub append-IsRing :
    (h : Heap) (base n : Ptr) (xs : List Ptr)
    → IsRing h base xs
    → h.live n ≡ true
    → (n == null) ≡ false
    → contains n (base ∷ xs) ≡ false
    → (g : Heap) × (append base n h ≡ done tt g)
      × IsRing g base (xs ++ n ∷ [])
      × SameOutside (n ∷ base ∷ xs) h g
unfolding append
append-IsRing h base n xs r live real out = (
  appended h base n,
  rw
      (
        live_in r base first,
        live,
        live_in r (h.prev base) (prev_in r base first),
        live,
        live_in r base first,
      )
      refl,
  record {
    links = Links-append g.prev g.next base n base xs [] moved (ground arith, ground arith);
    distinct = Distinct-append_one n (base ∷ xs) r.distinct out;
    all_live =
        AllLive-same h (appended h base n) (λ a. refl) (base ∷ (xs ++ n ∷ []))
          (AllLive-append h (base ∷ xs) (n ∷ []) r.all_live (live, real, tt));
  },
  λ a m. ground (arith, ne_of_contains a (h.prev base) (base ∷ xs) (ground arith) last),
)
  where
    first : contains base (base ∷ xs) ≡ true
    first = ground arith

    g : Heap
    g = appended h base n

    last : contains (h.prev base) (base ∷ xs) ≡ true
    last = prev_in r base first

    moved : Links g.prev g.next base xs n
    moved =
        Links-relink h.prev h.next g.prev g.next base base n xs r.links r.distinct
          (λ a m ne. ground (arith, ne_of_contains n a (base ∷ xs) out m))
          (λ a m. ground (
            arith,
            ne_of_contains n a (base ∷ xs) out (ground arith),
            ne_of_contains base a xs r.distinct.0 m,
          ))
          (ground (arith, ne_of_contains n (h.prev base) (base ∷ xs) out last))
          (ground (arith, ne_of_contains n base (base ∷ xs) out first))
