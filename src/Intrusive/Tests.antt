-- ===== src/Intrusive/Tests.antt =====
-- The list operations at a list of two nodes.
use xx_core.Base.{◌≡◌, refl, [], ◌∷◌, ltb}
use xx_core.Intrusive.{Ptr, null, Heap, done, panicked, update, append, remove, unlink, pop_back}
use xx_core.Intrusive.Ring.{IsRing, IsUnlinked, SameOutside}
use xx_core.Intrusive.Append.{append-IsRing}
use xx_core.Intrusive.Unlink.{remove-IsRing}
use xx_core.Intrusive.Pop.{PopsFirst, pop_back-PopsFirst, unlink_unlinked}

abbrev zeros : Ptr → Ptr
zeros a = null

-- The list at 1 holds 2 and 3, the one at 5 is empty, and 4 is in no list.
abbrev heap : Heap
heap = record {
  live = ltb 0;
  prev = update (update (update (update zeros 1 3) 2 1) 3 2) 5 5;
  next = update (update (update (update zeros 1 2) 2 3) 3 1) 5 5;
}

two-IsRing : IsRing heap 1 (2 ∷ 3 ∷ [])
two-IsRing = record {
  links = (refl, refl, (refl, refl, (refl, refl)));
  distinct = (refl, (refl, (refl, tt)));
  all_live = (refl, refl, (refl, refl, (refl, refl, tt)));
}

empty-IsRing : IsRing heap 5 []
empty-IsRing = record { links = (refl, refl); distinct = (refl, tt); all_live = (refl, refl, tt) }

append-IsRing_example :
    (g : Heap) × (append 1 4 heap ≡ done tt g)
    × IsRing g 1 (2 ∷ 3 ∷ 4 ∷ [])
    × SameOutside (4 ∷ 1 ∷ 2 ∷ 3 ∷ []) heap g
append-IsRing_example = append-IsRing heap 1 4 (2 ∷ 3 ∷ []) two-IsRing refl refl refl

remove-IsRing_example :
    (g : Heap) × (remove 3 heap ≡ done tt g)
    × IsRing g 1 (2 ∷ [])
    × IsUnlinked g 3
    × SameOutside (1 ∷ 2 ∷ 3 ∷ []) heap g
remove-IsRing_example = remove-IsRing heap 1 3 (2 ∷ []) [] two-IsRing

pop_back-PopsFirst_example : PopsFirst heap 1 (2 ∷ 3 ∷ []) (pop_back 1 heap)
pop_back-PopsFirst_example = pop_back-PopsFirst heap 1 (2 ∷ 3 ∷ []) two-IsRing

unlink_lone : unlink 4 heap ≡ panicked
unlink_lone = unlink_unlinked heap 4 refl (record { prev = refl; next = refl })
