-- ===== src/Base/Slices.antt =====
-- A buffer of fixed size: the slice `[s..e]` of it, and a write at an offset.
use Prim.Native.Nat.{ℕ, ◌+◌, ◌-◌, ◌≤◌}
use mathlib.Core.Path.{◌≡◌, ap, sym, ◌∙◌}
use mathlib.Core.List.{List, [], ◌++◌}
use native.Mathlib.Omega.{arith}
use xx_core.Base.Lists.{
  length, take, drop, length-append, length-take, length-drop, take-append, drop-append, drop-drop,
  take-take-append-drop, take_all, drop-take, take-take,
}

module _ {ℓ} {A : Type ℓ} where
  -- `data[s..e]`
  unfoldable pub slice : List A → ℕ → ℕ → List A
  slice xs s e = take (e - s) (drop s xs)

  -- `data[s..s + bs.len()].copy_from_slice(bs)`
  unfoldable pub write_at : List A → ℕ → List A → List A
  write_at xs s bs = take s xs ++ (bs ++ drop (s + length bs) xs)

  pub length-slice : (xs : List A) (s e : ℕ) → s ≤ e → e ≤ length xs → length (slice xs s e) ≡ e - s
  unfolding slice
  length-slice xs s e h k = omega (arith, length-take (e - s) (drop s xs), length-drop s xs)

  pub length-write_at :
      (xs : List A) (s : ℕ) (bs : List A)
      → s + length bs ≤ length xs
      → length (write_at xs s bs) ≡ length xs
  unfolding write_at
  length-write_at xs s bs h = omega (
    arith,
    length-append (take s xs) (bs ++ drop (s + length bs) xs),
    length-append bs (drop (s + length bs) xs),
    length-take s xs,
    length-drop (s + length bs) xs,
  )

  pub slice_empty : (xs : List A) (s e : ℕ) → e ≤ s → slice xs s e ≡ []
  unfolding slice
  slice_empty xs s e h = let z : e - s ≡ 0 = omega arith in rw z

  -- A slice is cut in two at any point inside it.
  pub slice-append :
      (xs : List A) (s m e : ℕ) → s ≤ m → m ≤ e → slice xs s m ++ slice xs m e ≡ slice xs s e
  unfolding slice
  slice-append xs s m e h k =
      let skip : drop (m - s) (drop s xs) ≡ drop m xs = drop-drop s m (m - s) xs (omega arith) in
      let span : e - m ≡ (e - s) - (m - s) = omega arith in
      rw (← skip, span) (take-take-append-drop (m - s) (e - s) (drop s xs) (omega arith))

  -- What was just written can be read back.
  pub slice-write_at_self :
      (xs : List A) (s : ℕ) (bs : List A)
      → s ≤ length xs
      → slice (write_at xs s bs) s (s + length bs) ≡ bs
  unfolding slice write_at
  slice-write_at_self xs s bs h =
      rw
        (drop-append s (take s xs) (bs ++ drop (s + length bs) xs)
          (omega (arith, length-take s xs)))
        (take-append (s + length bs - s) bs (drop (s + length bs) xs) (omega arith))

  slice-drop-take : (xs : List A) (s e : ℕ) → s ≤ e → slice xs s e ≡ drop s (take e xs)
  unfolding slice
  slice-drop-take xs s e h = sym (drop-take s e xs h)

  -- A write changes nothing in front of it.
  pub slice-write_at_front :
      (xs : List A) (s e : ℕ) (bs : List A)
      → s ≤ e
      → e ≤ length xs
      → slice (write_at xs e bs) s e ≡ slice xs s e
  unfolding write_at
  slice-write_at_front xs s e bs h k =
      slice-drop-take (write_at xs e bs) s e h
      ∙ ap (drop s) (
          take-append e (take e xs) (bs ++ drop (e + length bs) xs)
            (omega (arith, length-take e xs)))
      ∙ sym (slice-drop-take xs s e h)

  -- A write at the end of a slice extends it.
  pub slice-write_at :
      (xs : List A) (s e : ℕ) (bs : List A)
      → s ≤ e
      → e ≤ length xs
      → slice (write_at xs e bs) s (e + length bs) ≡ slice xs s e ++ bs
  slice-write_at xs s e bs h k =
      sym (slice-append (write_at xs e bs) s e (e + length bs) h (omega arith))
      ∙ ap (λ front. front ++ slice (write_at xs e bs) e (e + length bs))
          (slice-write_at_front xs s e bs h k)
      ∙ ap (◌++◌ (slice xs s e)) (slice-write_at_self xs e bs k)

  pub slice_all : (xs : List A) (e : ℕ) → length xs ≤ e → slice xs 0 e ≡ xs
  unfolding slice
  slice_all xs e h = take_all (e - 0) xs (omega arith)

  pub take-slice :
      (xs : List A) (s e k : ℕ) → s + k ≤ e → take k (slice xs s e) ≡ slice xs s (s + k)
  unfolding slice
  take-slice xs s e k h =
      take-take k (e - s) (drop s xs) (omega arith) ∙ ap (λ j. take j (drop s xs)) (omega arith)

  -- What is taken from a slice, and the slice behind it.
  pub take-slice-append :
      (xs : List A) (s e k : ℕ)
      → s + k ≤ e
      → take k (slice xs s e) ++ slice xs (s + k) e ≡ slice xs s e
  take-slice-append xs s e k h =
      ap (λ bs. bs ++ slice xs (s + k) e) (take-slice xs s e k h)
      ∙ slice-append xs s (s + k) e (omega arith) h
