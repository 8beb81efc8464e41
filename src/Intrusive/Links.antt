-- ===== src/Intrusive/Links.antt =====
-- Chains of nodes: `prev` and `next` pointers that agree along a list of addresses.
use xx_core.Base.{
  ◌≡◌, refl, sym, ap, ◌∙◌, ◌≢◌, Bool, true, false, ◌||◌, List, [], ◌∷◌, ◌++◌, arith, ◌==◌,
}
use xx_core.Intrusive.{Ptr}

-- `a` stands in `xs`.
abbrev pub contains : Ptr → List Ptr → Bool
contains a [] = false
contains a (x ∷ xs) = (a == x) || contains a xs

abbrev pub Distinct : List Ptr → Type 0
Distinct [] = Unit {0}
Distinct (x ∷ xs) = (contains x xs ≡ false) × Distinct xs

-- From `p` the pointers lead through `xs` to `q`, and back.
abbrev pub Links : (prev next : Ptr → Ptr) → Ptr → List Ptr → Ptr → Type 0
Links prev next p [] q = (next p ≡ q) × (prev q ≡ p)
Links prev next p (x ∷ xs) q = (next p ≡ x) × (prev x ≡ p) × Links prev next x xs q

contains_head : (a : Ptr) (xs : List Ptr) → contains a (a ∷ xs) ≡ true
contains_head a xs = ground arith

contains_tail : (a x : Ptr) (xs : List Ptr) → contains a xs ≡ true → contains a (x ∷ xs) ≡ true
contains_tail a x xs h = ground arith

contains_skip :
    (a q x : Ptr) (xs : List Ptr) → contains a (q ∷ xs) ≡ true → contains a (q ∷ x ∷ xs) ≡ true
contains_skip a q x xs h = ground arith

pub ne_of_contains :
    (a b : Ptr) (xs : List Ptr) → contains a xs ≡ false → contains b xs ≡ true → a ≢ b
ne_of_contains a b xs h k = ground arith

pub contains-append :
    (a : Ptr) (xs ys : List Ptr) → contains a (xs ++ ys) ≡ (contains a xs || contains a ys)
contains-append a [] ys = refl
contains-append a (x ∷ xs) ys = ground (arith, contains-append a xs ys)

module _ (prev next : Ptr → Ptr) where
  -- The node before the end of a chain stands in the chain.
  pub contains-last :
      (p q : Ptr) (xs : List Ptr) → Links prev next p xs q → contains (prev q) (p ∷ xs) ≡ true
  contains-last p q [] l = ground arith
  contains-last p q (x ∷ xs) l = ground (arith, contains-last x q xs l.2)

  pub Links-append :
      (p y q : Ptr) (xs ys : List Ptr)
      → Links prev next p xs y
      → Links prev next y ys q
      → Links prev next p (xs ++ y ∷ ys) q
  Links-append p y q [] ys l m = (l.0, l.1, m)
  Links-append p y q (x ∷ xs) ys l m = (l.0, l.1, Links-append x y q xs ys l.2 m)

  pub Links-split :
      (p y q : Ptr) (xs ys : List Ptr)
      → Links prev next p (xs ++ y ∷ ys) q
      → Links prev next p xs y × Links prev next y ys q
  Links-split p y q [] ys l = ((l.0, l.1), l.2)
  Links-split p y q (x ∷ xs) ys l = let (m, n) = Links-split x y q xs ys l.2 in ((l.0, l.1, m), n)

module _ (prev next : Ptr → Ptr) where
  -- The pointers of a chain lead into the chain.
  pub contains-prev :
      (p q a : Ptr) (xs : List Ptr)
      → Links prev next p xs q
      → contains a (q ∷ xs) ≡ true
      → contains (prev a) (p ∷ xs) ≡ true
  contains-prev p q a [] l m = ground arith
  contains-prev p q a (x ∷ xs) l m = ground (arith, contains-prev x q a xs l.2)

  pub contains-next :
      (p q a : Ptr) (xs : List Ptr)
      → Links prev next p xs q
      → contains a (p ∷ xs) ≡ true
      → contains (next a) (q ∷ xs) ≡ true
  contains-next p q a [] l m = ground arith
  contains-next p q a (x ∷ xs) l m = ground (arith, contains-next x q a xs l.2)

module _ (prev next prev' next' : Ptr → Ptr) where
  -- A chain survives changes elsewhere.
  pub Links-frame :
      (p q : Ptr) (xs : List Ptr)
      → Links prev next p xs q
      → ((a : Ptr) → contains a (p ∷ xs) ≡ true → next' a ≡ next a)
      → ((a : Ptr) → contains a (q ∷ xs) ≡ true → prev' a ≡ prev a)
      → Links prev' next' p xs q
  Links-frame p q [] l sn sp = (sn p (contains_head p []) ∙ l.0, sp q (contains_head q []) ∙ l.1)
  Links-frame p q (x ∷ xs) l sn sp = (
    sn p (contains_head p (x ∷ xs)) ∙ l.0,
    sp x (contains_tail x q (x ∷ xs) (contains_head x xs)) ∙ l.1,
    Links-frame x q xs l.2 (λ a m. sn a (contains_tail a p (x ∷ xs) m))
        (λ a m. sp a (contains_skip a q x xs m)),
  )

  -- The end of a chain is moved from `q` to `r`.
  pub Links-relink :
      (p q r : Ptr) (xs : List Ptr)
      → Links prev next p xs q
      → Distinct (p ∷ xs)
      → ((a : Ptr) → contains a (p ∷ xs) ≡ true → a ≢ prev q → next' a ≡ next a)
      → ((a : Ptr) → contains a xs ≡ true → prev' a ≡ prev a)
      → next' (prev q) ≡ r
      → prev' r ≡ prev q
      → Links prev' next' p xs r
  Links-relink p q r [] l d sn sp n e = (ap next' (sym l.1) ∙ n, e ∙ l.1)
  Links-relink p q r (x ∷ xs) l d sn sp n e = (
    sn p (contains_head p (x ∷ xs))
          (ne_of_contains p (prev q) (x ∷ xs) d.0 (contains-last prev next x q xs l.2))
        ∙ l.0,
    sp x (contains_head x xs) ∙ l.1,
    Links-relink x q r xs l.2 d.1 (λ a m. sn a (contains_tail a p (x ∷ xs) m))
        (λ a m. sp a (contains_tail a x xs m)) n e,
  )
