-- ===== src/Sequencer/Complete/Walk.antt =====
-- static/addons/sequencer/autocomplete.js: the walk over the nodes ends, and what it finds.
use mathlib.Core.Path.{subst}
use fprime_gds.Base.{some_same, sym, >>=-eq-some, ◌>>=◌, false}
use fprime_gds.Base.{
  refl, none, some, [], ◌∷◌, ◌≡◌, ◌<◌, ◌≤◌, List, ℕ, suc, zero, Option, true, arith, inl, inr,
  Bool-cases,
}
use fprime_gds.Base.Text.{Text}
use fprime_gds.Sequencer.Complete.{
  is_one_of, matching_node_parent, siblings_from, sibling_list, step_left, pushed,
}

module _ {N : Type 0} (parent prev : N → Option N) (name : N → Text) (types : List Text) where
  -- `c` is the first node from `n` upwards with one of the types.
  pub data Nearest : N → N → Type 0 where
    here : {n : N} → is_one_of (name n) types ≡ true → Nearest n n
    above :
        {n m c : N}
        → is_one_of (name n) types ≡ false
        → parent n ≡ some m
        → Nearest m c
        → Nearest n c

  -- No node from `n` upwards has one of the types.
  pub data NoneAbove : N → Type 0 where
    top : {n : N} → is_one_of (name n) types ≡ false → parent n ≡ none → NoneAbove n
    higher :
        {n m : N} → is_one_of (name n) types ≡ false → parent n ≡ some m → NoneAbove m → NoneAbove n

  -- The walk to the left from a node, with the nodes that it comes upon.
  pub data Walk : Option N → List N → Type 0 where
    done : Walk none []
    found : {n c : N} {cs : List N} → Nearest n c → Walk (prev c) cs → Walk (some n) (c ∷ cs)
    missed : {n : N} {cs : List N} → NoneAbove n → Walk (prev n) cs → Walk (some n) cs

  Found : Option N → Option N → Type 0
  Found none r = r ≡ none
  Found (some n) none = NoneAbove n
  Found (some n) (some c) = Nearest n c

  Found-parent :
      (n : N) (o r : Option N)
      → is_one_of (name n) types ≡ false
      → parent n ≡ o
      → Found o r
      → Found (some n) r
  unfolding Found
  Found-parent n none none t p f = top t p
  Found-parent n none (some c) t p f = absurd cc
  Found-parent n (some m) none t p f = higher t p f
  Found-parent n (some m) (some c) t p f = above t p f

  Found-self :
      (n : N) (r : Option N)
      → is_one_of (name n) types ≡ true
      → some (some n) ≡ some r
      → Found (some n) r
  unfolding Found
  Found-self n none t h = absurd cc
  Found-self n (some c) t h = subst (Nearest n) (some_same (some_same h)) (here t)

  matching_node_parent-Found :
      (fuel : ℕ) (o r : Option N)
      → matching_node_parent parent prev name types fuel o ≡ some r
      → Found o r
  unfolding matching_node_parent Found
  matching_node_parent-Found fuel none r h = sym (some_same h)
  matching_node_parent-Found zero (some n) r h = absurd cc
  matching_node_parent-Found (suc fuel) (some n) r h =
      elim (Bool-cases (is_one_of (name n) types)) [
        | inl t ↦ Found-self n r t (rw t at h)
        | inr t ↦
            Found-parent n (parent n) r t refl
              (matching_node_parent-Found fuel (parent n) r (rw t at h))
      ]

  pushed-Walk :
      (n : N) (r : Option N) (cs : List N)
      → Found (some n) r
      → Walk (step_left parent prev name n r) cs
      → Walk (some n) (pushed parent prev name r cs)
  unfolding Found step_left pushed
  pushed-Walk n none cs f w = missed f w
  pushed-Walk n (some c) cs f w = found f w

  siblings_from-Walk :
      (fuel : ℕ) (o : Option N) (cs : List N)
      → siblings_from parent prev name types fuel o ≡ some cs
      → Walk o cs
  unfolding siblings_from
  siblings_from-Walk fuel none cs h = subst (Walk none) (some_same h) done
  siblings_from-Walk zero (some n) cs h = absurd cc
  siblings_from-Walk (suc fuel) (some n) cs h =
      let (r, e, h1) =
        >>=-eq-some (matching_node_parent parent prev name types (suc fuel) (some n))
          (λ r. siblings_from parent prev name types fuel (step_left parent prev name n r) >>= λ ds.
            some (pushed parent prev name r ds))
          h in
      let (ds, d, h2) =
        >>=-eq-some (siblings_from parent prev name types fuel (step_left parent prev name n r))
          (λ ds. some (pushed parent prev name r ds)) h1 in
      subst (Walk (some n)) (some_same h2) (
        pushed-Walk n r ds (matching_node_parent-Found (suc fuel) (some n) r e)
          (siblings_from-Walk fuel (step_left parent prev name n r) ds d))

-- The nodes are numbered so that a parent and a sibling on the left have smaller numbers, as the
-- order in which they begin in the text gives.
module _ {N : Type 0} (parent prev : N → Option N) (name : N → Text) (types : List Text)
    (number : N → ℕ) (up : (n m : N) → parent n ≡ some m → number m < number n)
    (left : (n m : N) → prev n ≡ some m → number m < number n) where
  Under : ℕ → Option N → Type 0
  Under fuel none = Unit
  Under fuel (some n) = number n < fuel

  -- A node that is found has one of the types.
  Fits : ℕ → Option N → Type 0
  Fits bound none = Unit
  Fits bound (some c) = (is_one_of (name c) types ≡ true) × (number c ≤ bound)

  -- Each node of the list has one of the types and stands to the left of the one before it.
  unfoldable pub Listed : ℕ → List N → Type 0
  Listed bound [] = Unit
  Listed bound (c ∷ cs) =
      ((is_one_of (name c) types ≡ true) × (number c < bound)) × Listed (number c) cs

  Under-below : (o : Option N) (n : ℕ) → ((m : N) → o ≡ some m → number m < n) → Under n o
  unfolding Under
  Under-below none n h = tt
  Under-below (some m) n h = h m refl

  Under-le : (o : Option N) (k l : ℕ) → k ≤ l → Under k o → Under l o
  unfolding Under
  Under-le none k l h u = tt
  Under-le (some m) k l h u = omega arith

  Fits-le : (o : Option N) (k l : ℕ) → k ≤ l → Fits k o → Fits l o
  unfolding Fits
  Fits-le none k l h u = tt
  Fits-le (some m) k l h (e, u) = (e, omega arith)

  matching_node_parent-Fits :
      (fuel bound : ℕ) (o : Option N)
      → Under fuel o
      → Under (suc bound) o
      → (r : Option N) × (matching_node_parent parent prev name types fuel o ≡ some r)
        × Fits bound r
  unfolding matching_node_parent Under Fits
  matching_node_parent-Fits fuel bound none u v = (none, refl, tt)
  matching_node_parent-Fits zero bound (some n) u v = absurd (omega arith)
  matching_node_parent-Fits (suc fuel) bound (some n) u v =
      let (r, e, f) =
        matching_node_parent-Fits fuel bound (parent n)
          (Under-below (parent n) fuel (λ m h. let l = up n m h in omega arith))
          (Under-below (parent n) (suc bound) (λ m h. let l = up n m h in omega arith)) in
      elim (Bool-cases (is_one_of (name n) types)) [
        | inl t ↦ rw t (some n, refl, (t, omega arith))
        | inr t ↦ rw t (r, e, f)
      ]

  -- The bound of the nodes that are listed behind one.
  bound_behind : ℕ → Option N → ℕ
  bound_behind bound none = bound
  bound_behind bound (some c) = number c

  step_left-Under :
      (n : N) (r : Option N) (k : ℕ)
      → Fits (number n) r
      → number n < suc k
      → Under k (step_left parent prev name n r)
  unfolding Fits step_left
  step_left-Under n none k f u = Under-below (prev n) k (λ m h. let l = left n m h in omega arith)
  step_left-Under n (some c) k (t, f) u =
      Under-below (prev c) k (λ m h. let l = left c m h in omega arith)

  step_left-behind :
      (n : N) (r : Option N) (k : ℕ)
      → Fits (number n) r
      → number n < k
      → Under (bound_behind k r) (step_left parent prev name n r)
  unfolding Fits step_left bound_behind
  step_left-behind n none k f u = Under-below (prev n) k (λ m h. let l = left n m h in omega arith)
  step_left-behind n (some c) k f u = Under-below (prev c) (number c) (λ m h. left c m h)

  pushed-Listed :
      (n : N) (r : Option N) (k : ℕ) (cs : List N)
      → Fits (number n) r
      → number n < k
      → Listed (bound_behind k r) cs
      → Listed k (pushed parent prev name r cs)
  unfolding Fits Listed bound_behind pushed
  pushed-Listed n none k cs f u l = l
  pushed-Listed n (some c) k cs (t, f) u l = ((t, omega arith), l)

  siblings_from-Listed :
      (fuel bound : ℕ) (o : Option N)
      → Under fuel o
      → Under bound o
      → (cs : List N) × (siblings_from parent prev name types fuel o ≡ some cs) × Listed bound cs
  unfolding siblings_from Under Listed
  siblings_from-Listed fuel bound none u v = ([], refl, tt)
  siblings_from-Listed zero bound (some n) u v = absurd (omega arith)
  siblings_from-Listed (suc fuel) bound (some n) u v =
      let (r, e, f) = matching_node_parent-Fits (suc fuel) (number n) (some n) u (omega arith) in
      let (cs, g, l) =
        siblings_from-Listed fuel (bound_behind bound r) (step_left parent prev name n r)
          (step_left-Under n r fuel f u) (step_left-behind n r bound f v) in
      rw (e, g) (pushed parent prev name r cs, refl, pushed-Listed n r bound cs f v l)

  -- With as much fuel as the number of the node, the list of its siblings is that of the walk to the
  -- left from the node before it: each node of the walk gives the nearest node with one of the types,
  -- from which the walk goes on, or none; they stand from right to left.
  pub sibling_list-Walk :
      (n : N)
      → (cs : List N) × (sibling_list parent prev name types (number n) n ≡ some cs)
        × Walk parent prev name types (prev n) cs
        × Listed (number n) cs
  unfolding sibling_list
  sibling_list-Walk n =
      let u = Under-below (prev n) (number n) (λ m h. left n m h) in
      let (cs, e, l) = siblings_from-Listed (number n) (number n) (prev n) u u in
      (cs, e, siblings_from-Walk parent prev name types (number n) (prev n) cs e, l)
