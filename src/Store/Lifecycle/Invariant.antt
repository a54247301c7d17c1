-- ===== src/Store/Lifecycle/Invariant.antt =====
-- The guards of `LockContainerLifecycle`: the numbers of guards on a lock, and the invariant.
use lxc2docker.Prelude.{
  ℕ, suc, ◌≤◌, ◌<◌, ◌≡◌, ◌≢◌, ◌↔◌, refl, Bool, true, false, ◌&&◌, List, [], ◌∷◌, ◌++◌, some, arith,
  if◌then◌else◌, ◌==◌, In, inl, inr, Bool-cases,
}
use lxc2docker.Strings.{Str, eq_str}
use lxc2docker.Dict.{get}
use lxc2docker.Store.Lifecycle.{Locks, Phase, waiting, holding, unlocked, Guard}

unfoldable pub is_holding : Phase → Bool
is_holding waiting = false
is_holding holding = true
is_holding unlocked = false

unfoldable pub count_guards : (Guard → Bool) → List Guard → ℕ
count_guards test [] = 0
count_guards test (g ∷ gs) = let rest = count_guards test gs in if test g then suc rest else rest

-- Guards on a lock; those of them that own its mutex; those that own a mutex for a container.
unfoldable pub on_lock : ℕ → Guard → Bool
on_lock l g = g.lock == l

unfoldable pub owns_lock : ℕ → Guard → Bool
owns_lock l g = g.lock == l && is_holding g.phase

unfoldable pub owns_container : Str → Guard → Bool
owns_container id g = eq_str g.id id && is_holding g.phase

pub count_middle :
    (test : Guard → Bool) (xs : List Guard) (g : Guard) (ys : List Guard)
    → count_guards test (xs ++ g ∷ ys) ≡ count_guards test (g ∷ (xs ++ ys))
unfolding count_guards
count_middle test [] g ys = refl
count_middle test (x ∷ xs) g ys = ground (arith, count_middle test xs g ys)

pub In-middle :
    (a : Guard) (xs : List Guard) (g : Guard) (ys : List Guard)
    → In a (xs ++ g ∷ ys) ↔ In a (g ∷ (xs ++ ys))
In-middle a [] g ys = ((λ i. i), λ i. i)
In-middle a (x ∷ xs) g ys = ground (arith, In-middle a xs g ys)

pub count_some :
    (test : Guard → Bool) (gs : List Guard)
    → count_guards test gs ≢ 0
    → (g : Guard) × In g gs × (test g ≡ true)
unfolding count_guards
count_some test [] h = absurd (h refl)
count_some test (g ∷ gs) h = elim (Bool-cases (test g)) [
  | inl e ↦ (g, inl refl, e)
  | inr e ↦ let (a, i, t) = count_some test gs (ground arith) in (a, inr i, t)
]

pub count_pos :
    (test : Guard → Bool) (g : Guard) (gs : List Guard)
    → In g gs
    → test g ≡ true
    → count_guards test gs ≢ 0
unfolding count_guards
count_pos test g [] i t = absurd i
count_pos test g (a ∷ gs) (inl e) t = ground arith
count_pos test g (a ∷ gs) (inr i) t = ground (arith, count_pos test g gs i t)

pub count_mono :
    (test other : Guard → Bool) (gs : List Guard)
    → ((g : Guard) → In g gs → test g ≡ true → other g ≡ true)
    → count_guards test gs ≤ count_guards other gs
unfolding count_guards
count_mono test other [] h = omega arith
count_mono test other (g ∷ gs) h =
    ground (arith, h g (inl refl), count_mono test other gs (λ a i. h a (inr i)))

-- Every guard is on the lock that the table has for its container; a lock counts its guards and
-- knows whether one of them owns it; an entry is in use, and belongs to one container.
pub record Sound (k : Locks) (gs : List Guard) : Type 0 where
  pub known : (g : Guard) → In g gs → get g.id k.table ≡ some g.lock
  pub counted : (l : ℕ) → (k.heap l).refs ≡ count_guards (on_lock l) gs
  pub owned : (l : ℕ) → count_guards (owns_lock l) gs ≡ (if (k.heap l).locked then 1 else 0)
  pub allocated : (id : Str) (l : ℕ) → get id k.table ≡ some l → l < k.next
  pub apart : (i j : Str) (l : ℕ) → get i k.table ≡ some l → get j k.table ≡ some l → i ≡ j
  pub in_use : (id : Str) (l : ℕ) → get id k.table ≡ some l → count_guards (on_lock l) gs ≢ 0
