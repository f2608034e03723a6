-- ===== src/Linux/Sysfs/Walk.antt =====
-- linux/: the walk up a sysfs path ends, and what it returns.
use aaruremote.Common.{
  ℕ, zero, suc, ◌<◌, ◌≡◌, refl, ap, ◌∙◌, ◌⊎◌, inl, inr, Bool, some, List, [], ◌∷◌, ◌++◌, length,
  arith, Bool-cases, Option-cases, append_assoc,
}
use aaruremote.Common.Text.{before_last, before_last-append}
use aaruremote.Linux.Sysfs.{Visit, go_on, leave, walk_up}

-- `up` is an ancestor of `path`, or `path` itself without its end.
abbrev pub Above : List ℕ → List ℕ → Type 0
Above up path = (back : List ℕ) × (path ≡ up ++ back) × (length up < length path)

-- A result of the walk: the default, or what the visit of an ancestor leaves with.
abbrev pub Found : {A : Type 0} → (List ℕ → Visit A) → A → List ℕ → A → Type 0
Found visit default path a = (a ≡ default) ⊎ ((up : List ℕ) × Above up path × (visit up ≡ leave a))

visit_cases : {A : Type 0} (v : Visit A) → (v ≡ go_on) ⊎ ((a : A) × (v ≡ leave a))
visit_cases go_on = inl refl
visit_cases (leave a) = inr (a, refl)

list_cases : (p : List ℕ) → (p ≡ []) ⊎ ((c : ℕ) × (cs : List ℕ) × (p ≡ c ∷ cs))
list_cases [] = inl refl
list_cases (c ∷ cs) = inr (c, cs, refl)

Found-Above :
    {A : Type 0} (visit : List ℕ → Visit A) (default : A) (up path : List ℕ) (a : A)
    → Above up path
    → Found visit default up a
    → Found visit default path a
Found-Above visit default up path a above (inl e) = inl e
Found-Above visit default up path a (back, whole, shorter) (inr (top, (rest, upper, less), v)) =
    inr (
      top,
      (rest ++ back, whole ∙ ap (λ q. q ++ back) upper ∙ append_assoc top rest back, omega arith),
      v,
    )

-- With more fuel than the path has characters the walk ends, with a result that is the default or
-- comes from an ancestor of the path.
pub walk_up-Found :
    {A : Type 0} (test : List ℕ → Bool) (visit : List ℕ → Visit A) (default : A) (fuel : ℕ)
    (path : List ℕ)
    → length path < fuel
    → (a : A) × (walk_up test visit default fuel path ≡ some a) × Found visit default path a
unfolding walk_up
walk_up-Found test visit default zero path enough = absurd (omega arith)
walk_up-Found test visit default (suc fuel) path enough = elim (Bool-cases (test path)) [
  | inr stop ↦ (default, rw (walk_up, stop) refl, inl refl)
  | inl inside ↦ elim (Option-cases (before_last b'/' path)) [
    | inl top ↦ (default, rw (walk_up, inside, top) refl, inl refl)
    | inr (front, cut) ↦
        let above : Above front path = before_last-append b'/' path front cut in
        elim (list_cases front) [
          | inl root ↦ (default, rw (walk_up, inside, cut, root) refl, inl refl)
          | inr (c, cs, name) ↦ elim (visit_cases (visit (c ∷ cs))) [
            | inr (a, v) ↦
                (a, rw (walk_up, inside, cut, name, v) refl, inr (front, above, rw name v))
            | inl next ↦
                let above' : Above (c ∷ cs) path =
                  before_last-append b'/' path (c ∷ cs) (cut ∙ ap some name) in
                let (a, runs, found) =
                  walk_up-Found test visit default fuel (c ∷ cs) (omega (arith, above')) in
                (
                  a,
                  rw (walk_up, inside, cut, name, next, runs) refl,
                  Found-Above visit default (c ∷ cs) path a above' found,
                )
          ]
        ]
  ]
]
