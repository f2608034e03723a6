-- ===== src/Win32/Listing/Models.antt =====
-- win32/list_devices.c: the vendor that is taken from the model.
use aaruremote.Common.{
  ℕ, zero, suc, ◌+◌, ◌-◌, ◌≤◌, ◌<◌, ◌≡◌, refl, sym, ap, ◌∙◌, true, Option, none, some, List, [],
  ◌∷◌, ◌++◌, take, drop, length, length-append, lt→ltb, ◌==◌, ==→eq, Bool-cases, Option-cases, inl,
  inr, arith,
}
use aaruremote.Common.Text.{before_first}
use aaruremote.Win32.Listing.{split_model}

abbrev word_of : Option (List ℕ) → List ℕ
word_of none = []
word_of (some t) = t

-- The text is its first word, a space and the rest.
first_word :
    (text first : List ℕ)
    → before_first 32 text ≡ some first
    → text ≡ first ++ 32 ∷ drop (suc (length first)) text
first_word [] first e = absurd (ground (arith, e))
first_word (c ∷ cs) first e = elim (Bool-cases (c == 32)) [
  | inl here ↦
      let cut : [] ≡ first = ap word_of (rw here at e) in
      rw (← cut) (ap (λ k. k ∷ cs) (==→eq c 32 here))
  | inr more ↦ elim (Option-cases (before_first 32 cs)) [
    | inl missing ↦ absurd (ground (arith, rw (more, missing) at e))
    | inr (t, found) ↦
        let cut : c ∷ t ≡ first = ap word_of (rw (more, found) at e) in
        rw (← cut) (ap (λ q. c ∷ q) (first_word cs t found))
  ]
]

take_all : (n : ℕ) (text : List ℕ) → length text ≤ n → take n text ≡ text
take_all zero [] h = refl
take_all zero (c ∷ cs) h = absurd (omega arith)
take_all (suc n) [] h = refl
take_all (suc n) (c ∷ cs) h = ap (λ q. c ∷ q) (take_all n cs (omega arith))

-- If the device tells no vendor, its model has fewer than 256 characters and a space in it, and
-- there is room for the copy: the vendor and the model that ListDevices of Windows shows for it,
-- with a space between them, are the model that it told.
pub split_model-joins :
    (model first : List ℕ)
    → length model < 256
    → before_first 32 model ≡ some first
    → let q = split_model true [] model in q.0 ++ 32 ∷ q.1 ≡ model
unfolding split_model
split_model-joins model first short found =
    let whole = first_word model first found in
    let rest = drop (suc (length first)) model in
    let size : length model ≡ length first + suc (length rest) =
      ap length whole ∙ length-append first (32 ∷ rest) in
    let kept = take_all (256 - length first) rest (omega arith) in
    rw (split_model, lt→ltb 0 (length model) (omega arith), found, kept) (sym whole)
