-- ===== src/Gettext/Format/Picked.antt =====
-- gettext/fmt.go: the arguments that `sprintf` hands on.
use sadbox.Prelude.{
  ℕ, zero, suc, ◌+◌, ◌≡◌, refl, sym, ap, ◌∙◌, false, some, List, [], ◌∷◌, ◌++◌, map, append_assoc,
  Text, arith, ltb, if◌then◌else◌, inl, inr, Bool-cases, length, length-append, get_or, set,
  replicate,
}
use sadbox.Prelude.Int.{pos}
use sadbox.Gettext.Format.{pick_args, sprintf}

module _ {ℓ} {A : Type ℓ} where
  set-middle : (xs ys : List A) (x y : A) → set (xs ++ x ∷ ys) (length xs) y ≡ xs ++ y ∷ ys
  set-middle [] ys x y = refl
  set-middle (z ∷ xs) ys x y = ap (λ (l : List A). z ∷ l) (set-middle xs ys x y)

  get_or_out : (xs : List A) (i : ℕ) (d : A) → ltb i (length xs) ≡ false → get_or xs i d ≡ d
  get_or_out [] i d h = refl
  get_or_out (x ∷ xs) zero d h = ground arith
  get_or_out (x ∷ xs) (suc i) d h = get_or_out xs i d (ground arith)

module _ {ℓ} {Arg : Type ℓ} (nil : Arg) (printf : Text → List Arg → Text) (a : List Arg) where
  abbrev pub pick : ℕ → Arg
  pick v = get_or a v nil

  picked_or_nil :
      (done : List Arg) (v n : ℕ)
      → (if ltb v (length a)
          then set (done ++ nil ∷ replicate n nil) (length done) (pick v)
          else done ++ nil ∷ replicate n nil)
        ≡ (done ++ (pick v ∷ [])) ++ replicate n nil
  picked_or_nil done v n = elim (Bool-cases (ltb v (length a))) [
    | inl e ↦ rw e (set-middle done _ nil (pick v) ∙ sym (append_assoc done (pick v ∷ []) _))
    | inr e ↦ rw (e, get_or_out a v nil e) (sym (append_assoc done (nil ∷ []) _))
  ]

  pick_args_lem :
      (order : List ℕ) (done : List Arg)
      → pick_args nil printf a (length done) (map pos order) (done ++ replicate (length order) nil)
        ≡ some (done ++ map pick order)
  unfolding pick_args
  pick_args_lem [] done = refl
  pick_args_lem (v ∷ order) done =
      let place : length (done ++ (pick v ∷ [])) ≡ length done + 1 =
        length-append done (pick v ∷ []) in
      ap (pick_args nil printf a (length done + 1) (map pos order))
        (picked_or_nil done v (length order))
      ∙ rw (← place) (
          pick_args_lem order (done ++ (pick v ∷ [])) ∙ ap some (append_assoc done (pick v ∷ []) _))

  length-positions : (order : List ℕ) → length (map pos order) ≡ length order
  length-positions [] = refl
  length-positions (v ∷ order) = ap suc (length-positions order)

  -- `sprintf` hands the formatter, for each index of the order, the argument that stands at this index,
  -- counted from 0, and nil where there is none; it does not panic on indices that are not negative.
  pub sprintf-order :
      (format : Text) (order : List ℕ)
      → sprintf nil printf format (some (map pos order)) a ≡ some (printf format (map pick order))
  unfolding sprintf
  sprintf-order format order = rw (length-positions order, pick_args_lem order []) refl
