-- ===== src/Template/Escape/Pipeline/Ensured.antt =====
-- template/escape/escape.go: `ensurePipelineContains` against what it promises.
use sadbox.Prelude.{
  ◌-◌, ◌≡◌, refl, sym, Bool, true, false, inl, inr, Option, none, some, List, [], ◌∷◌, ◌++◌, Text,
  codes, text_eq, Option-cases, if_elim, take, length, arith, take-append, length-append,
}
use sadbox.Template.Escape.Pipeline.{
  esc_fns_eq, Command, command_name, trailing_at, trailing, contained, last_command, ensure_idents,
  ensure_pipeline_contains,
}
use sadbox.Template.Escape.Pipeline.Commands.{PipeValue, run_command}
use sadbox.Template.Escape.Pipeline.Escapers.{run_command-IsRedundant}
use sadbox.Template.Escape.Pipeline.Runs.{
  IsHeaded, Holds, IsNamed, AreNamed, AreBare, IsRedundant, Holds-weaken,
}
use sadbox.Template.Escape.Pipeline.Merged.{
  Merges, ends, shared, kept, esc_fns_eq-canonical, MergedBehind, merge-MergedBehind,
}

-- Identifiers, and behind them one command that is no identifier.
abbrev EndsInOperand : {V : Type 0} → List (Command V) → Type 0
EndsInOperand [] = ⊥
EndsInOperand (c ∷ []) = (command_name c ≡ none) × IsHeaded (some c)
EndsInOperand (c ∷ d ∷ cmds) = IsNamed c × EndsInOperand (d ∷ cmds)

-- What may stand in front of the identifiers at the end.
abbrev pub IsFront : {V : Type 0} → List (Command V) → Type 0
IsFront [] = Unit
IsFront (c ∷ cmds) = EndsInOperand (c ∷ cmds)

module _ {V : Type 0} where
  kept_all : (idents : List (Command V)) → Merges [] idents idents
  kept_all [] = ends
  kept_all (id ∷ idents) = kept (kept_all idents)

  contained-Merges :
      (s : List Text) (idents : List (Command V))
      → AreNamed idents
      → Holds (λ b. b ≡ true → Merges s idents idents) (contained s idents)
  unfolding contained
  contained-Merges [] idents n = λ _. kept_all idents
  contained-Merges (x ∷ s) [] n = λ e. absurd (cc)
  contained-Merges (x ∷ s) (id ∷ idents) n = elim (Option-cases (command_name id)) [
    | inl unnamed ↦ absurd (rw unnamed at n.0)
    | inr (y, e) ↦
        rw (contained, e)
          (if_elim (Holds (λ b. b ≡ true → Merges (x ∷ s) (id ∷ idents) (id ∷ idents)))
            (esc_fns_eq x y)
            (λ same.
              Holds-weaken _ _ (contained s idents) (contained-Merges s idents n.1)
                λ b h t. shared y e (sym (esc_fns_eq-canonical x y same)) (h t))
            λ _.
              Holds-weaken _ _ (contained (x ∷ s) idents) (contained-Merges (x ∷ s) idents n.1)
                λ b h t. kept (h t))
  ]

  trailing_at-named :
      (c : Command V) (behind idents : List (Command V))
      → IsNamed c
      → trailing_at (command_name c) behind idents ≡ some idents
  trailing_at-named c behind idents n = elim (Option-cases (command_name c)) [
    | inl unnamed ↦ absurd (rw unnamed at n)
    | inr (y, e) ↦
        (let plain : text_eq y (codes "noescape") ≡ false = rw e at n in rw (e, plain) refl)
  ]

  trailing-named :
      (all idents : List (Command V)) → AreNamed idents → trailing all idents ≡ some all
  unfolding trailing
  trailing-named all [] n = refl
  trailing-named all (c ∷ idents) n =
      rw (trailing-named all idents n.1) (trailing_at-named c idents all n.0)

  trailing-front :
      (all front idents : List (Command V))
      → EndsInOperand front
      → AreNamed idents
      → trailing all (front ++ idents) ≡ some idents
  unfolding trailing
  trailing-front all [] idents h n = absurd h
  trailing-front all (c ∷ []) idents h n = rw (trailing-named all idents n, h.0) refl
  trailing-front all (c ∷ d ∷ front) idents h n =
      rw (trailing-front all (d ∷ front) idents h.1 n)
        (trailing_at-named c ((d ∷ front) ++ idents) idents h.0)

  IsHeaded-front : (front : List (Command V)) → IsFront front → IsHeaded (last_command front)
  IsHeaded-front [] h = tt
  IsHeaded-front (c ∷ []) h = h.1
  IsHeaded-front (c ∷ d ∷ cmds) h = IsHeaded-front (d ∷ cmds) h.1

  trailing-IsFront :
      (front idents : List (Command V))
      → IsFront front
      → AreNamed idents
      → trailing (front ++ idents) (front ++ idents) ≡ some idents
  trailing-IsFront [] idents h n = trailing-named idents idents n
  trailing-IsFront (c ∷ front) idents h n = trailing-front _ (c ∷ front) idents h n

  front_part :
      (front idents : List (Command V))
      → take (length (front ++ idents) - length idents) (front ++ idents) ≡ front
  front_part front idents =
      let n : length (front ++ idents) - length idents ≡ length front =
        omega (arith, length-append front idents) in
      rw n (take-append front idents)

module _ {V X : Type 0} (run : Command V → X → X) (law : IsRedundant run)
    (front idents : List (Command V)) (h : IsFront front) (n : AreNamed idents)
    (bare : AreBare idents) where
  ensure_idents-MergedBehind :
      (s : List Text) (o : Option Bool)
      → Holds (λ b. b ≡ true → Merges s idents idents) o
      → Holds (MergedBehind run front idents s) (ensure_idents (front ++ idents) s idents o)
  ensure_idents-MergedBehind s none there = absurd there
  ensure_idents-MergedBehind s (some true) there = (idents, there refl, λ x. refl)
  ensure_idents-MergedBehind s (some false) there =
      rw (front_part front idents)
        (merge-MergedBehind run law front idents s (IsHeaded-front front h) n bare)

  law-MergedBehind :
      (s : List Text)
      → Holds (MergedBehind run front idents s) (ensure_pipeline_contains (front ++ idents) s)
  unfolding ensure_pipeline_contains
  law-MergedBehind [] = (idents, kept_all idents, λ x. refl)
  law-MergedBehind (x ∷ s) =
      rw (ensure_pipeline_contains, trailing-IsFront front idents h n)
        (ensure_idents-MergedBehind (x ∷ s) (contained (x ∷ s) idents)
          (contained-Merges (x ∷ s) idents n))

-- For a pipeline of one command at most that is no identifier, of which `idents` are the identifiers
-- behind that command, or all commands, none of whose identifiers is `noescape`, and in which `idents` has
-- the functions of `FuncMap` without arguments: `ensurePipelineContains` does not panic, and the pipeline
-- that it leaves makes of every value what the commands in front make with a list of commands behind that
-- has `idents`, in order, and the escapers of `s`, in order, each as itself or as a function that
-- `equivEscapers` takes for it. The functions that `redundantFuncs` names are run as they are defined;
-- the other commands may do anything.
pub ensure_pipeline_contains-MergedBehind :
    {V : Type 0} (to_lower : Text → Text) (other : Command V → PipeValue → PipeValue)
    (front idents : List (Command V)) (s : List Text)
    → IsFront front
    → AreNamed idents
    → AreBare idents
    → Holds
        (MergedBehind (run_command to_lower other) front idents s)
        (ensure_pipeline_contains (front ++ idents) s)
ensure_pipeline_contains-MergedBehind to_lower other front idents s h n bare =
    law-MergedBehind (run_command to_lower other) (run_command-IsRedundant to_lower other) front
      idents h n bare s

-- Where escapers are required and the first two commands of a pipeline are no identifiers, as in
-- `{{.X | .Method}}`, and behind them are identifiers other than `noescape`, `ensurePipelineContains`
-- panics.
pub ensure_pipeline_contains-none :
    {V : Type 0} (c d : Command V) (idents : List (Command V)) (x : Text) (s : List Text)
    → command_name c ≡ none
    → command_name d ≡ none
    → AreNamed idents
    → ensure_pipeline_contains (c ∷ d ∷ idents) (x ∷ s) ≡ none
unfolding ensure_pipeline_contains trailing contained
ensure_pipeline_contains-none c d idents x s hc hd n =
    rw
      (
        ensure_pipeline_contains,
        trailing,
        trailing-named (c ∷ d ∷ idents) idents n,
        hd,
        hc,
        contained,
        hd,
      )
      refl
