-- ===== src/Template/Escape/Pipeline/Merged.antt =====
-- template/escape/escape.go: the last loops of `ensurePipelineContains` insert the missing escapers, in
-- order.
use sadbox.Prelude.{
  ℕ, suc, ◌≡◌, refl, sym, true, inl, inr, Option, none, some, List, [], ◌∷◌, ◌++◌, map, Text,
  text_eq_lem, Option-cases, if_elim, take, drop,
}
use sadbox.Template.Escape.Pipeline.{
  canonical, esc_fns_eq, index_of_str, Command, command_name, new_ident_cmd, last_command,
  append_cmd, append_all, missing_before, merge,
}
use sadbox.Template.Escape.Pipeline.Runs.{
  IsHeaded, Holds, AreNamed, AreBare, exec, IsRedundant, exec-append, RunsAs, append_cmd-RunsAs,
  append_all-RunsAs, Holds-bind, Holds-weaken,
}

-- `out` has the commands of `idents`, in order, and the escapers of `s`, in order, each as a command of
-- its own or as the command of an equivalent function.
pub data Merges {V : Type 0} : List Text → List (Command V) → List (Command V) → Type 0 where
  ends : Merges [] [] []
  inserted :
      {x : Text} {s : List Text} {idents out : List (Command V)}
      → Merges s idents out
      → Merges (x ∷ s) idents (new_ident_cmd x ∷ out)
  shared :
      {x : Text} {s : List Text} {id : Command V} {idents out : List (Command V)} (y : Text)
      → command_name id ≡ some y
      → canonical x ≡ canonical y
      → Merges s idents out
      → Merges (x ∷ s) (id ∷ idents) (id ∷ out)
  kept :
      {s : List Text} {id : Command V} {idents out : List (Command V)}
      → Merges s idents out
      → Merges s (id ∷ idents) (id ∷ out)

pub esc_fns_eq-canonical : (a b : Text) → esc_fns_eq a b ≡ true → canonical b ≡ canonical a
unfolding esc_fns_eq
esc_fns_eq-canonical a b e = sym ((text_eq_lem (canonical a) (canonical b)).0 e)

module _ {V : Type 0} where
  inserted_all : (s : List Text) → Merges {V = V} s [] (map new_ident_cmd s)
  inserted_all [] = ends
  inserted_all (x ∷ s) = inserted (inserted_all s)

  -- What stands at the position that `index_of_str` found, for the command `id`.
  abbrev IsFound : Command V → List Text → Option ℕ → Type 0
  IsFound id s none = Unit
  IsFound id s (some i) =
      (idents out : List (Command V))
      → Merges (drop (suc i) s) idents out
      → Merges s (id ∷ idents) (map new_ident_cmd (take i s) ++ (id ∷ out))

  next-IsFound :
      (id : Command V) (t : Text) (s : List Text) (o : Option ℕ)
      → IsFound id s o
      → IsFound id (t ∷ s) (elim o [ none ↦ none | some i ↦ some (suc i) ])
  next-IsFound id t s none h = tt
  next-IsFound id t s (some i) h = λ idents out m. inserted (h idents out m)

  index_of_str-IsFound :
      (id : Command V) (y : Text) (s : List Text)
      → command_name id ≡ some y
      → IsFound id s (index_of_str y s esc_fns_eq)
  unfolding index_of_str
  index_of_str-IsFound id y [] e = tt
  index_of_str-IsFound id y (t ∷ s) e =
      if_elim (IsFound id (t ∷ s)) (esc_fns_eq y t)
        (λ same. λ idents out m. shared y e (esc_fns_eq-canonical y t same) m)
        λ _. next-IsFound id t s (index_of_str y s esc_fns_eq) (index_of_str-IsFound id y s e)

module _ {V X : Type 0} (run : Command V → X → X) where
  -- `out` runs as `cmds` do with the merged commands behind.
  abbrev pub MergedBehind :
      List (Command V) → List (Command V) → List Text → List (Command V) → Type 0
  MergedBehind cmds idents s out =
      (merged : List (Command V)) × Merges s idents merged
      × ((x : X) → exec run out x ≡ exec run (cmds ++ merged) x)

module _ {V X : Type 0} (run : Command V → X → X) (law : IsRedundant run) where
  -- The escapers of `s` that stand in front of `id` are behind `cmds` now; the others are left.
  abbrev Opens : Command V → List (Command V) → List Text → List (Command V) × List Text → Type 0
  Opens id cmds s p =
      (between : List (Command V)) × RunsAs run cmds between p.0
      × ((idents out : List (Command V))
          → Merges p.1 idents out
          → Merges s (id ∷ idents) (between ++ (id ∷ out)))

  missing_before-Opens :
      (id : Command V) (cmds : List (Command V)) (s : List Text) (o : Option ℕ)
      → IsHeaded (last_command cmds)
      → IsFound id s o
      → Holds (Opens id cmds s) (missing_before cmds s o)
  unfolding exec
  missing_before-Opens id cmds s none h found = ([], (h, λ x. refl), λ idents out m. kept m)
  missing_before-Opens id cmds s (some i) h found =
      Holds-bind (RunsAs run cmds (map new_ident_cmd (take i s))) (Opens id cmds s)
        (append_all cmds (take i s)) (λ more. some (more, drop (suc i) s))
        (append_all-RunsAs run law cmds (take i s) h)
        λ more r. (map new_ident_cmd (take i s), r, found)

  behind :
      (cmds more longer merged between : List (Command V)) (id : Command V) (x : X) {y : X}
      → y ≡ exec run (longer ++ merged) x
      → exec run longer x ≡ exec run (id ∷ []) (exec run more x)
      → exec run more x ≡ exec run between (exec run cmds x)
      → y ≡ exec run (cmds ++ (between ++ (id ∷ merged))) x
  unfolding exec
  behind cmds more longer merged between id x e f g =
      rw
        (
          e,
          exec-append run longer merged x,
          f,
          g,
          exec-append run cmds (between ++ (id ∷ merged)) x,
          exec-append run between (id ∷ merged) (exec run cmds x),
        )
        refl

  pub merge-MergedBehind :
      (cmds idents : List (Command V)) (s : List Text)
      → IsHeaded (last_command cmds)
      → AreNamed idents
      → AreBare idents
      → Holds (MergedBehind run cmds idents s) (merge cmds idents s)
  unfolding merge exec
  merge-MergedBehind cmds [] s h n bare =
      Holds-weaken _ _ (append_all cmds s) (append_all-RunsAs run law cmds s h) λ out r. (
        map new_ident_cmd s,
        inserted_all s,
        λ x. rw (exec-append run cmds (map new_ident_cmd s) x) (r.1 x),
      )
  merge-MergedBehind cmds (id ∷ idents) s h n bare = elim (Option-cases (command_name id)) [
    | inl unnamed ↦ absurd (rw unnamed at n.0)
    | inr (y, e) ↦
        rw (merge, e)
          (Holds-bind (Opens id cmds s) (MergedBehind run cmds (id ∷ idents) s)
            (missing_before cmds s (index_of_str y s esc_fns_eq))
            (λ p. elim (append_cmd p.0 id) [ none ↦ none | some longer ↦ merge longer idents p.1 ])
            (missing_before-Opens id cmds s _ h (index_of_str-IsFound id y s e))
            λ p opens.
              Holds-bind (RunsAs run p.0 (id ∷ [])) (MergedBehind run cmds (id ∷ idents) s)
                (append_cmd p.0 id) (λ longer. merge longer idents p.1)
                (append_cmd-RunsAs run law p.0 id y e bare.0 opens.1.0)
                λ longer r.
                  Holds-weaken _ _ (merge longer idents p.1)
                    (merge-MergedBehind longer idents p.1 r.0 n.1 bare.1)
                    λ out m. (
                      opens.0 ++ (id ∷ m.0),
                      opens.2 idents m.0 m.1,
                      λ x. behind cmds p.0 longer m.0 opens.0 id x (m.2 x) (r.1 x) (opens.1.1 x),
                    ))
  ]
