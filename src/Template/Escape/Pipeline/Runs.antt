-- ===== src/Template/Escape/Pipeline/Runs.antt =====
-- template/escape/escape.go: what a pipeline makes of a value, and the commands that `appendCmd` leaves
-- out.
use sadbox.Prelude.{
  ◌≡◌, ◌≢◌, refl, sym, Bool, true, false, inl, inr, Option, none, some, List, [], ◌∷◌, ◌++◌, map,
  Text, codes, text_eq, text_eq_lem, subst, Bool-cases, ◌⊎◌, Option-cases,
}
use sadbox.Template.Escape.Action.{func_map}
use sadbox.Template.Escape.Pipeline.{
  in_row, redundant_in, redundant_row, redundant_funcs, identifier, operand, Command, command_name,
  new_ident_cmd, appended, redundant_behind, last_command, append_cmd, append_all,
}

-- A command whose name is one of `FuncMap` has no argument but the value of the pipeline.
abbrev pub IsBare : {V : Type 0} → Command V → Type 0
IsBare [] = ⊥
IsBare (identifier a ∷ args) = (args ≡ []) ⊎ (in_row func_map a ≡ false)
IsBare (operand v ∷ args) = Unit

abbrev pub AreBare : {V : Type 0} → List (Command V) → Type 0
AreBare [] = Unit
AreBare (c ∷ cmds) = IsBare c × AreBare cmds

-- The last command of a list, where there is one, is such a command.
abbrev pub IsHeaded : {V : Type 0} → Option (Command V) → Type 0
IsHeaded none = Unit
IsHeaded (some c) = IsBare c

abbrev pub AreKnown : List Text → Type 0
AreKnown [] = Unit
AreKnown (x ∷ s) = (in_row func_map x ≡ true) × AreKnown s

-- There is a result, and it has the property.
abbrev pub Holds {ℓ} : {A : Type ℓ} → (A → Type 0) → Option A → Type 0
Holds P none = ⊥
Holds P (some a) = P a

abbrev pub IsNamed : {V : Type 0} → Command V → Type 0
IsNamed c = Holds (λ y. text_eq y (codes "noescape") ≡ false) (command_name c)

-- Every command is headed by an identifier other than `noescape`.
abbrev pub AreNamed : {V : Type 0} → List (Command V) → Type 0
AreNamed [] = Unit
AreNamed (c ∷ cmds) = IsNamed c × AreNamed cmds

-- What holds of every pair that `redundantFuncs` has.
abbrev RowHolds : (Text → Type 0) → List Text → Type 0
RowHolds P [] = Unit
RowHolds P (x ∷ row) = P x × RowHolds P row

abbrev pub PairsHold : (Text → Text → Type 0) → List (Text × List Text) → Type 0
PairsHold P [] = Unit
PairsHold P ((k, row) ∷ rows) = RowHolds (P k) row × PairsHold P rows

in_row-elim :
    (P : Text → Type 0) (row : List Text) (b : Text) → RowHolds P row → in_row row b ≡ true → P b
in_row-elim P [] b k h = absurd (cc)
in_row-elim P (x ∷ row) b k h = elim (Bool-cases (text_eq x b)) [
  | inl e ↦ subst P ((text_eq_lem x b).0 e) k.0
  | inr e ↦ in_row-elim P row b k.1 (rw e at h)
]

pub redundant_in-elim :
    (P : Text → Text → Type 0) (rows : List (Text × List Text)) (a b : Text)
    → PairsHold P rows
    → redundant_in rows a b ≡ true
    → P a b
redundant_in-elim P [] a b k h = absurd (cc)
redundant_in-elim P ((x, row) ∷ rows) a b k h = elim (Bool-cases (text_eq x a)) [
  | inl e ↦ subst (λ t. P t b) ((text_eq_lem x a).0 e) (in_row-elim (P x) row b k.0 (rw e at h))
  | inr e ↦ redundant_in-elim P rows a b k.1 (rw e at h)
]

-- Both are functions of `FuncMap`.
abbrev AreInMap : Text → Text → Type 0
AreInMap a b = (in_row func_map a ≡ true) × (in_row func_map b ≡ true)

redundant_funcs-AreInMap : (a b : Text) → redundant_funcs a b ≡ true → AreInMap a b
unfolding redundant_funcs
redundant_funcs-AreInMap a b =
    let both : (true ≡ true) × (true ≡ true) = (refl, refl) in
    redundant_in-elim AreInMap redundant_row a b
      ((both, (both, (both, tt))), ((both, tt), ((both, tt), ((both, tt), ((both, tt), tt)))))

module _ {V X : Type 0} (run : Command V → X → X) where
  -- What the pipeline makes of a value.
  unfoldable pub exec : List (Command V) → X → X
  exec [] x = x
  exec (c ∷ cmds) x = exec cmds (run c x)

  -- What the comment on `redundantFuncs` says: `FuncMap[b](FuncMap[a](x)) == FuncMap[a](x)` for all x.
  abbrev pub IsRedundant : Type 0
  IsRedundant =
      (a b : Text) (x : X)
      → redundant_funcs a b ≡ true
      → run (new_ident_cmd b) (run (new_ident_cmd a) x) ≡ run (new_ident_cmd a) x

  bare-redundant :
      IsRedundant
      → (l d : Command V) (x : X) → IsBare l
      → IsBare d
      → redundant_behind l d ≡ some true
      → run d (run l x) ≡ run l x
  bare-redundant law [] d x hl hd r = absurd hl
  bare-redundant law (a ∷ l) [] x hl hd r = absurd hd
  bare-redundant law (operand v ∷ l) (b ∷ d) x hl hd r = absurd (cc)
  bare-redundant law (identifier a ∷ l) (operand v ∷ d) x hl hd r = absurd (cc)
  bare-redundant law (identifier a ∷ l) (identifier b ∷ d) x hl hd r =
      let e : redundant_funcs a b ≡ true = cc in
      let k = redundant_funcs-AreInMap a b e in
      elim hl [
        | inr odd ↦ absurd (let h = k.0 in cc)
        | inl bare ↦ elim hd [
          | inr odd ↦ absurd (let h = k.1 in cc)
          | inl bare2 ↦ rw (bare, bare2) (law a b x e)
        ]
      ]

  pub exec-append : (a b : List (Command V)) (x : X) → exec (a ++ b) x ≡ exec b (exec a x)
  unfolding exec
  exec-append [] b x = refl
  exec-append (c ∷ a) b x = exec-append a b (run c x)

  exec-redundant :
      IsRedundant
      → (cmds : List (Command V)) (l d : Command V) (x : X) → last_command cmds ≡ some l
      → IsBare l
      → IsBare d
      → redundant_behind l d ≡ some true
      → run d (exec cmds x) ≡ exec cmds x
  unfolding exec
  exec-redundant law [] l d x e hl hd r = absurd (cc)
  exec-redundant law (c ∷ []) l d x e hl hd r =
      rw (some_injective e) (bare-redundant law l d x hl hd r)
    where
      some_injective : {a b : Command V} → some a ≡ some b → a ≡ b
      some_injective h = cc
  exec-redundant law (c ∷ c2 ∷ cmds) l d x e hl hd r =
      exec-redundant law (c2 ∷ cmds) l d (run c x) e hl hd r

  -- `out` runs as `cmds` with `more` behind.
  abbrev pub RunsAs : List (Command V) → List (Command V) → List (Command V) → Type 0
  RunsAs cmds more out =
      IsHeaded (last_command out) × ((x : X) → exec out x ≡ exec more (exec cmds x))

last_command-append :
    {V : Type 0} (cmds : List (Command V)) (c : Command V)
    → last_command (cmds ++ (c ∷ [])) ≡ some c
last_command-append [] c = refl
last_command-append (d ∷ []) c = refl
last_command-append (d ∷ e ∷ cmds) c = last_command-append (e ∷ cmds) c

last_command-none : {V : Type 0} (cmds : List (Command V)) → last_command cmds ≡ none → cmds ≡ []
last_command-none [] e = refl
last_command-none (c ∷ []) e = absurd (cc)
last_command-none (c ∷ d ∷ cmds) e = absurd (let n = last_command-none (d ∷ cmds) e in cc)

module _ {A B : Type 0} where
  pub Holds-bind :
      (P : A → Type 0) (Q : B → Type 0) (o : Option A) (f : A → Option B)
      → Holds P o
      → ((a : A) → P a → Holds Q (f a))
      → Holds Q (elim o [ none ↦ none | some a ↦ f a ])
  Holds-bind P Q none f h g = absurd h
  Holds-bind P Q (some a) f h g = g a h

module _ {A : Type 0} where
  pub Holds-weaken :
      (P Q : A → Type 0) (o : Option A) → Holds P o → ((a : A) → P a → Q a) → Holds Q o
  Holds-weaken P Q none h g = h
  Holds-weaken P Q (some a) h g = g a h

module _ {V X : Type 0} (run : Command V → X → X) (law : IsRedundant run) where
  appended-RunsAs :
      (cmds : List (Command V)) (l c : Command V) (o : Option Bool)
      → last_command cmds ≡ some l
      → IsHeaded (last_command cmds)
      → IsHeaded (some c)
      → redundant_behind l c ≡ o
      → o ≢ none
      → Holds (RunsAs run cmds (c ∷ [])) (appended cmds c o)
  unfolding exec
  appended-RunsAs cmds l c none e h hc r n = n refl
  appended-RunsAs cmds l c (some true) e h hc r n =
      (h, λ x. sym (exec-redundant run law cmds l c x e (rw e at h) hc r))
  appended-RunsAs cmds l c (some false) e h hc r n =
      (rw (last_command-append cmds c) hc, λ x. exec-append run cmds (c ∷ []) x)

  redundant_behind-some :
      (l c : Command V) (y : Text)
      → IsHeaded (some l)
      → command_name c ≡ some y
      → redundant_behind l c ≢ none
  redundant_behind-some [] c y h e = absurd h
  redundant_behind-some (a ∷ l) [] y h e = absurd (cc)
  redundant_behind-some (identifier b ∷ l) (identifier d ∷ c) y h e = λ n. absurd (cc)
  redundant_behind-some (identifier b ∷ l) (operand d ∷ c) y h e = absurd (cc)
  redundant_behind-some (operand v ∷ l) (d ∷ c) y h e = λ n. absurd (cc)

  pub append_cmd-RunsAs :
      (cmds : List (Command V)) (c : Command V) (y : Text)
      → command_name c ≡ some y
      → IsBare c
      → IsHeaded (last_command cmds)
      → Holds (RunsAs run cmds (c ∷ [])) (append_cmd cmds c)
  unfolding append_cmd exec
  append_cmd-RunsAs cmds c y e bare h = elim (Option-cases (last_command cmds)) [
    | inl empty ↦ rw (last_command-none cmds empty) (bare, λ x. refl)
    | inr (l, last) ↦
        rw (append_cmd, last)
          (appended-RunsAs cmds l c (redundant_behind l c) last h bare refl
            (redundant_behind-some l c y (rw last at h) e))
  ]

  pub append_all-RunsAs :
      (cmds : List (Command V)) (s : List Text)
      → IsHeaded (last_command cmds)
      → Holds (RunsAs run cmds (map new_ident_cmd s)) (append_all cmds s)
  unfolding append_all exec
  append_all-RunsAs cmds [] h = (h, λ x. refl)
  append_all-RunsAs cmds (x ∷ s) h =
      Holds-bind (RunsAs run cmds (new_ident_cmd x ∷ []))
        (RunsAs run cmds (map new_ident_cmd (x ∷ s))) (append_cmd cmds (new_ident_cmd x))
        (λ more. append_all more s) (append_cmd-RunsAs cmds (new_ident_cmd x) x refl (inl refl) h)
        λ more r.
          Holds-weaken (RunsAs run more (map new_ident_cmd s))
            (RunsAs run cmds (map new_ident_cmd (x ∷ s))) (append_all more s)
            (append_all-RunsAs more s r.0) λ out t. (t.0, λ z. rw (t.1 z, r.1 z) refl)
