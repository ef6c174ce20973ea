-- ===== src/Template/Escape/Pipeline.antt =====
-- template/escape/escape.go: the escapers that a pipeline is to contain.
pub mod Runs
pub mod Merged
pub mod Ensured
pub mod Commands
pub mod Escapers
mod Tests
use sadbox.Prelude.{
  ℕ, suc, ◌+◌, Bool, true, false, Option, none, some, List, [], ◌∷◌, ◌++◌, Text, codes, text_eq,
  if◌then◌else◌, take, drop, length, ◌-◌,
}

-- `equivEscapers`, where the empty text is for a missing key.
unfoldable pub equiv_escapers : Text → Text
equiv_escapers a =
    if text_eq a (codes "html_template_attrescaper")
    then codes "html"
    else if text_eq a (codes "html_template_htmlescaper")
    then codes "html"
    else if text_eq a (codes "html_template_nospaceescaper")
    then codes "html"
    else if text_eq a (codes "html_template_rcdataescaper")
    then codes "html"
    else if text_eq a (codes "html_template_urlescaper")
    then codes "urlquery"
    else if text_eq a (codes "html_template_urlnormalizer")
    then codes "urlquery"
    else []

-- The name, or the builtin that does the same.
unfoldable pub canonical : Text → Text
canonical a = elim (equiv_escapers a) [ [] ↦ a | x ∷ e ↦ x ∷ e ]

unfoldable pub esc_fns_eq : Text → Text → Bool
esc_fns_eq a b = text_eq (canonical a) (canonical b)

-- The rows of `redundantFuncs`.
abbrev pub redundant_row : List (Text × List Text)
redundant_row =
    (
      codes "html_template_commentescaper",
      codes "html_template_attrescaper"
          ∷ codes "html_template_nospaceescaper"
          ∷ codes "html_template_htmlescaper"
          ∷ [],
    )
    ∷ (codes "html_template_cssescaper", codes "html_template_attrescaper" ∷ [])
    ∷ (codes "html_template_jsregexpescaper", codes "html_template_attrescaper" ∷ [])
    ∷ (codes "html_template_jsstrescaper", codes "html_template_attrescaper" ∷ [])
    ∷ (codes "html_template_urlescaper", codes "html_template_urlnormalizer" ∷ [])
    ∷ []

abbrev pub in_row : List Text → Text → Bool
in_row [] b = false
in_row (x ∷ xs) b = if text_eq x b then true else in_row xs b

abbrev pub redundant_in : List (Text × List Text) → Text → Text → Bool
redundant_in [] a b = false
redundant_in ((k, row) ∷ rows) a b = if text_eq k a then in_row row b else redundant_in rows a b

-- `redundantFuncs[a][b]`.
unfoldable pub redundant_funcs : Text → Text → Bool
redundant_funcs = redundant_in redundant_row

-- `indexOfStr`.
unfoldable pub index_of_str : Text → List Text → (Text → Text → Bool) → Option ℕ
index_of_str s [] eq = none
index_of_str s (t ∷ strs) eq =
    let rest = index_of_str s strs eq in
    if eq s t then some 0 else elim rest [ none ↦ none | some i ↦ some (suc i) ]

-- The nodes of a pipeline. An argument that is no identifier is left open, as `V`.
pub data Argument (V : Type 0) : Type 0 where
  identifier : Text → Argument V
  operand : V → Argument V

abbrev pub Command : Type 0 → Type 0
Command V = List (Argument V)

module _ {V : Type 0} where
  abbrev pub argument_name : Argument V → Option Text
  argument_name (identifier x) = some x
  argument_name (operand v) = none

  -- `cmd.Args[0].(*parse.IdentifierNode)`, where there is such a node.
  abbrev pub command_name : Command V → Option Text
  command_name [] = none
  command_name (a ∷ args) = argument_name a

  abbrev pub new_ident_cmd : Text → Command V
  new_ident_cmd x = identifier x ∷ []

  -- A round of the loop that looks for the identifiers at the end, at a command with `behind` behind it.
  -- `none` is the return at `noescape`.
  abbrev pub trailing_at :
      Option Text → List (Command V) → List (Command V) → Option (List (Command V))
  trailing_at none behind idents = some behind
  trailing_at (some x) behind idents = if text_eq x (codes "noescape") then none else some idents

  -- The loop runs from the last command to the first, and does not stop at the first that is no
  -- identifier.
  unfoldable pub trailing : List (Command V) → List (Command V) → Option (List (Command V))
  trailing all [] = some all
  trailing all (c ∷ behind) = elim (trailing all behind) [
    | none ↦ none
    | some idents ↦ trailing_at (command_name c) behind idents
  ]

  -- The loop that counts the escapers that are there, with those that are left. `none` is a panic: an
  -- argument is missing, or is no identifier.
  unfoldable pub contained : List Text → List (Command V) → Option Bool
  contained [] idents = some true
  contained (x ∷ s) [] = some false
  contained (x ∷ s) (id ∷ idents) = elim (command_name id) [
    | none ↦ none
    | some y ↦
        let shorter = contained s idents in
        let same = contained (x ∷ s) idents in if esc_fns_eq x y then shorter else same
  ]

  -- `none` is a panic: the next command has an operand for a name, and `next` is nil.
  abbrev pub redundant_after : Argument V → Argument V → Option Bool
  redundant_after (identifier a) (identifier b) = some (redundant_funcs a b)
  redundant_after (identifier a) (operand v) = none
  redundant_after (operand v) b = some false

  abbrev pub appended : List (Command V) → Command V → Option Bool → Option (List (Command V))
  appended cmds cmd none = none
  appended cmds cmd (some redundant) = some (if redundant then cmds else cmds ++ (cmd ∷ []))

  abbrev pub redundant_behind : Command V → Command V → Option Bool
  redundant_behind [] cmd = none
  redundant_behind (a ∷ last) [] = none
  redundant_behind (a ∷ last) (b ∷ cmd) = redundant_after a b

  abbrev pub last_command : List (Command V) → Option (Command V)
  last_command [] = none
  last_command (c ∷ []) = some c
  last_command (c ∷ d ∷ cmds) = last_command (d ∷ cmds)

  -- `appendCmd`. `none` is a panic: a command has no argument.
  unfoldable pub append_cmd : List (Command V) → Command V → Option (List (Command V))
  append_cmd cmds cmd = elim (last_command cmds) [
    | none ↦ some (cmd ∷ [])
    | some last ↦ appended cmds cmd (redundant_behind last cmd)
  ]

  -- The escapers of `s`, in order, behind the commands.
  unfoldable pub append_all : List (Command V) → List Text → Option (List (Command V))
  append_all cmds [] = some cmds
  append_all cmds (x ∷ s) = elim (append_cmd cmds (new_ident_cmd x)) [
    | none ↦ none
    | some more ↦ append_all more s
  ]

  -- The escapers in front of the one that `id` is, if it is one, with those that are left.
  abbrev pub missing_before :
      List (Command V) → List Text → Option ℕ → Option (List (Command V) × List Text)
  missing_before cmds s none = some (cmds, s)
  missing_before cmds s (some i) = elim (append_all cmds (take i s)) [
    | none ↦ none
    | some more ↦ some (more, drop (suc i) s)
  ]

  -- The last two loops of `ensurePipelineContains`.
  unfoldable pub merge : List (Command V) → List (Command V) → List Text → Option (List (Command V))
  merge cmds [] s = append_all cmds s
  merge cmds (id ∷ idents) s = elim (command_name id) [
    | none ↦ none
    | some y ↦ elim (missing_before cmds s (index_of_str y s esc_fns_eq)) [
      | none ↦ none
      | some (more, left) ↦ elim (append_cmd more id) [
        | none ↦ none
        | some longer ↦ merge longer idents left
      ]
    ]
  ]

  abbrev pub ensure_idents :
      List (Command V) → List Text → List (Command V) → Option Bool → Option (List (Command V))
  ensure_idents cmds s idents none = none
  ensure_idents cmds s idents (some true) = some cmds
  ensure_idents cmds s idents (some false) =
      merge (take (length cmds - length idents) cmds) idents s

  -- `ensurePipelineContains`: the commands of the pipeline afterwards. `none` is a panic.
  unfoldable pub ensure_pipeline_contains : List (Command V) → List Text → Option (List (Command V))
  ensure_pipeline_contains cmds [] = some cmds
  ensure_pipeline_contains cmds (x ∷ s) = elim (trailing cmds cmds) [
    | none ↦ some cmds
    | some idents ↦ ensure_idents cmds (x ∷ s) idents (contained (x ∷ s) idents)
  ]
