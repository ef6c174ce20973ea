-- ===== src/Template/Escape/Advance.antt =====
-- template/escape/transition.go: what a transition consumes lies in the text, and none stands still.
pub mod Tags
pub mod Scripts
pub mod Styles
pub mod Table
use sadbox.Prelude.{
  ℕ, ◌≤◌, ◌<◌, ◌≡◌, ◌⊎◌, refl, Bool, true, false, inl, inr, Option, none, some, if◌then◌else◌, ◌+◌,
}
use sadbox.Template.Escape.Context.{
  State, state_attr_name, state_after_name, state_before_value, state_rcdata, state_js_line_cmt,
  state_css_line_cmt, Context,
}
use sadbox.Template.Escape.Html.{Step}

-- How many steps in a row can consume nothing from a state on.
abbrev pub rank : State → ℕ
rank state_attr_name = 2
rank state_after_name = 1
rank state_before_value = 1
rank state_rcdata = 1
rank state_js_line_cmt = 1
rank state_css_line_cmt = 1
rank _ = 0

-- The step stays in a text of length `n`, and consumes some of it or leaves for a state of lower rank.
pub record Advances (c : Context) (n : ℕ) (r : Step) : Type 0 where
  pub within : r.1 ≤ n
  pub moves : (0 < r.1) ⊎ (rank r.0.state < rank c.state)

pub consumes : (c : Context) (n : ℕ) (r : Step) → r.1 ≤ n → 0 < r.1 → Advances c n r
consumes c n r h g = record { within = h; moves = inl g }

pub if-Advances :
    (b : Bool) (c : Context) (n : ℕ) (r t : Step)
    → (b ≡ true → Advances c n r)
    → (b ≡ false → Advances c n t)
    → Advances c n (if b then r else t)
if-Advances true c n r t h g = h refl
if-Advances false c n r t h g = g refl

-- A step that leaves for a state of lower rank.
pub leaves :
    (c : Context) (n : ℕ) (r : Step) → r.1 ≤ n → rank r.0.state < rank c.state → Advances c n r
leaves c n r h g = record { within = h; moves = inr g }

-- A context in a state of its own.
abbrev pub at : State → Context → Context
at s c = record c { state = s }

-- Something of length `m` that was found at a position, if it was found, lies in a text of length `n`.
abbrev pub Lies : ℕ → ℕ → Option ℕ → Type 0
Lies m n none = Unit
Lies m n (some i) = i + m ≤ n
