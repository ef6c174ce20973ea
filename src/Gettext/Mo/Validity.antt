-- ===== src/Gettext/Mo/Validity.antt =====
-- gettext/mo.go: what `Read` keeps of the catalog that it reads into, whatever the file.
use sadbox.Prelude.{
  ℕ, zero, suc, ◌+◌, ◌≡◌, refl, ◌∙◌, inl, inr, Option, none, some, List, [], ◌∷◌, Text, codes,
  text_eq, look, Option-cases,
}
use sadbox.Gettext.Bytes.Words.{ByteOrder}
use sadbox.Gettext.Catalog.{Catalog, add}
use sadbox.Gettext.Catalog.Invariant.{IsValid, add-IsValid}
use sadbox.Gettext.Mo.{ReadError, read_mo_header, get_plural_func}
use sadbox.Gettext.Mo.Reader.{
  read_mo, read_all, unless_failed, read_entries, read_entry, read_tables, set_plural_func,
  store_entry, entry_message,
}
use sadbox.Gettext.Mo.Truncated.{Read-cases}

-- The catalog `d` is valid and has the context that is active in `c`.
pub record Keeps (c d : Catalog) : Type 0 where
  pub valid : IsValid c → IsValid d
  pub same_ctx : d.ctx ≡ c.ctx
  pub same_has_ctx : d.has_ctx ≡ c.has_ctx

Keeps-refl : (c : Catalog) → Keeps c c
Keeps-refl c = record { valid = λ v. v; same_ctx = refl; same_has_ctx = refl }

Keeps-trans : {c d e : Catalog} → Keeps c d → Keeps d e → Keeps c e
Keeps-trans p q = record {
  valid = λ v. q.valid (p.valid v);
  same_ctx = q.same_ctx ∙ p.same_ctx;
  same_has_ctx = q.same_has_ctx ∙ p.same_has_ctx;
}

module _ (lower : Text → Text) where
  store_entry-Keeps : (c : Catalog) (e : Text × Text) → Keeps c (store_entry lower c e)
  unfolding store_entry read_mo_header add
  store_entry-Keeps c ([], tb) = record {
    valid = λ v. record { keyed = v.keyed; no_ctx = v.no_ctx };
    same_ctx = refl;
    same_has_ctx = refl;
  }
  store_entry-Keeps c (b ∷ mb, tb) = record {
    valid = add-IsValid c (entry_message (b ∷ mb) tb);
    same_ctx = refl;
    same_has_ctx = refl;
  }

  read_entries-Keeps :
      (order : ByteOrder) (file : Text) (n m t : ℕ) (c : Catalog)
      → Keeps c (read_entries lower order file n m t c).0
  unfolding read_entries
  read_entries-Keeps order file zero m t c = Keeps-refl c
  read_entries-Keeps order file (suc n) m t c = elim (Read-cases (read_entry order file m t)) [
    | inl (e, h) ↦
        rw (read_entries, h)
          (Keeps-trans (store_entry-Keeps c e)
            (read_entries-Keeps order file n (m + 8) (t + 8) (store_entry lower c e)))
    | inr (e, h) ↦ rw (read_entries, h) (Keeps-refl c)
  ]

  set_plural_func-Keeps : (c : Catalog) → Keeps c (set_plural_func c).0
  unfolding set_plural_func
  set_plural_func-Keeps c = elim (Option-cases (look text_eq c.header (codes "plural-forms"))) [
    | inl e ↦ rw (set_plural_func, e) (Keeps-refl c)
    | inr (header, e) ↦ elim (Read-cases (get_plural_func header)) [
      | inl (fn, h) ↦
          rw (set_plural_func, e, h)
            (record {
              valid = λ v. record { keyed = v.keyed; no_ctx = v.no_ctx };
              same_ctx = refl;
              same_has_ctx = refl;
            })
      | inr (_, h) ↦ rw (set_plural_func, e, h) (Keeps-refl c)
    ]
  ]

  unless_failed-Keeps :
      (c : Catalog) (s : Catalog × Option ReadError) → Keeps c s.0 → Keeps c (unless_failed s).0
  unless_failed-Keeps c (d, some e) k = k
  unless_failed-Keeps c (d, none) k = Keeps-trans k (set_plural_func-Keeps d)

  read_all-Keeps :
      (file : Text) (c : Catalog) (order : ByteOrder) (idx : List ℕ)
      → Keeps c (read_all lower file c order idx).0
  read_all-Keeps file c order (n ∷ m ∷ t ∷ l) =
      unless_failed-Keeps c _ (read_entries-Keeps order file n m t c)
  read_all-Keeps file c order [] = Keeps-refl c
  read_all-Keeps file c order (n ∷ []) = Keeps-refl c
  read_all-Keeps file c order (n ∷ m ∷ []) = Keeps-refl c

  read_mo-Keeps : (c : Catalog) (file : Text) → Keeps c (read_mo lower c file).0
  unfolding read_mo
  read_mo-Keeps c file = elim (Read-cases (read_tables file)) [
    | inl ((order, idx), h) ↦ rw (read_mo, h) (read_all-Keeps file c order idx)
    | inr (e, h) ↦ rw (read_mo, h) (Keeps-refl c)
  ]

-- Reading any file, also one that is refused half way, leaves a valid catalog valid and its active context
-- as it was.
pub read_mo-IsValid :
    (lower : Text → Text) (c : Catalog) (file : Text)
    → IsValid c
    → IsValid (read_mo lower c file).0
      × ((read_mo lower c file).0.ctx ≡ c.ctx)
      × ((read_mo lower c file).0.has_ctx ≡ c.has_ctx)
read_mo-IsValid lower c file v =
    let k = read_mo-Keeps lower c file in (k.valid v, k.same_ctx, k.same_has_ctx)
