-- ===== src/Shell/Catalog.antt =====
-- The catalog of shells (crates/psroot-shell-resolver/src/catalog/mod.rs).
use psroot.Prelude.{
  ℕ, Option, none, some, List, [], ◌∷◌, ◌++◌, if◌then◌else◌, length, get_elem?, set,
}
use psroot.Text.{Text, text_eq, to_lower}
use psroot.Shell.{CatalogFile}

-- The index maps a name or an alias, in lower case, to a position among the entries.
pub record Catalog : Type 0 where
  pub entries : List CatalogFile
  pub by_name : List (Text × ℕ)

abbrev pub empty_catalog : Catalog
empty_catalog = record { entries = []; by_name = [] }

abbrev pub index_get : Text → List (Text × ℕ) → Option ℕ
index_get k [] = none
index_get k ((j, i) ∷ m) = if text_eq k j then some i else index_get k m

-- An entry of the map is replaced.
abbrev pub index_insert : Text → ℕ → List (Text × ℕ) → List (Text × ℕ)
index_insert k i [] = (k, i) ∷ []
index_insert k i ((j, h) ∷ m) = if text_eq k j then (j, i) ∷ m else (j, h) ∷ index_insert k i m

abbrev pub index_aliases : List Text → ℕ → List (Text × ℕ) → List (Text × ℕ)
index_aliases [] i m = m
index_aliases (a ∷ as') i m = index_aliases as' i (index_insert (to_lower a) i m)

-- The catalog with the entry at its position, and the position.
abbrev pub placed : CatalogFile → Option ℕ → Catalog → Catalog × ℕ
placed entry (some i) c = (record c { entries = set c.entries i entry }, i)
placed entry none c = (
  record {
    entries = c.entries ++ entry ∷ [];
    by_name = index_insert (to_lower entry.name) (length c.entries) c.by_name;
  },
  length c.entries,
)

unfoldable pub add : CatalogFile → Catalog → Catalog
add entry c =
    let (c', i) = placed entry (index_get (to_lower entry.name) c.by_name) c in
    record c' { by_name = index_aliases entry.aliases i c'.by_name }

abbrev pub entry_at : List CatalogFile → Option ℕ → Option CatalogFile
entry_at entries none = none
entry_at entries (some i) = get_elem? entries i

unfoldable pub lookup : Text → Catalog → Option CatalogFile
lookup name c = entry_at c.entries (index_get (to_lower name) c.by_name)

abbrev pub names_of : List CatalogFile → List Text
names_of [] = []
names_of (e ∷ es) = e.name ∷ names_of es

unfoldable pub list_known : Catalog → List Text
list_known c = names_of c.entries
