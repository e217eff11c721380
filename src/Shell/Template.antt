-- ===== src/Shell/Template.antt =====
-- What substitution makes of a text that is built from plain pieces and placeholders
-- (crates/psroot-shell-resolver/src/resolve.rs).
use psroot.Prelude.{List, [], ◌∷◌, ◌++◌}
use psroot.Text.{Text}
use psroot.Text.Split.{Lacks}
use psroot.Shell.{Result, ok}
use psroot.Shell.Substitute.{Vars, get, with_out, filled_in}

-- A template: plain texts, each followed by a placeholder, and a plain text at the end.
pub record Piece : Type 0 where
  pub plain : Text
  pub key : Text

pub record Template : Type 0 where
  pub pieces : List Piece
  pub last : Text

abbrev pub render_pieces : List Piece → Text → Text
render_pieces [] last = last
render_pieces (p ∷ ps) last = p.plain ++ b'{' ∷ (p.key ++ b'}' ∷ render_pieces ps last)

-- The text of a template.
abbrev pub render : Template → Text
render t = render_pieces t.pieces t.last

abbrev pub value_pieces : Vars → List Piece → Text → Result Text
value_pieces vars [] last = ok last
value_pieces vars (p ∷ ps) last =
    with_out p.plain (filled_in p.key (get p.key vars) (value_pieces vars ps last))

-- The plain texts as they are, and the value of each placeholder as it is, or the first one that has
-- none.
abbrev pub value : Vars → Template → Result Text
value vars t = value_pieces vars t.pieces t.last

abbrev pub IsPlainPieces : List Piece → Type 0
IsPlainPieces [] = Unit
IsPlainPieces (p ∷ ps) = (Lacks b'{' p.plain × Lacks b'}' p.key) × IsPlainPieces ps

-- A plain text has no opening brace, and a key no closing one.
abbrev pub IsPlain : Template → Type 0
IsPlain t = IsPlainPieces t.pieces × Lacks b'{' t.last
