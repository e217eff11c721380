-- ===== src/Shell/Substitute.antt =====
-- Placeholders in the texts of a catalog (crates/psroot-shell-resolver/src/resolve.rs).
use psroot.Prelude.{ℕ, zero, suc, Option, none, some, List, [], ◌∷◌, ◌++◌, if◌then◌else◌, length}
use psroot.Text.{Text, codes, text_eq, strip_prefix}
use psroot.Text.Split.{cut_at}
use psroot.Shell.{ShellResolverError, Result, ok, err, ◌>>=◌, ok_or, StageRule, StageOp}

-- The table of placeholders; a later entry of a name stands before an earlier one.
abbrev pub Vars : Type 0
Vars = List (Text × Text)

abbrev pub get : Text → Vars → Option Text
get k [] = none
get k ((j, v) ∷ vars) = if text_eq k j then some v else get k vars

abbrev pub with_out : Text → Result Text → Result Text
with_out out (ok rest) = ok (out ++ rest)
with_out out (err e) = err e

abbrev pub filled_in : Text → Option Text → Result Text → Result Text
filled_in key none rest = err (ShellResolverError.placeholder_unknown key)
filled_in key (some val) rest = with_out val rest

-- What a `{` gives, with `next` for the text after it or after its `}`.
abbrev pub at_open : Vars → Text → Option (Text × Text) → (Text → Result Text) → Result Text
at_open vars after none next = with_out (b'{' ∷ []) (next after)
at_open vars after (some (key, rest)) next = filled_in key (get key vars) (next rest)

abbrev pub at_rest : Vars → Text → Option (Text × Text) → (Text → Result Text) → Result Text
at_rest vars s none next = ok s
at_rest vars s (some (before, after)) next =
    with_out before (at_open vars after (cut_at b'}' after) next)

-- A round passes at least one `{`, so the fuel is the length.
unfoldable pub substitute_from : ℕ → Vars → Text → Result Text
substitute_from zero vars s = ok s
substitute_from (suc fuel) vars s = at_rest vars s (cut_at b'{' s) (substitute_from fuel vars)

unfoldable pub substitute : Text → Vars → Result Text
unfolding substitute_from
substitute s vars = substitute_from (length s) vars s

abbrev pub substitute_src : Option Text → Vars → Result (Option Text)
substitute_src none vars = ok none
substitute_src (some s) vars = do v ← substitute s vars; ok (some v)

abbrev pub source : Option Text → Result Text
source src = ok_or (ShellResolverError.placeholder_unknown (codes "src")) src

-- `builtin` are the embedded modules by their key.
abbrev pub text_content : (Text → Option Text) → Text → Option Text → Vars → Result Text
text_content builtin raw (some key) vars =
    ok_or (ShellResolverError.placeholder_unknown (codes "unknown builtin module: " ++ key))
      (builtin key)
text_content builtin raw none vars = substitute raw vars

abbrev pub content_of : (Text → Option Text) → Option Text → Vars → Result Text
content_of builtin content vars = do
  raw ←
      ok_or (ShellResolverError.placeholder_unknown (codes "write_text requires 'content'")) content
  text_content builtin raw (strip_prefix (codes "@builtin:") raw) vars

abbrev pub stage_op : (Text → Option Text) → StageRule → Vars → Text → Option Text → Result StageOp
stage_op builtin rule vars dst src =
    if text_eq rule.op (codes "ensure_dir")
    then ok (StageOp.ensure_dir dst)
    else if text_eq rule.op (codes "hardlink_tree")
    then (source src >>= λ s. ok (StageOp.hardlink_tree s dst rule.exclude))
    else if text_eq rule.op (codes "copy_tree")
    then (source src >>= λ s. ok (StageOp.copy_tree s dst rule.exclude))
    else if text_eq rule.op (codes "junction")
    then (source src >>= λ s. ok (StageOp.junction s dst))
    else if text_eq rule.op (codes "symlink")
    then (source src >>= λ s. ok (StageOp.symlink s dst))
    else if text_eq rule.op (codes "write_text")
    then (content_of builtin rule.content vars >>= λ content. ok (StageOp.write_text dst content))
    else err (ShellResolverError.placeholder_unknown (codes "stage op " ++ rule.op))

unfoldable pub substitute_stage : (Text → Option Text) → Vars → StageRule → Result StageOp
unfolding substitute
substitute_stage builtin vars rule = do
  dst ← substitute rule.dst vars
  src ← substitute_src rule.src vars
  stage_op builtin rule vars dst src
