-- ===== src/Tests/Texts.antt =====
-- Patterns (crates/psroot-rootfs-stager/src/lib.rs, crates/psroot-container/src/app_stage.rs) and quoted
-- arguments (crates/psroot-cli/src/main_windows.rs, crates/psroot-container/src/sandbox.rs).
use psroot.Prelude.{◌≡◌, ◌↔◌, refl, true, false, some, [], ◌∷◌, ◌++◌}
use psroot.Text.{codes}
use psroot.Glob.{glob_match_inner, glob_match, glob_recursive}
use psroot.Glob.Star.{Matches}
use psroot.Glob.Backtrack.{Answers, glob_match_inner-Answers}
use psroot.Glob.Recursive.{glob_recursive_iff}
use psroot.Quote.{backslash, quote, quote_arg_for_cmdline, quote_arg, read_arg}
use psroot.Quote.Reads.{Ends, read_arg-quote_arg_for_cmdline, read_arg-quote_arg-backslash}

stager_test : glob_match (codes "**\\ref\\**") (codes "abc/REF/foo/bar.dll") ≡ some true
unfolding glob_match
stager_test = refl

glob_match_inner-Answers_example :
    Answers
      (Matches (codes "*.pdb") (codes "x.pdb"))
      (glob_match_inner (codes "*.pdb") (codes "x.pdb"))
glob_match_inner-Answers_example =
    glob_match_inner-Answers (codes "*.pdb") (codes "x.pdb")
      (refl, (refl, (refl, (refl, (refl, tt)))))

glob_recursive_iff_example :
    (glob_recursive (codes "a?*") (codes "ABc") ≡ true) ↔ Matches (codes "a?*") (codes "ABc")
glob_recursive_iff_example = glob_recursive_iff (codes "a?*") (codes "ABc")

read_arg-quote_arg_for_cmdline_example :
    read_arg false 0 (quote_arg_for_cmdline (codes "a b\\") ++ codes " next")
    ≡ (codes "a b\\", codes "next")
read_arg-quote_arg_for_cmdline_example =
    read_arg-quote_arg_for_cmdline (codes "a b\\") (codes " next") (codes "next")
      (Ends.at_separator b' ' (codes "next") refl)

read_arg-quote_arg-backslash_example :
    (read_arg false 0 (quote_arg (codes "my dir" ++ backslash ∷ []) ++ codes " next")).0
    ≡ codes "my dir" ++ quote ∷ (read_arg true 0 (codes " next")).0
read_arg-quote_arg-backslash_example =
    read_arg-quote_arg-backslash (codes "my dir") (codes " next") refl
      (refl, (refl, (refl, (refl, (refl, (refl, tt))))))
      (refl, (refl, (refl, (refl, (refl, (refl, tt))))))
