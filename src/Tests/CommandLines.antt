-- ===== src/Tests/CommandLines.antt =====
-- Values of command line options (crates/psroot-cli/src/main_windows.rs).
use psroot.Prelude.{◌≡◌, refl, ◌*◌, ◌^◌, true, false, some, [], ◌∷◌, ◌++◌, arith}
use psroot.Text.{codes, text_eq}
use psroot.Text.Decimal.{show}
use psroot.CommandLine.{
  parse_memory, parse_volume, BindError, ok, err, backslash, parse_body, parse_bind_spec,
}
use psroot.CommandLine.Amounts.{Suffix, parse_memory-show}
use psroot.CommandLine.Paths.{parse_volume-drive, parse_body-drives, parse_body-letter}

wraps_around : parse_memory (codes "17179869184G") ≡ some 0
unfolding parse_memory
wraps_around = refl

reads_plain : parse_memory (codes " 4096 ") ≡ some 4096
unfolding parse_memory
reads_plain = refl

reads_mode :
    parse_bind_spec (codes "C:\\proj:D:\\mnt:ro")
    ≡ ok (record {
      host_path = codes "C:\\proj";
      container_path = codes "D:\\mnt";
      read_only = true;
    })
unfolding parse_bind_spec parse_body
reads_mode = refl

needs_drive : parse_bind_spec (codes "proj:/mnt") ≡ err BindError.no_drive
unfolding parse_bind_spec parse_body
needs_drive = refl

parse_memory-show_example : parse_memory (show 2 ++ b'g' ∷ []) ≡ some (2 * 2 ^ 30)
parse_memory-show_example =
    parse_memory-show 2 b'g' (2 ^ 30) Suffix.giga_lower (omega arith) (omega arith)

parse_volume-drive_example :
    parse_volume (b'C' ∷ b':' ∷ (codes "\\src" ++ b':' ∷ codes "/mnt"))
    ≡ some (record {
      host_path = b'C' ∷ [];
      container_path = codes "\\src";
      read_only = text_eq (codes "/mnt") (codes "ro");
    })
parse_volume-drive_example =
    parse_volume-drive b'C' (codes "\\src") (codes "/mnt") refl (refl, (refl, (refl, (refl, tt))))

parse_body-drives_example :
    parse_body
      (b'C' ∷ b':' ∷ backslash ∷ (codes "proj" ++ b':' ∷ b'D' ∷ b':' ∷ codes "\\mnt"))
      false
    ≡ ok (record {
      host_path = b'C' ∷ b':' ∷ backslash ∷ codes "proj";
      container_path = b'D' ∷ b':' ∷ codes "\\mnt";
      read_only = false;
    })
parse_body-drives_example =
    parse_body-drives b'C' backslash b'D' (codes "proj") (codes "\\mnt") false
      (refl, (refl, (refl, (refl, (refl, tt))))) refl

parse_body-letter_example :
    parse_body
      (b'C' ∷ b':' ∷ backslash ∷ (codes "src" ++ backslash ∷ b'd' ∷ b':' ∷ b'/' ∷ codes "mnt"))
      false
    ≡ ok (record {
      host_path = b'C' ∷ b':' ∷ backslash ∷ codes "src";
      container_path = b'd' ∷ b':' ∷ b'/' ∷ codes "mnt";
      read_only = false;
    })
parse_body-letter_example =
    parse_body-letter b'C' backslash backslash b'd' b'/' (codes "src") (codes "mnt") false
      (refl, (refl, (refl, (refl, tt)))) refl refl refl refl refl
